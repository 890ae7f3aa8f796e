-- ===== src/Examples/TextOrder.antt =====
-- A collation that runs: texts in the order of their characters.
use Prim.Native.Char.{code}
use Prim.Native.String.{[], ◌∷◌}
use text.Mathlib.TextEquality.{Char-path}
use self_hosted_deployer.Common.{
  String, Bool, true, false, ◌≡◌, refl, ◌⊎◌, inl, inr, ◌&&◌, ◌||◌, ltb, nat_eq, Bool-cases,
  nat_eq_iff, arith,
}
use self_hosted_deployer.Events.Types.{Collation}

-- The order of the texts by their characters.
pub text_before : String → String → Bool
text_before s [] = false
text_before [] (d ∷ t) = true
text_before (c ∷ s) (d ∷ t) =
    let rest = text_before s t in ltb (code c) (code d) || nat_eq (code c) (code d) && rest

pub text_before_irrefl : (s : String) → text_before s s ≡ false
unfolding text_before
text_before_irrefl [] = refl
text_before_irrefl (c ∷ s) = ground (arith, text_before_irrefl s)

pub text_before_trans :
    (s t u : String) → text_before s t ≡ true → text_before t u ≡ true → text_before s u ≡ true
unfolding text_before
text_before_trans s t [] h g = ground arith
text_before_trans [] [] (e ∷ u) h g = refl
text_before_trans [] (d ∷ t) (e ∷ u) h g = refl
text_before_trans (c ∷ s) [] (e ∷ u) h g = ground arith
text_before_trans (c ∷ s) (d ∷ t) (e ∷ u) h g = ground (arith, text_before_trans s t u)

pub text_before_total :
    (s t : String) → (text_before s t ≡ true) ⊎ (s ≡ t) ⊎ (text_before t s ≡ true)
unfolding text_before
text_before_total [] [] = inr (inl refl)
text_before_total [] (d ∷ t) = inl refl
text_before_total (c ∷ s) [] = inr (inr refl)
text_before_total (c ∷ s) (d ∷ t) = elim (Bool-cases (nat_eq (code c) (code d))) [
  | inr h ↦ ground arith
  | inl h ↦
      let same : c ≡ d = Char-path c d ((nat_eq_iff _ _).0 h) in
      elim (text_before_total s t) [
        | inl g ↦ inl (ground arith)
        | inr (inl e) ↦ inr (inl (cc))
        | inr (inr g) ↦ inr (inr (ground arith))
      ]
]

abbrev pub texts : Collation
texts = record {
  before = text_before;
  before_irrefl = text_before_irrefl;
  before_trans = text_before_trans;
  before_total = text_before_total;
}
