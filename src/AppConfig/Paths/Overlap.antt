-- ===== src/AppConfig/Paths/Overlap.antt =====
-- What `mountPathsOverlap` decides: whether some file can lie under both mount paths.
use Prim.Native.Char.{code}
use Prim.Native.Char.{Char}
use Prim.Native.String.{String, [], ◌∷◌}
use mathlib.Core.Path.{◌≡◌, refl, ap₂, sym, ◌∙◌}
use mathlib.Core.Logic.{◌⊎◌, inl, inr, ◌↔◌}
use mathlib.Core.Bool.{true, false}
use native.Mathlib.Omega.{arith}
use text.Mathlib.TextEquality.{Char-path, eq_iff}
use text.Mathlib.Text.{◌==◌}
use self_hosted_deployer.Common.Tests.{nat_eq, nat_eq_iff, Bool-cases, and-true}
use self_hosted_deployer.Common.Text.{has_prefix, concat}
use self_hosted_deployer.AppConfig.Paths.{mount_paths_overlap}

-- A file lies under a mount path if it is that path or a path below it.
abbrev pub LiesUnder : String → String → Type 0
LiesUnder file mount = (file ≡ mount) ⊎ (has_prefix file (concat mount "/") ≡ true)

same_char : (c d : Char) → nat_eq (code c) (code d) ≡ true → c ≡ d
same_char c d h = Char-path c d ((nat_eq_iff _ _).0 h)

-- Of two prefixes of one text, with the separator behind each, one path equals or extends the other.
prefixes_compare :
    (file a b : String)
    → has_prefix file (concat a "/") ≡ true
    → has_prefix file (concat b "/") ≡ true
    → (a ≡ b) ⊎ ((has_prefix a (concat b "/") ≡ true) ⊎ (has_prefix b (concat a "/") ≡ true))
prefixes_compare [] [] b h k = cc
prefixes_compare [] (c ∷ a) b h k = cc
prefixes_compare (f ∷ file) [] [] h k = inl refl
prefixes_compare (f ∷ file) [] (d ∷ b) h k = inr (inr (ground arith))
prefixes_compare (f ∷ file) (c ∷ a) [] h k = inr (inl (ground arith))
prefixes_compare (f ∷ file) (c ∷ a) (d ∷ b) h k =
    elim (prefixes_compare file a b (and-true _ _ h).1 (and-true _ _ k).1) [
      | inl e ↦ inl (ap₂ ◌∷◌ (same_char c d (ground arith)) e)
      | inr (inl p) ↦ inr (inl (ground arith))
      | inr (inr p) ↦ inr (inr (ground arith))
    ]

has_prefix-concat : (a b : String) → has_prefix (concat a b) a ≡ true
has_prefix-concat [] b = refl
has_prefix-concat (c ∷ a) b = ground (arith, has_prefix-concat a b)

overlap_parts :
    (a b : String)
    → mount_paths_overlap a b ≡ false
    → ((a == b) ≡ false)
      × (has_prefix a (concat b "/") ≡ false)
      × (has_prefix b (concat a "/") ≡ false)
unfolding mount_paths_overlap
overlap_parts a b h = (ground arith, ground arith, ground arith)

not-both :
    (a b file : String) → mount_paths_overlap a b ≡ false → LiesUnder file a → LiesUnder file b → ⊥
not-both a b file h (inl p) (inl q) = cc ((eq_iff a b).1 (sym p ∙ q), (overlap_parts a b h).0)
not-both a b file h (inl p) (inr q) = cc ((overlap_parts a b h).1, rw p at q)
not-both a b file h (inr p) (inl q) = cc ((overlap_parts a b h).2, rw q at p)
not-both a b file h (inr p) (inr q) = elim (prefixes_compare file a b p q) [
  | inl e ↦ cc ((eq_iff a b).1 e, (overlap_parts a b h).0)
  | inr (inl e) ↦ cc (e, (overlap_parts a b h).1)
  | inr (inr e) ↦ cc (e, (overlap_parts a b h).2)
]

shared_file :
    (a b : String)
    → mount_paths_overlap a b ≡ true
    → (file : String) × LiesUnder file a × LiesUnder file b
unfolding mount_paths_overlap
shared_file a b h = elim (Bool-cases (a == b)) [
  | inl e ↦ (a, inl refl, inl ((eq_iff a b).0 e))
  | inr ne ↦ elim (Bool-cases (has_prefix a (concat b "/"))) [
    | inl p ↦ (a, inl refl, inr p)
    | inr np ↦ (b, inr (ground arith), inl refl)
  ]
]

-- `mountPathsOverlap` answers false exactly for mount paths under which no file lies at once.
pub overlap_iff :
    (a b : String)
    → (mount_paths_overlap a b ≡ false)
      ↔ ((file : String) → LiesUnder file a → LiesUnder file b → ⊥)
overlap_iff a b = (
  λ h file p q. not-both a b file h p q,
  λ none_shared. elim (Bool-cases (mount_paths_overlap a b)) [
    | inl h ↦ let (file, p, q) = shared_file a b h in absurd (none_shared file p q)
    | inr h ↦ h
  ],
)
