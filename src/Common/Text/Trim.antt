-- ===== src/Common/Text/Trim.antt =====
-- strings.TrimSpace trims once: what it leaves has no white space at either end.
use Prim.Native.Char.{code}
use Prim.Native.String.{String, [], ◌∷◌}
use mathlib.Core.Path.{◌≡◌, refl, ap, ◌∙◌}
use mathlib.Core.Bool.{Bool, true, not, ◌&&◌}
use mathlib.Core.Logic.{inl, inr}
use self_hosted_deployer.Common.Tests.{Bool-cases}
use self_hosted_deployer.Common.Text.{is_space, is_empty, trim_left, trim_right, trim_space}

-- The first character, if there is one, is no white space.
abbrev starts_clean : String → Bool
starts_clean [] = true
starts_clean (c ∷ s) = not (is_space (code c))

trim_left-starts_clean : (s : String) → starts_clean (trim_left s) ≡ true
unfolding trim_left
trim_left-starts_clean [] = refl
trim_left-starts_clean (c ∷ s) = elim (Bool-cases (is_space (code c))) [
  | inl e ↦ rw e (trim_left-starts_clean s)
  | inr e ↦ rw e (rw e)
]

trim_left_of_clean : (s : String) → starts_clean s ≡ true → trim_left s ≡ s
unfolding trim_left
trim_left_of_clean [] h = refl
trim_left_of_clean (c ∷ s) h = elim (Bool-cases (is_space (code c))) [
  | inl e ↦ cc (ap not e)
  | inr e ↦ rw e
]

trim_right-starts_clean : (s : String) → starts_clean s ≡ true → starts_clean (trim_right s) ≡ true
unfolding trim_right
trim_right-starts_clean [] h = refl
trim_right-starts_clean (c ∷ s) h = elim (Bool-cases (is_space (code c))) [
  | inl e ↦ cc (ap not e)
  | inr e ↦ rw e (rw e)
]

trim_right-trim_right : (s : String) → trim_right (trim_right s) ≡ trim_right s
unfolding trim_right
trim_right-trim_right [] = refl
trim_right-trim_right (c ∷ s) = elim (Bool-cases (is_space (code c) && is_empty (trim_right s))) [
  | inl e ↦ rw e
  | inr e ↦ rw e (rw (trim_right-trim_right s) (rw e))
]

pub trim_space-trim_space : (s : String) → trim_space (trim_space s) ≡ trim_space s
unfolding trim_space
trim_space-trim_space s =
    ap trim_right (
      trim_left_of_clean (trim_right (trim_left s))
        (trim_right-starts_clean (trim_left s) (trim_left-starts_clean s)))
    ∙ trim_right-trim_right (trim_left s)
