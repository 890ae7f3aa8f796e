-- ===== src/AppConfig/Validate/PostgresImage.antt =====
-- `PostgresImageMajor` and its pattern (internal/appconfig/postgres.go). The pattern is matched
-- from the left: the text before the one `@`, its last `:`, and behind that the tag.
use Prim.Native.Char.{code}
use Prim.Native.String.{String, [], ◌∷◌}
use self_hosted_deployer.Common.{
  ℕ, zero, suc, ◌+◌, ◌*◌, ◌-◌, Bool, true, false, Option, none, some, ◌&&◌, ◌||◌, not, leb, ltb,
  nat_eq, all_chars, char_count, is_lower_hex, is_empty, Result, ok, err, has_prefix, if◌then◌else◌,
  ◌≡◌, refl,
}
use self_hosted_deployer.AppConfig.Errors.{ConfigError, postgres_image, postgres_major}
use self_hosted_deployer.AppConfig.Names.{is_digit, is_lower, is_upper}

-- The text before the first such character and the text behind it.
unfoldable pub split_at_char : ℕ → String → Option (String × String)
split_at_char c [] = none
split_at_char c (d ∷ s) =
    let rest = split_at_char c s in
    if nat_eq (code d) c
    then some ([], s)
    else elim rest [ none ↦ none | some (before, behind) ↦ some (d ∷ before, behind) ]

-- The same at the last such character.
unfoldable pub split_at_last : ℕ → String → Option (String × String)
split_at_last c [] = none
split_at_last c (d ∷ s) = elim (split_at_last c s) [
  | some (before, behind) ↦ some (d ∷ before, behind)
  | none ↦ if nat_eq (code d) c then some ([], s) else none
]

-- `\s`
abbrev is_blank : ℕ → Bool
is_blank c = leb 9 c && leb c 10 || leb 12 c && leb c 13 || nat_eq c 32

abbrev is_suffix_start : ℕ → Bool
is_suffix_start c = is_lower c || is_upper c || nat_eq c b'_' || nat_eq c b'-'

abbrev is_suffix_char : ℕ → Bool
is_suffix_char c = is_suffix_start c || is_digit c || nat_eq c b'.'

-- What may follow digits, `(\.[0-9]+)*([A-Za-z_-][A-Za-z0-9_.-]*)?`: the flag says that a digit
-- has to come next.
unfoldable pub matches_tag_rest : Bool → String → Bool
matches_tag_rest wanted [] = not wanted
matches_tag_rest wanted (c ∷ s) =
    let more = matches_tag_rest false s in
    let dot = matches_tag_rest true s in
    if is_digit (code c)
    then more
    else not wanted
      && (nat_eq (code c) b'.' && dot || is_suffix_start (code c) && all_chars is_suffix_char s)

-- The number that the leading digits of a text write.
unfoldable pub leading_number : ℕ → String → ℕ
leading_number n [] = n
leading_number n (c ∷ s) =
    let rest = leading_number (n * 10 + (code c - b'0')) s in if is_digit (code c) then rest else n

abbrev starts_with_digit : String → Bool
starts_with_digit [] = false
starts_with_digit (c ∷ s) = is_digit (code c)

abbrev drop_chars : ℕ → String → String
drop_chars zero s = s
drop_chars (suc n) [] = []
drop_chars (suc n) (c ∷ s) = drop_chars n s

-- `^[^@\s]+:` before a tag that begins with a digit.
abbrev named_tag : Option (String × String) → Option String
named_tag none = none
named_tag (some (name, tag)) =
    if not (is_empty name) && starts_with_digit tag && matches_tag_rest false tag
    then some tag
    else none

-- The tag of an image whose name, tag and digest have the pattern.
unfoldable pub image_tag : String → Option String
image_tag image = elim (split_at_char b'@' image) [
  | none ↦ none
  | some (reference, digest) ↦
      if has_prefix digest "sha256:"
        && nat_eq (char_count digest) 71
        && all_chars (λ c. is_lower_hex c) (drop_chars 7 digest)
        && all_chars (λ c. not (is_blank c)) reference
      then named_tag (split_at_last b':' reference)
      else none
]

unfoldable pub postgres_image_major : String → Result ConfigError ℕ
unfolding split_at_char split_at_last matches_tag_rest leading_number image_tag
postgres_image_major image = elim (image_tag image) [
  | none ↦ err postgres_image
  | some tag ↦
      let major = leading_number 0 tag in
      if ltb major 14 || ltb 18 major then err postgres_major else ok major
]

postgres_image_major_run :
    (postgres_image_major
        "ghcr.io/cloudnative-pg/postgresql:17.5-standard@sha256:aaaaaaaaaaaaaaaaaaaaaaaaaaaaaaaaaaaaaaaaaaaaaaaaaaaaaaaaaaaaaaaa"
      ≡ ok 17)
    × (postgres_image_major "postgres:17" ≡ err postgres_image)
    × (postgres_image_major
          "postgres:17.@sha256:aaaaaaaaaaaaaaaaaaaaaaaaaaaaaaaaaaaaaaaaaaaaaaaaaaaaaaaaaaaaaaaa"
        ≡ err postgres_image)
unfolding postgres_image_major
postgres_image_major_run = (refl, refl, refl)
