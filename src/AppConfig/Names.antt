-- ===== src/AppConfig/Names.antt =====
-- The patterns of names in internal/appconfig/config.go and postgres.go.
use Prim.Native.Char.{code}
use Prim.Native.String.{String, [], ◌∷◌, len}
use self_hosted_deployer.Common.{
  ℕ, Bool, true, false, ◌&&◌, ◌||◌, leb, nat_eq, is_empty, all_chars, char_count, trim_space,
  Result, ok, err, if◌then◌else◌, ◌≡◌, refl,
}
use self_hosted_deployer.AppConfig.Errors.{ConfigError, secret_empty, secret_pattern}

abbrev pub is_digit : ℕ → Bool
is_digit c = leb b'0' c && leb c b'9'

abbrev pub is_lower : ℕ → Bool
is_lower c = leb b'a' c && leb c b'z'

abbrev pub is_upper : ℕ → Bool
is_upper c = leb b'A' c && leb c b'Z'

abbrev pub is_lower_alnum : ℕ → Bool
is_lower_alnum c = is_lower c || is_digit c

abbrev pub is_word_start : ℕ → Bool
is_word_start c = is_upper c || is_lower c || nat_eq c b'_'

-- The last character passes.
abbrev pub last_char : (ℕ → Bool) → String → Bool
last_char p [] = false
last_char p (c ∷ []) = p (code c)
last_char p (c ∷ s) = last_char p s

abbrev pub first_char : (ℕ → Bool) → String → Bool
first_char p [] = false
first_char p (c ∷ s) = p (code c)

-- `^[a-z0-9]([-a-z0-9]*[a-z0-9])?$`
unfoldable pub matches_app_name : String → Bool
matches_app_name s =
    first_char is_lower_alnum s
    && all_chars (λ c. is_lower_alnum c || nat_eq c b'-') s
    && last_char is_lower_alnum s

-- ValidAppName
unfoldable pub valid_app_name : String → Bool
unfolding matches_app_name
valid_app_name s = leb (len s) 63 && matches_app_name s

-- `^[A-Za-z_][A-Za-z0-9_]*$`
unfoldable pub matches_secret_name : String → Bool
matches_secret_name s =
    first_char is_word_start s && all_chars (λ c. is_word_start c || is_digit c) s

-- ValidateSecretName
unfoldable pub validate_secret_name : String → Result ConfigError (Unit {0})
unfolding matches_secret_name
validate_secret_name name =
    if is_empty (trim_space name)
    then err secret_empty
    else if matches_secret_name (trim_space name)
    then ok tt
    else err secret_pattern

-- `^[a-z_][a-z0-9_]{0,62}$`
unfoldable pub matches_postgres_identifier : String → Bool
matches_postgres_identifier s =
    first_char (λ c. is_lower c || nat_eq c b'_') s
    && all_chars (λ c. is_lower c || is_digit c || nat_eq c b'_') s
    && leb (char_count s) 63

names_run :
    (valid_app_name "my-app-2" ≡ true)
    × (valid_app_name "-app" ≡ false)
    × (valid_app_name "app-" ≡ false)
    × (valid_app_name "" ≡ false)
unfolding valid_app_name
names_run = (refl, refl, refl, refl)
