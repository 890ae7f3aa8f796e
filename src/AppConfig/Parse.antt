-- ===== src/AppConfig/Parse.antt =====
-- `Parse` and `FromJSON` (internal/appconfig/config.go).
use self_hosted_deployer.Common.{String, Option, none, some, ◌≡◌, refl, Result, ok, err}
use self_hosted_deployer.AppConfig.Types.{Config}
use self_hosted_deployer.AppConfig.Errors.{ConfigError}
use self_hosted_deployer.AppConfig.Externals.{Externals}
use self_hosted_deployer.AppConfig.Normalize.{normalize}
use self_hosted_deployer.AppConfig.Normalize.Idempotence.{normalize-normalize}
use self_hosted_deployer.AppConfig.Validate.{validate}

-- The decoders of the YAML and JSON libraries into the structure, and the JSON encoder.
pub record Codec : Type 0 where
  pub decode_yaml : String → Option Config
  pub unmarshal : String → Option Config
  pub marshal : Config → Option String

-- A document that does not decode, or a configuration that is not accepted.
pub data ParseError : Type 0 where
  malformed : ParseError
  invalid : ConfigError → ParseError

abbrev pub or_invalid : Config → Result ConfigError (Unit {0}) → Result ParseError Config
or_invalid c (ok _) = ok c
or_invalid c (err e) = err (invalid e)

or_invalid-ok :
    (n c : Config) (r : Result ConfigError (Unit {0}))
    → or_invalid n r ≡ ok c
    → (r ≡ ok tt) × (n ≡ c)
or_invalid-ok n c (ok _) h = (refl, cc)
or_invalid-ok n c (err e) h = cc

module _ (ext : Externals) (codec : Codec) where
  open codec use {decode_yaml, unmarshal}

  -- Normalize and Validate behind the decoder.
  unfoldable pub accept : Option Config → Result ParseError Config
  accept none = err malformed
  accept (some raw) = or_invalid (normalize raw) (validate ext (normalize raw))

  unfoldable pub parse : String → Result ParseError Config
  unfolding accept
  parse document = accept (decode_yaml document)

  accept-accepted :
      (o : Option Config) (c : Config)
      → accept o ≡ ok c
      → (validate ext c ≡ ok tt) × (normalize c ≡ c)
  unfolding accept
  accept-accepted none c h = cc
  accept-accepted (some raw) c h =
      let (valid, same) = or_invalid-ok (normalize raw) c (validate ext (normalize raw)) h in
      (rw (← same) valid, rw (← same) (normalize-normalize raw))

  -- A configuration that `Parse` returns is accepted by `Validate`, and normalizing it again
  -- changes nothing.
  pub parse-accepted :
      (document : String) (c : Config)
      → parse document ≡ ok c
      → (validate ext c ≡ ok tt) × (normalize c ≡ c)
  unfolding parse
  parse-accepted document c h = accept-accepted (decode_yaml document) c h

module _ (codec : Codec) where
  open codec use {unmarshal}

  unfoldable pub from_json : String → Option Config
  from_json document = elim (unmarshal document) [ none ↦ none | some raw ↦ some (normalize raw) ]
