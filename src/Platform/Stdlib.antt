-- ===== src/Platform/Stdlib.antt =====
-- Functions of Go's standard library that the models take as parameters: tables of Unicode case,
-- printing of values, parsing of URLs and addresses, JSON, SHA-256 and base64.
use Prim.Native.Char.{Char}
use a2a_registry.Common.{ℕ, String, Option, none, some, Result, Bool}
use a2a_registry.Common.Int32.{ℤ}
use a2a_registry.Api.{Time}
use a2a_registry.Platform.Card.{AgentCard}

pub record Std : Type 0 where
  -- `unicode.ToLower`
  pub lower_rune : Char → Char
  -- one rune for each orbit of `unicode.SimpleFold`
  pub fold_rune : Char → Char
  -- `%q`, `%d`, `time.Duration` under `%s`, `Time.Format(time.RFC3339)`
  pub quote : String → String
  pub format_int : ℤ → String
  pub format_duration : ℕ → String
  pub format_rfc3339 : Time → String
  -- `url.Parse`: the scheme, or none for an error
  pub url_scheme : String → Option String
  -- `net.SplitHostPort` and `net.JoinHostPort`
  pub split_host_port : String → Option (String × String)
  pub join_host_port : String → String → String
  -- is there no error of `strconv.Atoi`?
  pub atoi_ok : String → Bool
  -- `base64.StdEncoding.EncodeToString`
  pub base64_encode : String → String
  -- `json.Decode` and `json.Marshal` at an agent card, and `%x` of `sha256.Sum256`
  pub decode_card : String → Result String AgentCard
  pub marshal_card : AgentCard → Result String String
  pub sha256_hex : String → String

-- What `flag.Parse` finds on the command line for a flag with that name.
pub record CommandLine : Type 0 where
  pub string_flag : String → Option String
  pub bool_flag : String → Option Bool
  pub int_flag : String → Option ℤ

-- A flag that is not on the command line has its default.
abbrev pub or_default : {A : Type 0} → A → Option A → A
or_default a none = a
or_default a (some b) = b
