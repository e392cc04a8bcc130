-- ===== src/Formats/Claude.antt =====
-- pkg/formats/claudecreds: parse.go, validate.go, compare.go and the names of format.go. What
-- encoding/json and SHA-256 yield are parameters.
use pangaea.Prelude.{
  ℤ, pos, ℕ, zero, String, Bool, true, false, not, ◌||◌, Option, none, some, List, [], ◌∷◌, Result,
  failed, unless, to_option, ◌==◌, if◌then◌else◌,
}
use pangaea.Formats.{Format, Order, ValidationResult, expired, ok}
use pangaea.Formats.Clock.{is_zero, before, unix_milli}
use pangaea.Formats.Ordering.{compare_times}
use pangaea.Formats.Text.{utf8, first_16, trim_bom}

pub record OauthBlock : Type 0 where
  pub access_token : String
  pub refresh_token : String
  pub expires_at : ℤ
  pub scopes : List String
  pub subscription_type : String
  pub rate_limit_tier : String
  pub legacy_access_token : String

-- The type is called `snapshot` in the source.
pub record Snapshot : Type 0 where
  pub access_token : String
  pub refresh_token : String
  pub expires_at : ℕ
  pub scopes : List String
  pub subscription_type : String
  pub rate_limit_tier : String
  pub raw : List ℕ
  pub fingerprint : String
  pub identity : String

abbrev pub format_name : String
format_name = "claude-credentials-json-format"

abbrev pub strategy_expires_at_max : String
strategy_expires_at_max = "expires_at_max"

abbrev pub access_of : OauthBlock → String
access_of f = if f.access_token == "" then f.legacy_access_token else f.access_token

abbrev pub is_zero_int : ℤ → Bool
is_zero_int (pos zero) = true
is_zero_int _ = false

-- `unmarshal` is json.Unmarshal into a fileShape, and `sha256` the hexadecimal digest.
module _ (unmarshal : List ℕ → Option OauthBlock) (sha256 : List ℕ → String) where
  unfoldable pub snapshot_of : List ℕ → OauthBlock → Snapshot
  snapshot_of raw f = record {
    access_token = access_of f;
    refresh_token = f.refresh_token;
    expires_at = unix_milli f.expires_at;
    scopes = f.scopes;
    subscription_type = f.subscription_type;
    rate_limit_tier = f.rate_limit_tier;
    raw = raw;
    fingerprint = sha256 raw;
    identity = first_16 (sha256 (utf8 (access_of f)));
  }

  -- The checks on the decoded file, in the order of the code.
  unfoldable pub missing : OauthBlock → Option String
  missing f =
      if access_of f == ""
      then some "missing claudeAiOauth.accessToken"
      else if f.refresh_token == ""
      then some "missing claudeAiOauth.refreshToken"
      else if is_zero_int f.expires_at
      then some "missing or zero claudeAiOauth.expiresAt"
      else none

  unfoldable pub parse_block : List ℕ → Option OauthBlock → Result String Snapshot
  unfolding snapshot_of missing
  parse_block raw none = failed "decode claude-credentials-json-format"
  parse_block raw (some f) = unless (missing f) (snapshot_of raw f)

  unfoldable pub parse : List ℕ → Result String Snapshot
  unfolding parse_block
  parse [] = failed "empty credential bytes"
  parse (b ∷ bs) = parse_block (b ∷ bs) (unmarshal (trim_bom (b ∷ bs)))

-- Validate without the live check, at an instant.
unfoldable pub validate : Snapshot → ℕ → ValidationResult
validate s now =
    if is_zero s.expires_at || not (before now s.expires_at)
    then record { status = expired; detail = "expiresAt has passed"; checked_at = now }
    else record { status = ok; detail = ""; checked_at = now }

-- strategyMustBeKnown panics: `none`.
unfoldable pub compare : String → Snapshot → Snapshot → Option Order
compare strategy a b =
    if strategy == strategy_expires_at_max
    then some (compare_times a.expires_at b.expires_at Order.same)
    else none

abbrev pub format : (List ℕ → Option OauthBlock) → (List ℕ → String) → Format
format unmarshal sha256 = record {
  Snapshot = Snapshot;
  name = format_name;
  strategies = strategy_expires_at_max ∷ [];
  parse = λ raw. to_option (parse unmarshal sha256 raw);
  validate = validate;
  compare = compare;
  raw = λ s. s.raw;
  fingerprint = λ s. s.fingerprint;
  expires_at = λ s. s.expires_at;
}
