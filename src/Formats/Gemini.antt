-- ===== src/Formats/Gemini.antt =====
-- pkg/formats/geminioauth: parse.go, validate.go, compare.go, account.go and the names of format.go.
use pangaea.Prelude.{
  ℤ, pos, ℕ, zero, suc, ◌+◌, ◌*◌, String, not, Option, none, some, List, [], ◌∷◌, Result, failed,
  unless, to_option, ◌==◌, if◌then◌else◌,
}
use pangaea.Formats.{Format, Order, ValidationResult, expired, ok}
use pangaea.Formats.Clock.{zero_time, is_zero, before, unix_milli, minute}
use pangaea.Formats.Ordering.{compare_times}
use pangaea.Formats.Text.{utf8, first_16, trim_bom, fields}
use pangaea.Formats.Jwt.{Jwt, claims_of, text_claim}

pub record FileShape : Type 0 where
  pub access_token : Option String
  pub refresh_token : Option String
  pub scope : Option String
  pub token_type : Option String
  pub id_token : Option String
  pub expiry_date : Option ℤ

pub record Snapshot : Type 0 where
  pub access_token : String
  pub refresh_token : String
  pub id_token : String
  pub token_type : String
  pub scopes : List String
  pub expiry_date : ℕ
  pub google_sub : String
  pub google_email : String
  pub raw : List ℕ
  pub fingerprint : String
  pub identity : String

abbrev pub format_name : String
format_name = "gemini-oauth-creds-json-format"

abbrev pub strategy_expiry_date_max : String
strategy_expiry_date_max = "expiry_date_max"

abbrev pub eager_refresh_threshold : ℕ
eager_refresh_threshold = 5 * minute

-- *p, or the zero value of an unset field.
abbrev pub text_or_empty : Option String → String
text_or_empty none = ""
text_or_empty (some s) = s

unfoldable pub expiry_of : Option ℤ → ℕ
expiry_of (some (pos zero)) = zero_time
expiry_of (some (pos (suc n))) = unix_milli (pos (suc n))
expiry_of _ = zero_time

unfoldable pub scopes_of : Option String → List String
scopes_of none = []
scopes_of (some s) = if s == "" then [] else fields s

module _ (unmarshal : List ℕ → Option FileShape) (sha256 : List ℕ → String) (jwt : Jwt) where
  -- decodeIDTokenAccount: the claims sub and email, empty where there is none.
  unfoldable pub decode_id_token_account : Option String → String × String
  decode_id_token_account none = ("", "")
  decode_id_token_account (some token) = elim (claims_of jwt token) [
    | none ↦ ("", "")
    | some claims ↦ (text_claim "sub" claims, text_claim "email" claims)
  ]

  unfoldable pub snapshot_of : List ℕ → FileShape → Snapshot
  unfolding decode_id_token_account
  snapshot_of raw f = record {
    access_token = text_or_empty f.access_token;
    refresh_token = text_or_empty f.refresh_token;
    id_token = text_or_empty f.id_token;
    token_type = text_or_empty f.token_type;
    scopes = scopes_of f.scope;
    expiry_date = expiry_of f.expiry_date;
    google_sub = (decode_id_token_account f.id_token).0;
    google_email = (decode_id_token_account f.id_token).1;
    raw = raw;
    fingerprint = sha256 raw;
    identity = first_16 (sha256 (utf8 (text_or_empty f.access_token)));
  }

  -- The checks on the decoded file: a nil token is refused as the empty one is.
  unfoldable pub missing : FileShape → Option String
  missing f =
      if text_or_empty f.access_token == ""
      then some "missing access_token"
      else if text_or_empty f.refresh_token == ""
      then some "missing refresh_token"
      else none

  unfoldable pub parse_shape : List ℕ → Option FileShape → Result String Snapshot
  unfolding snapshot_of missing
  parse_shape raw none = failed "decode gemini-oauth-creds-json-format"
  parse_shape raw (some f) = unless (missing f) (snapshot_of raw f)

  unfoldable pub parse : List ℕ → Result String Snapshot
  unfolding parse_shape
  parse [] = failed "empty gemini oauth bytes"
  parse (b ∷ bs) = parse_shape (b ∷ bs) (unmarshal (trim_bom (b ∷ bs)))

unfoldable pub validate : Snapshot → ℕ → ValidationResult
validate s now =
    if is_zero s.expiry_date
    then record { status = expired; detail = "expiry_date is absent"; checked_at = now }
    else if not (before (now + eager_refresh_threshold) s.expiry_date)
    then record {
      status = expired;
      detail = "expiry_date within 5-minute eager-refresh window";
      checked_at = now;
    }
    else record { status = ok; detail = ""; checked_at = now }

unfoldable pub compare : String → Snapshot → Snapshot → Option Order
compare strategy a b =
    if strategy == strategy_expiry_date_max
    then some (compare_times a.expiry_date b.expiry_date Order.same)
    else none

-- Account never fails.
unfoldable pub account : Snapshot → String
account s = if s.google_sub == "" then s.google_email else s.google_sub

abbrev pub format : (List ℕ → Option FileShape) → (List ℕ → String) → Jwt → Format
format unmarshal sha256 jwt = record {
  Snapshot = Snapshot;
  name = format_name;
  strategies = strategy_expiry_date_max ∷ [];
  parse = λ raw. to_option (parse unmarshal sha256 jwt raw);
  validate = validate;
  compare = compare;
  raw = λ s. s.raw;
  fingerprint = λ s. s.fingerprint;
  expires_at = λ s. s.expiry_date;
}
