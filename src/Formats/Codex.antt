-- ===== src/Formats/Codex.antt =====
-- pkg/formats/codexauth: parse.go, validate.go, compare.go, account.go and the names of format.go.
use pangaea.Prelude.{
  ℕ, ◌+◌, ◌*◌, String, not, Option, none, some, List, [], ◌∷◌, Result, failed, unless, to_option,
  ◌==◌, if◌then◌else◌,
}
use pangaea.Formats.{Format, Order, ValidationResult, expired, ok, scope_warn}
use pangaea.Formats.Clock.{zero_time, is_zero, before, unix, minute}
use pangaea.Formats.Ordering.{compare_times}
use pangaea.Formats.Text.{utf8, first_16, trim_bom}
use pangaea.Formats.Jwt.{Jwt, Json, number, Object, claims_of, get, text_claim, object_claim}

pub record TokenData : Type 0 where
  pub id_token : String
  pub access_token : String
  pub refresh_token : String
  pub account_id : String

-- Without the fields that Parse does not read, the API key and the agent's identity.
pub record FileShape : Type 0 where
  pub auth_mode : String
  pub tokens : Option TokenData
  pub last_refresh : Option ℕ

pub record Snapshot : Type 0 where
  pub auth_mode : String
  pub access_token : String
  pub refresh_token : String
  pub id_token : String
  pub account_id : String
  pub jwt_exp : ℕ
  pub last_refresh : ℕ
  pub chatgpt_email : String
  pub chatgpt_user_id : String
  pub chatgpt_account_id : String
  pub raw : List ℕ
  pub fingerprint : String
  pub identity : String

abbrev pub format_name : String
format_name = "codex-auth-json-format"

abbrev pub strategy_jwt_exp_max : String
strategy_jwt_exp_max = "jwt_exp_max"

abbrev pub expiry_safety_skew : ℕ
expiry_safety_skew = 5 * minute

abbrev pub instant_or_zero : Option ℕ → ℕ
instant_or_zero none = zero_time
instant_or_zero (some t) = t

module _ (jwt : Jwt) where
  -- The instant of the claim exp. UseNumber leaves no float64.
  unfoldable pub exp_value : Option Json → ℕ
  exp_value (some (number s)) = elim (jwt.int64 s) [ none ↦ zero_time | some n ↦ unix n ]
  exp_value _ = zero_time

  -- jwtExp, whose error Parse drops.
  unfoldable pub jwt_exp : String → ℕ
  unfolding exp_value
  jwt_exp token = elim (claims_of jwt token) [
    | none ↦ zero_time
    | some claims ↦ exp_value (get "exp" claims)
  ]

  unfoldable pub email_of : Object → String
  email_of claims =
      if text_claim "email" claims == ""
      then elim (object_claim "https://api.openai.com/profile" claims) [
        | none ↦ ""
        | some profile ↦ text_claim "email" profile
      ]
      else text_claim "email" claims

  unfoldable pub user_id_of : Object → String
  user_id_of auth =
      if text_claim "chatgpt_user_id" auth == ""
      then text_claim "chatgpt_account_id" auth
      else text_claim "chatgpt_user_id" auth

  -- A claim of a token, empty for the empty token and for one that does not decode.
  unfoldable pub read_claims : (Object → String) → String → String
  read_claims f token =
      if token == "" then "" else elim (claims_of jwt token) [ none ↦ "" | some claims ↦ f claims ]

  -- A claim of the object under https://api.openai.com/auth.
  unfoldable pub in_auth : (Object → String) → Object → String
  in_auth f claims = elim (object_claim "https://api.openai.com/auth" claims) [
    | none ↦ ""
    | some auth ↦ f auth
  ]

  unfoldable pub jwt_email : String → String
  unfolding read_claims email_of
  jwt_email token = read_claims email_of token

  unfoldable pub jwt_chatgpt_user_id : String → String
  unfolding read_claims in_auth user_id_of
  jwt_chatgpt_user_id token = read_claims (in_auth user_id_of) token

  unfoldable pub jwt_chatgpt_account_id : String → String
  unfolding read_claims in_auth
  jwt_chatgpt_account_id token = read_claims (in_auth (text_claim "chatgpt_account_id")) token

module _ (unmarshal : List ℕ → Option FileShape) (sha256 : List ℕ → String) (jwt : Jwt) where
  unfoldable pub snapshot_of : List ℕ → FileShape → TokenData → Snapshot
  unfolding jwt_exp jwt_email jwt_chatgpt_user_id jwt_chatgpt_account_id
  snapshot_of raw f t = record {
    auth_mode = f.auth_mode;
    access_token = t.access_token;
    refresh_token = t.refresh_token;
    id_token = t.id_token;
    account_id = t.account_id;
    jwt_exp = jwt_exp jwt t.access_token;
    last_refresh = instant_or_zero f.last_refresh;
    chatgpt_email =
        if jwt_email jwt t.id_token == ""
        then jwt_email jwt t.access_token
        else jwt_email jwt t.id_token;
    chatgpt_user_id = jwt_chatgpt_user_id jwt t.id_token;
    chatgpt_account_id = jwt_chatgpt_account_id jwt t.id_token;
    raw = raw;
    fingerprint = sha256 raw;
    identity = first_16 (sha256 (utf8 t.access_token));
  }

  -- The checks on the decoded file.
  unfoldable pub missing : TokenData → Option String
  missing t =
      if t.access_token == ""
      then some "missing tokens.access_token"
      else if t.refresh_token == ""
      then some "missing tokens.refresh_token"
      else none

  unfoldable pub parse_tokens : List ℕ → FileShape → Option TokenData → Result String Snapshot
  unfolding snapshot_of missing
  parse_tokens raw f none = failed "missing tokens.access_token"
  parse_tokens raw f (some t) = unless (missing t) (snapshot_of raw f t)

  unfoldable pub parse_shape : List ℕ → Option FileShape → Result String Snapshot
  unfolding parse_tokens
  parse_shape raw none = failed "decode codex-auth-json-format"
  parse_shape raw (some f) = parse_tokens raw f f.tokens

  unfoldable pub parse : List ℕ → Result String Snapshot
  unfolding parse_shape
  parse [] = failed "empty codex auth bytes"
  parse (b ∷ bs) = parse_shape (b ∷ bs) (unmarshal (trim_bom (b ∷ bs)))

unfoldable pub validate : Snapshot → ℕ → ValidationResult
validate s now =
    if is_zero s.jwt_exp
    then record {
      status = scope_warn;
      detail = "access_token JWT exp not parseable";
      checked_at = now;
    }
    else if not (before (now + expiry_safety_skew) s.jwt_exp)
    then record {
      status = expired;
      detail = "access_token JWT exp has passed or is within refresh safety window";
      checked_at = now;
    }
    else record { status = ok; detail = ""; checked_at = now }

unfoldable pub compare : String → Snapshot → Snapshot → Option Order
compare strategy a b =
    if strategy == strategy_jwt_exp_max
    then some
        (compare_times a.jwt_exp b.jwt_exp (compare_times a.last_refresh b.last_refresh Order.same))
    else none

-- Account never fails.
unfoldable pub account : Snapshot → String
account s =
    if s.chatgpt_user_id == ""
    then if s.account_id == "" then s.chatgpt_email else s.account_id
    else s.chatgpt_user_id

abbrev pub format : (List ℕ → Option FileShape) → (List ℕ → String) → Jwt → Format
format unmarshal sha256 jwt = record {
  Snapshot = Snapshot;
  name = format_name;
  strategies = strategy_jwt_exp_max ∷ [];
  parse = λ raw. to_option (parse unmarshal sha256 jwt raw);
  validate = validate;
  compare = compare;
  raw = λ s. s.raw;
  fingerprint = λ s. s.fingerprint;
  expires_at = λ s. s.jwt_exp;
}
