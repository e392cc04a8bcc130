-- ===== src/Examples.antt =====
-- Concrete inputs for the theorems: encoders that compute, files, sessions and states.
pub mod Rounds
pub mod Runs
pub mod Files
pub mod Sessions
pub mod Agent
pub mod Handshake
pub mod Settings
pub mod Recovery
pub mod Dialing
pub mod Serving
pub mod Reports
pub mod Notices
use Prim.Native.Char.{char, code}
use pangaea.Prelude.{
  ℤ, pos, ℕ, zero, suc, ◌+◌, ◌≡◌, refl, ap, ◌∙◌, String, Bool, true, false, Option, none, some,
  List, [], ◌∷◌, contains, eqb, if◌then◌else◌,
}
use pangaea.Formats.{Format, IsFormat, ok}
use pangaea.Formats.Clock.{epoch}
use pangaea.Formats.Claude.{OauthBlock, Snapshot}
use pangaea.Formats.Claude
use pangaea.Formats.Jwt.{Jwt}
use pangaea.Formats.Ranks.{claude-IsFormat}
use pangaea.Transport.{Base64}
use pangaea.Config.{Profile, AuthMode}
use pangaea.Server.Mediator.State.{Session, Candidate, TruthState, Mediator, World, State}

-- A byte in unary, closed by a dot.
unfoldable pub encode_byte : ℕ → String → String
encode_byte zero s = String.◌∷◌ (char 46 tt) s
encode_byte (suc n) s = String.◌∷◌ (char 49 tt) (encode_byte n s)

unfoldable pub encode : List ℕ → String
unfolding encode_byte
encode [] = ""
encode (b ∷ bs) = encode_byte b (encode bs)

abbrev start_byte : Option (List ℕ) → Option (List ℕ)
start_byte none = none
start_byte (some bs) = some (zero ∷ bs)

abbrev count : Option (List ℕ) → Option (List ℕ)
count (some (b ∷ bs)) = some (suc b ∷ bs)
count _ = none

unfoldable pub decode : String → Option (List ℕ)
decode String.[] = some []
decode (String.◌∷◌ c s) =
    let rest = decode s in if eqb (code c) 46 then start_byte rest else count rest

decode-encode_byte :
    (b : ℕ) (s : String) (bs : List ℕ)
    → decode s ≡ some bs
    → decode (encode_byte b s) ≡ some (b ∷ bs)
unfolding decode encode_byte
decode-encode_byte zero s bs h = ap start_byte h
decode-encode_byte (suc b) s bs h = ap count (decode-encode_byte b s bs h)

pub decode-encode : (bs : List ℕ) → decode (encode bs) ≡ some bs
unfolding decode encode
decode-encode [] = refl
decode-encode (b ∷ bs) = decode-encode_byte b (encode bs) bs (decode-encode bs)

abbrev pub unary : Base64
unary = record { encode = encode; decode = decode; decode-encode = decode-encode }

-- The first byte is the expiry in milliseconds.
abbrev pub unmarshal : List ℕ → Option OauthBlock
unmarshal [] = none
unmarshal (b ∷ bs) = some (record {
  access_token = "a";
  refresh_token = "r";
  expires_at = pos b;
  scopes = [];
  subscription_type = "max";
  rate_limit_tier = "";
  legacy_access_token = "";
})

-- A digest that keeps the bytes apart.
abbrev pub digest : List ℕ → String
digest bs = encode bs

abbrev pub claude : Format
claude = Claude.format unmarshal digest

abbrev pub claude_law : IsFormat claude
claude_law = claude-IsFormat digest unmarshal

abbrev pub file_of : ℕ → Snapshot
file_of b = Claude.snapshot_of unmarshal digest (b ∷ []) (record {
  access_token = "a";
  refresh_token = "r";
  expires_at = pos b;
  scopes = [];
  subscription_type = "max";
  rate_limit_tier = "";
  legacy_access_token = "";
})

abbrev pub alice : Session
alice = record {
  pointer = 1;
  node_id = "n1";
  identity = "alice";
  peer_cn = "alice";
  auth_mode = AuthMode.mtls;
  profile = "p";
}

abbrev pub bob : Session
bob = record alice { pointer = 2; node_id = "n2"; identity = "bob"; peer_cn = "bob" }

abbrev pub profile : Profile
profile = record {
  name = "p";
  format = Claude.format_name;
  dir = "/home/.claude";
  watch_files = [];
  allowed_clients = "alice" ∷ "bob" ∷ [];
  reverse_targets = [];
  strategy = Claude.strategy_expires_at_max;
  live_check = false;
  live_check_timeout = 0;
  mode = "to_stale_only";
  cooldown = 10;
}

abbrev pub mediator : Mediator
mediator = record {
  profile = profile;
  target_path = "/home/.claude/.credentials.json";
  notifies = true;
}

abbrev pub candidate : Session → ℕ → Candidate Snapshot
candidate s b = record {
  node_id = s.node_id;
  account = "acc";
  session = s;
  snap = some (file_of b);
  fingerprint = (file_of b).fingerprint;
  status = ok;
  reported_at = epoch;
  path = "";
  summary = "";
  live_check_res = "";
  absent = false;
  last_applied = "";
}

-- Two nodes of one account; the file of the first expires later.
abbrev pub two_nodes : State Snapshot
two_nodes = record {
  candidates = ("n1", candidate alice 3) ∷ ("n2", candidate bob 2) ∷ [];
  truths = [];
  mirror = [];
}

abbrev pub world : World
world = record {
  now = epoch;
  now_at = λ a. epoch;
  sessions_at = λ a. ("n1", alice) ∷ ("n2", bob) ∷ [];
  delivers = λ s p. true;
}
