-- ===== src/Transport.antt =====
-- internal/transport/proto.go: the message kinds and the payloads. A json.RawMessage is its text.
pub mod Codec
use pangaea.Prelude.{ℕ, ◌≡◌, String, Bool, true, false, List, Option, some}

-- Kind. `unknown` is any text that is none of the constants.
pub data Kind : Type 0 where
  auth_jwt hello welcome snapshot_request snapshot_report : Kind
  snapshot_absent truth_push truth_ack error : Kind
  unknown : String → Kind

unfoldable pub valid_kind : Kind → Bool
valid_kind (unknown s) = false
valid_kind _ = true

pub record Envelope : Type 0 where
  pub kind : Kind
  pub v : ℕ
  pub id : String
  pub ts : ℕ
  pub payload : String

pub record LiveCheckMeta : Type 0 where
  pub performed : Bool
  pub result : String
  pub checked_at : ℕ

pub record TruthMeta : Type 0 where
  pub fingerprint : String
  pub issued_at : ℕ
  pub summary : String

pub record Hello : Type 0 where
  pub node_id : String
  pub agent_version : String
  pub os : String
  pub capabilities : List String

pub record AuthJwt : Type 0 where
  pub token : String

pub record Welcome : Type 0 where
  pub server_version : String
  pub known_truth : Option TruthMeta

pub record SnapshotRequest : Type 0 where
  pub profile : String
  pub reason : String

pub record SnapshotReport : Type 0 where
  pub profile : String
  pub account : String
  pub path : String
  pub format : String
  pub fingerprint : String
  pub summary : String
  pub live_check : LiveCheckMeta
  pub raw_size : ℕ
  pub raw_b64 : String

pub record SnapshotAbsent : Type 0 where
  pub profile : String
  pub account : String
  pub path : String

pub record TruthPush : Type 0 where
  pub profile : String
  pub account : String
  pub format : String
  pub fingerprint : String
  pub raw_b64 : String
  pub target_path : String
  pub issued_at : ℕ
  pub summary : String

pub record TruthAck : Type 0 where
  pub profile : String
  pub account : String
  pub fingerprint : String
  pub is_ok : Bool
  pub reason : String

pub record ErrorPayload : Type 0 where
  pub code : String
  pub message : String

-- encoding/base64's StdEncoding, and what the protocol relies on: decoding undoes encoding.
pub record Base64 : Type 0 where
  pub encode : List ℕ → String
  pub decode : String → Option (List ℕ)
  pub decode-encode : (b : List ℕ) → decode (encode b) ≡ some b
