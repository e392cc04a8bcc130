-- ===== src/Server/Mediator/State.antt =====
-- The state of a mediator (mediator.go), of a session (session.go), and what a mediator emits.
use pangaea.Prelude.{ℕ, String, Bool, List, Option, Assoc}
use pangaea.Config.{Profile, AuthMode}
use pangaea.Notifier.{TruthRecord}
use pangaea.Formats.{ValidationStatus}
use pangaea.Transport.{TruthPush}

-- A *Session: `pointer` is its identity as an object, the rest its fields.
pub record Session : Type 0 where
  pub pointer : ℕ
  pub node_id : String
  pub identity : String
  pub peer_cn : String
  pub auth_mode : AuthMode
  pub profile : String

-- A candidate of the snapshots `S`. A nil snap is `none`.
pub record Candidate (S : Type 0) : Type 0 where
  pub node_id : String
  pub account : String
  pub session : Session
  pub snap : Option S
  pub fingerprint : String
  pub status : ValidationStatus
  pub reported_at : ℕ
  pub path : String
  pub summary : String
  pub live_check_res : String
  pub absent : Bool
  pub last_applied : String

pub record TruthState : Type 0 where
  pub account : String
  pub fingerprint : String
  pub issued_at : ℕ
  pub summary : String
  pub raw_b64 : String
  pub format : String
  pub pushed_at : ℕ

pub record MirrorTruth : Type 0 where
  pub account : String
  pub fingerprint : String
  pub issued_at : ℕ
  pub pushed_at : ℕ
  pub format : String
  pub raw_b64 : String
  pub summary : String
  pub nodes : List String

-- The fields that a mediator never changes. `notifies` says that notifyFn is not nil.
pub record Mediator : Type 0 where
  pub profile : Profile
  pub target_path : String
  pub notifies : Bool

-- The locals of `run`, and the mirror.
pub record State (S : Type 0) : Type 0 where
  pub candidates : Assoc (Candidate S)
  pub truths : Assoc TruthState
  pub mirror : Assoc MirrorTruth

-- What the handling of one event meets outside the actor: the clock at the event and at the turn of
-- each account, the sessions that the hub holds at that turn, and which sends succeed.
pub record World : Type 0 where
  pub now : ℕ
  pub now_at : String → ℕ
  pub sessions_at : String → Assoc Session
  pub delivers : Session → TruthPush → Bool

-- A push that was sent to the session under a node id, with its success, or a notification.
pub data Effect : Type 0 where
  send : String → Session → TruthPush → Bool → Effect
  notify : TruthRecord → Effect
