-- ===== src/Notifier.antt =====
-- internal/notifier/notifier.go: the record that the hub and the mediators hand to the notifier.
pub mod Reports
pub mod Delivery
pub mod Telling
pub mod Pushing
use pangaea.Prelude.{ℕ, String, Bool, false, List, []}
use pangaea.Formats.Clock.{zero_time}

abbrev pub event_truth_restored : String
event_truth_restored = "truth.restored"

abbrev pub event_truth_lost : String
event_truth_lost = "truth.lost"

abbrev pub event_session_connected : String
event_session_connected = "session.connected"

abbrev pub event_session_disconnected : String
event_session_disconnected = "session.disconnected"

abbrev pub event_session_reconnected : String
event_session_reconnected = "session.reconnected"

pub record TruthRecord : Type 0 where
  pub profile : String
  pub account : String
  pub format : String
  pub fingerprint : String
  pub no_truth : Bool
  pub issued_at : ℕ
  pub pushed_at : ℕ
  pub raw_b64 : String
  pub summary : String
  pub prev_summary : String
  pub source_node : String
  pub target_nodes : List String
  pub nodes : List String
  pub event_kind : String
  pub node_id : String
  pub peer_cn : String
  pub auth_mode : String

-- A struct literal leaves the fields that it does not name at their zero values.
abbrev pub blank : TruthRecord
blank = record {
  profile = "";
  account = "";
  format = "";
  fingerprint = "";
  no_truth = false;
  issued_at = zero_time;
  pushed_at = zero_time;
  raw_b64 = "";
  summary = "";
  prev_summary = "";
  source_node = "";
  target_nodes = [];
  nodes = [];
  event_kind = "";
  node_id = "";
  peer_cn = "";
  auth_mode = "";
}
