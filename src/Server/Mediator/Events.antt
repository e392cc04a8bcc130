-- ===== src/Server/Mediator/Events.antt =====
-- `onReport`, `onAbsent`, `onAck` and the cases of `run` (mediator.go).
use pangaea.Prelude.{
  ℕ, String, Bool, true, false, Option, none, some, List, [], ◌∷◌, ◌++◌, ◌>>=◌, lookup, insert,
  delete, ◌==◌, if◌then◌else◌,
}
use pangaea.Formats.{
  Format, ValidationStatus, ok, expired, revoked, unreachable, parse_error, other,
}
use pangaea.Formats.Clock.{zero_time}
use pangaea.Transport.{Base64, SnapshotReport, SnapshotAbsent, TruthAck}
use pangaea.Server.Mediator.State.{Candidate, Session, Mediator, State, World, Effect}
use pangaea.Server.Mediator.Reselect.{reselect}

-- formats.ValidationStatus(s)
unfoldable pub validation_status : String → ValidationStatus
validation_status s =
    if s == "ok"
    then ok
    else if s == "expired"
    then expired
    else if s == "revoked"
    then revoked
    else if s == "unreachable"
    then unreachable
    else if s == "parse_error"
    then parse_error
    else if s == "scope_warn"
    then ValidationStatus.scope_warn
    else other s

-- A live check that ran can lower an ok status, and nothing else.
unfoldable pub downgrade : ValidationStatus → ValidationStatus → ValidationStatus
downgrade ok expired = expired
downgrade ok revoked = revoked
downgrade ok unreachable = unreachable
downgrade status claimed = status

unfoldable pub report_status : Bool → ValidationStatus → String → ValidationStatus
unfolding validation_status downgrade
report_status performed status claimed =
    if performed then downgrade status (validation_status claimed) else status

-- base64Decode refuses the empty text.
unfoldable pub base64_decode : Base64 → String → Option (List ℕ)
base64_decode b64 s = if s == "" then none else b64.decode s

pub data Event : Type 0 where
  report : Session → SnapshotReport → Event
  absent : Session → SnapshotAbsent → Event
  ack : Session → TruthAck → Event
  disconnect : String → Event

-- The zero candidate of a struct literal, for a session of a node.
abbrev pub blank : {S : Type 0} → Session → String → Candidate S
blank s account = record {
  node_id = s.node_id;
  account = account;
  session = s;
  snap = none;
  fingerprint = "";
  status = other "";
  reported_at = zero_time;
  path = "";
  summary = "";
  live_check_res = "";
  absent = false;
  last_applied = "";
}

module _ {S : Type 0} where
  -- The candidate that an ack finds or makes.
  unfoldable pub acked : Session → String → Option (Candidate S) → Candidate S
  acked s account none = record (blank s account) { absent = true }
  acked s account (some c) = c

  unfoldable pub on_ack : State S → Session → TruthAck → State S
  unfolding acked
  on_ack st s a =
      let c = acked s a.account (lookup s.node_id st.candidates) in
      record st {
        candidates =
            insert s.node_id (if a.is_ok then record c { last_applied = a.fingerprint } else c)
              st.candidates;
      }

  unfoldable pub absent_candidate : ℕ → Session → SnapshotAbsent → Candidate S
  absent_candidate now s a = record (blank s a.account) { reported_at = now; absent = true }

  unfoldable pub broken_candidate : ℕ → Session → SnapshotReport → Candidate S
  broken_candidate now s r = record (blank s r.account) {
    status = parse_error;
    reported_at = now;
    path = r.path;
  }

module _ (F : Format) (b64 : Base64) (m : Mediator) (w : World) where
  unfoldable pub reported_candidate : Session → SnapshotReport → F.Snapshot → Candidate F.Snapshot
  unfolding report_status
  reported_candidate s r snap = record {
    node_id = s.node_id;
    account = r.account;
    session = s;
    snap = some snap;
    fingerprint = F.fingerprint snap;
    status =
        report_status r.live_check.performed (F.validate snap w.now).status r.live_check.result;
    reported_at = w.now;
    path = r.path;
    summary = r.summary;
    live_check_res = r.live_check.result;
    absent = false;
    last_applied = "";
  }

  -- What parsing yields: a candidate that takes part, or one that is kept aside.
  unfoldable pub on_parsed :
      State F.Snapshot
      → Session
      → SnapshotReport
      → Option F.Snapshot
      → Option (State F.Snapshot × List Effect)
  on_parsed st s r none =
      some
        (record st { candidates = insert s.node_id (broken_candidate w.now s r) st.candidates }, [])
  on_parsed st s r (some snap) =
      reselect F b64 m w
        (record st { candidates = insert s.node_id (reported_candidate s r snap) st.candidates })
        r.format

  unfoldable pub on_report :
      State F.Snapshot → Session → SnapshotReport → Option (State F.Snapshot × List Effect)
  unfolding base64_decode on_parsed
  on_report st s r = elim (base64_decode b64 r.raw_b64) [
    | none ↦ some (st, [])
    | some raw ↦ on_parsed st s r (F.parse raw)
  ]

  unfoldable pub on_absent :
      State F.Snapshot → Session → SnapshotAbsent → Option (State F.Snapshot × List Effect)
  on_absent st s a =
      reselect F b64 m w
        (record st { candidates = insert s.node_id (absent_candidate w.now s a) st.candidates })
        m.profile.format

  -- One round of `run`.
  unfoldable pub handle : State F.Snapshot → Event → Option (State F.Snapshot × List Effect)
  unfolding on_report on_absent on_ack
  handle st (report s r) = on_report st s r
  handle st (absent s a) = on_absent st s a
  handle st (ack s a) = some (on_ack st s a, [])
  handle st (disconnect nid) =
      reselect F b64 m w (record st { candidates = delete nid st.candidates }) m.profile.format

-- The start of `run`, and `run` over the events that reach it, each with the world that it meets.
abbrev pub init : {S : Type 0} → State S
init = record { candidates = []; truths = []; mirror = [] }

unfoldable pub run :
    (F : Format)
    → Base64
    → Mediator
    → State F.Snapshot
    → List (World × Event)
    → Option (State F.Snapshot × List Effect)
run F b64 m st [] = some (st, [])
run F b64 m st ((w, ev) ∷ rest) = do
  done ← handle F b64 m w st ev
  more ← run F b64 m done.0 rest
  some (more.0, done.1 ++ more.1)
