-- ===== src/Client/Reporting.antt =====
-- internal/client/agent.go: what an agent reports of its file, and its answer to a message. Redact,
-- Account and AccountDisplay are the format's; the JSON of a summary is a parameter.
pub mod Arriving
pub mod Agreeing
use pangaea.Prelude.{
  ℕ, String, Bool, true, false, not, ◌&&◌, Option, none, some, List, Assoc, length, lookup, insert,
  Result, failed, done, ◌==◌, if◌then◌else◌,
}
use pangaea.Strings.{trim_space}
use pangaea.Formats.{
  Format, ValidationStatus, ok, expired, revoked, unreachable, parse_error, scope_warn, other,
}
use pangaea.Transport.{
  Kind, Base64, SnapshotReport, SnapshotAbsent, SnapshotRequest, TruthPush, TruthAck, auth_jwt,
  hello, welcome, snapshot_request, snapshot_report, snapshot_absent, truth_push, truth_ack, error,
}
use pangaea.Client.Apply.{Io, Disk, apply_truth}

-- The fields of an agent that its reports use.
pub record Agent : Type 0 where
  pub profile : String
  pub dir : String
  pub path : String
  pub account_meta_path : String

-- formats.Summary (result.go)
pub record Summary : Type 0 where
  pub identity : String
  pub subscription : String
  pub fingerprint_short : String
  pub token_tail4 : String
  pub expires_at : ℕ
  pub scopes : List String
  pub extra : Assoc String

-- The optional interfaces of a format, and Redact. A nil snapshot is `none`.
pub record Describes (S : Type 0) : Type 0 where
  pub account : Option (Option S → String → Result String String)
  pub account_display : Option (S → String → Result String String)
  pub redact : S → Summary
  pub marshal_summary : Summary → String

-- What reading the file yields, and readFileIfExists.
pub data Read : Type 0 where
  contents : List ℕ → Read
  not_there : Read
  unreadable : String → Read

unfoldable pub read_file_if_exists : Read → Result String (Option (List ℕ))
read_file_if_exists (contents raw) = done (some raw)
read_file_if_exists not_there = done none
read_file_if_exists (unreadable e) = failed e

unfoldable pub account_hint : Agent → String
account_hint a = if not (a.account_meta_path == "") then a.account_meta_path else a.dir

-- A failure to resolve is logged, and is the empty account.
unfoldable pub account_or_empty : Result String String → String
account_or_empty (failed e) = ""
account_or_empty (done id) = id

unfoldable pub status_text : ValidationStatus → String
status_text ok = "ok"
status_text expired = "expired"
status_text revoked = "revoked"
status_text unreachable = "unreachable"
status_text parse_error = "parse_error"
status_text scope_warn = "scope_warn"
status_text (other s) = s

-- if res.Status == formats.StatusExpired
unfoldable pub is_expired : ValidationStatus → Bool
is_expired expired = true
is_expired _ = false

-- The message that a report is, and whether maybeRefreshAsync starts.
pub data Message : Type 0 where
  absence : SnapshotAbsent → Message
  presence : SnapshotReport → Bool → Message

-- What handleEnvelope does: it answers a push with an ack, reports its state, does nothing, or ends
-- the session with an error.
pub data Answer : Type 0 where
  acknowledge : TruthAck → Answer
  report_state : Message → Answer
  nothing : Answer
  invalid : String → Answer

-- json.Unmarshal of the two payloads that an agent reads.
pub record Inbox : Type 0 where
  pub truth_push_of : String → Option TruthPush
  pub snapshot_request_of : String → Option SnapshotRequest

module _ (F : Format) (d : Describes F.Snapshot) (b64 : Base64) (a : Agent) where
  unfoldable pub resolve_with :
      Option (Option F.Snapshot → String → Result String String) → Option F.Snapshot → String
  unfolding account_hint account_or_empty
  resolve_with none snap = ""
  resolve_with (some account) snap = account_or_empty (account snap (account_hint a))

  -- resolveAccount, and resolveAccountWithoutSnapshot for no snapshot.
  unfoldable pub resolve_account : Option F.Snapshot → String
  unfolding resolve_with
  resolve_account snap = resolve_with d.account snap

  unfoldable pub label_summary : Summary → Result String String → Summary
  label_summary summary (failed e) = summary
  label_summary summary (done label) =
      if trim_space label == ""
      then summary
      else record summary { extra = insert "display_account" (trim_space label) summary.extra }

  unfoldable pub display_with :
      F.Snapshot → Summary → Option (F.Snapshot → String → Result String String) → Summary
  unfolding label_summary account_hint
  display_with snap summary none = summary
  display_with snap summary (some display) = label_summary summary (display snap (account_hint a))

  unfoldable pub enrich_account_display : F.Snapshot → Summary → Summary
  unfolding display_with
  enrich_account_display snap summary = display_with snap summary d.account_display

  unfoldable pub absent_message : SnapshotAbsent
  unfolding resolve_account
  absent_message = record { profile = a.profile; account = resolve_account none; path = a.path }

  -- The report of a file that parses, at an instant.
  unfoldable pub report_of : ℕ → List ℕ → F.Snapshot → SnapshotReport
  unfolding resolve_account enrich_account_display status_text
  report_of now raw snap = record {
    profile = a.profile;
    account = resolve_account (some snap);
    path = a.path;
    format = F.name;
    fingerprint = F.fingerprint snap;
    summary = d.marshal_summary (enrich_account_display snap (d.redact snap));
    live_check = record {
      performed = false;
      result = status_text (F.validate snap now).status;
      checked_at = (F.validate snap now).checked_at;
    };
    raw_size = length raw;
    raw_b64 = b64.encode raw;
  }

  unfoldable pub parsed_message : ℕ → List ℕ → Option F.Snapshot → Message
  unfolding report_of absent_message is_expired
  parsed_message now raw none = absence absent_message
  parsed_message now raw (some snap) =
      presence (report_of now raw snap) (is_expired (F.validate snap now).status)

  unfoldable pub read_message : ℕ → Result String (Option (List ℕ)) → Message
  unfolding parsed_message
  read_message now (failed e) = absence absent_message
  read_message now (done none) = absence absent_message
  read_message now (done (some raw)) = parsed_message now raw (F.parse raw)

  -- reportEvent, with the result of the read of the agent's path.
  unfoldable pub report_event : ℕ → Read → Message
  unfolding read_message read_file_if_exists
  report_event now read = read_message now (read_file_if_exists read)

  module _ (sha256 : List ℕ → String) (io : Io) (inbox : Inbox) where
    unfoldable pub answer_push : Disk → Option TruthPush → Disk × Answer
    answer_push disk none = (disk, invalid "truth.push payload")
    answer_push disk (some push) =
        let (after, ack) = apply_truth sha256 io b64 push a.path disk in (after, acknowledge ack)

    unfoldable pub answer_request : ℕ → Disk → Read → Option SnapshotRequest → Disk × Answer
    unfolding report_event
    answer_request now disk read none = (disk, invalid "snapshot.request payload")
    answer_request now disk read (some req) =
        if not (req.profile == "") && not (req.profile == a.profile)
        then (disk, nothing)
        else (disk, report_state (report_event now read))

    -- handleEnvelope, with what a read of the agent's path yields at that instant.
    unfoldable pub handle_envelope : ℕ → Disk → Read → Kind → String → Disk × Answer
    unfolding answer_push answer_request
    handle_envelope now disk read truth_push payload =
        answer_push disk (inbox.truth_push_of payload)
    handle_envelope now disk read snapshot_request payload =
        answer_request now disk read (inbox.snapshot_request_of payload)
    handle_envelope now disk read error payload = (disk, nothing)
    handle_envelope now disk read auth_jwt payload = (disk, invalid "unexpected envelope kind")
    handle_envelope now disk read welcome payload = (disk, invalid "unexpected envelope kind")
    handle_envelope now disk read hello payload = (disk, invalid "unexpected envelope kind")
    handle_envelope now disk read snapshot_report payload =
        (disk, invalid "unexpected envelope kind")
    handle_envelope now disk read snapshot_absent payload =
        (disk, invalid "unexpected envelope kind")
    handle_envelope now disk read truth_ack payload = (disk, invalid "unexpected envelope kind")
    handle_envelope now disk read (Kind.unknown k) payload = (disk, invalid "unknown envelope kind")
