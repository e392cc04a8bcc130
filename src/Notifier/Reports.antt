-- ===== src/Notifier/Reports.antt =====
-- internal/notifier/notifier.go: what the notifier hands to its sinks, on an event and on a tick. A
-- sink's failure is logged, and so leaves nothing behind. The batches of session events are not
-- here: nothing calls bufferSessionEvent.
use pangaea.Prelude.{
  ℕ, ◌-◌, ◌*◌, String, Bool, true, false, not, ◌&&◌, ◌||◌, List, [], ◌∷◌, ◌++◌, map, Option, none,
  some, sort, compact, is_nil, ltb, ◌==◌, if◌then◌else◌, ℤ, pos, is_nonpositive, magnitude,
}
use pangaea.Strings.{trim_space}
use pangaea.Formats.{Format}
use pangaea.Formats.Clock.{is_zero, zero_time}
use pangaea.Transport.{Base64}
use pangaea.Notifier.{
  TruthRecord, event_truth_restored, event_truth_lost, event_session_connected,
  event_session_disconnected, event_session_reconnected,
}

-- A formats.UsageReport. `has_remaining` says that RemainingPct is above zero; a window is its label.
pub record UsageReport : Type 0 where
  pub plan_tier : String
  pub used : ℤ
  pub limit : ℤ
  pub has_remaining : Bool
  pub unit : String
  pub reset_at : ℕ
  pub notes : List String
  pub windows : List String

abbrev pub no_usage : UsageReport
no_usage = record {
  plan_tier = "";
  used = pos 0;
  limit = pos 0;
  has_remaining = false;
  unit = "";
  reset_at = zero_time;
  notes = [];
  windows = [];
}

-- A sink by its name, and whether it is a PeriodicSink.
pub record Sink : Type 0 where
  pub name : String
  pub is_periodic : Bool

-- A Config, and the rest of a Notifier that the deliveries depend on.
pub record Notifier : Type 0 where
  pub interval : ℕ
  pub probe_timeout : ℕ
  pub startup_event_grace : ℤ
  pub sinks : List Sink
  pub started_at : ℕ

-- A call of a sink: Notify with one record, or NotifyPeriodic with all of them.
pub data Delivery : Type 0 where
  notify_one : Sink → TruthRecord → UsageReport → Delivery
  notify_periodic : Sink → List (TruthRecord × UsageReport) → Delivery

-- A format with its UsageProbe, if it has one, as the lookup finds it. A probe that fails is `none`.
pub record Probing : Type 1 where
  pub format : Format
  pub probe : Option (format.Snapshot → Option UsageReport)

-- time.Hour and 8 seconds
abbrev pub hour : ℕ
hour = 3600 * 1000000000

abbrev pub default_probe_timeout : ℕ
default_probe_timeout = 8 * 1000000000

-- New, for the durations of its Config
unfoldable pub new_interval : ℤ → ℕ
new_interval d =
    if is_nonpositive d then hour else if ltb (magnitude d) hour then hour else magnitude d

unfoldable pub new_notifier : ℤ → ℤ → ℤ → List Sink → ℕ → Notifier
unfolding new_interval
new_notifier interval probe_timeout grace sinks now = record {
  interval = new_interval interval;
  probe_timeout =
      if is_nonpositive probe_timeout then default_probe_timeout else magnitude probe_timeout;
  startup_event_grace = grace;
  sinks = sinks;
  started_at = now;
}

unfoldable pub is_session_event : TruthRecord → Bool
is_session_event r =
    r.event_kind == event_session_connected
    || r.event_kind == event_session_disconnected
    || r.event_kind == event_session_reconnected

unfoldable pub is_truth_state_event : TruthRecord → Bool
is_truth_state_event r = r.event_kind == event_truth_restored || r.event_kind == event_truth_lost

unfoldable pub is_propagation_event : TruthRecord → Bool
is_propagation_event r = not (r.source_node == "") && not (is_nil r.target_nodes)

-- suppressStartupEvent, at an instant that is not before the start.
unfoldable pub suppress_startup_event : Notifier → ℕ → TruthRecord → Bool
unfolding is_session_event is_truth_state_event is_propagation_event
suppress_startup_event n now r =
    not (is_nonpositive n.startup_event_grace)
    && (is_session_event r || is_truth_state_event r || is_propagation_event r)
    && ltb (now - n.started_at) (magnitude n.startup_event_grace)

unfoldable pub has_usage_signal : UsageReport → Bool
has_usage_signal u =
    not (is_nil u.windows)
    || not (u.plan_tier == "")
    || not (u.unit == "")
    || not (is_nil u.notes)
    || not (is_zero u.reset_at)
    || not (is_nonpositive u.limit)
    || not (is_nonpositive u.used)
    || u.has_remaining

unfoldable pub drop_empty : List String → List String
drop_empty [] = []
drop_empty (s ∷ ss) = let rest = drop_empty ss in if s == "" then rest else s ∷ rest

unfoldable pub nodes_or_source : TruthRecord → List String
nodes_or_source r =
    if is_nil r.nodes && not (r.source_node == "") then r.source_node ∷ [] else r.nodes

unfoldable pub normalized_nodes : TruthRecord → List String
unfolding drop_empty nodes_or_source
normalized_nodes r = compact (sort (drop_empty (map trim_space (nodes_or_source r))))

unfoldable pub all_without_truth : List TruthRecord → Bool
unfolding normalized_nodes
all_without_truth [] = true
all_without_truth (r ∷ rs) = r.no_truth && is_nil (normalized_nodes r) && all_without_truth rs

unfoldable pub periodic_not_ready : List TruthRecord → Bool
unfolding all_without_truth
periodic_not_ready records = is_nil records || all_without_truth records

module _ (b64 : Base64) (formats : String → Option Probing) where
  -- decodeSnapshot
  unfoldable pub parse_bytes : (F : Format) → Option (List ℕ) → Option F.Snapshot
  parse_bytes F none = none
  parse_bytes F (some raw) = F.parse raw

  unfoldable pub decode_snapshot : (F : Format) → String → Option F.Snapshot
  unfolding parse_bytes
  decode_snapshot F raw_b64 = if raw_b64 == "" then none else parse_bytes F (b64.decode raw_b64)

  unfoldable pub usage_or_none : Option UsageReport → UsageReport
  usage_or_none none = no_usage
  usage_or_none (some u) = u

  unfoldable pub probe_snapshot : (S : Type 0) → (S → Option UsageReport) → Option S → UsageReport
  unfolding usage_or_none
  probe_snapshot S probe none = no_usage
  probe_snapshot S probe (some snap) = usage_or_none (probe snap)

  unfoldable pub probe_with :
      (F : Format) → Option (F.Snapshot → Option UsageReport) → String → UsageReport
  unfolding decode_snapshot probe_snapshot
  probe_with F none raw_b64 = no_usage
  probe_with F (some probe) raw_b64 = probe_snapshot F.Snapshot probe (decode_snapshot F raw_b64)

  unfoldable pub probe_found : Option Probing → String → UsageReport
  unfolding probe_with
  probe_found none raw_b64 = no_usage
  probe_found (some p) raw_b64 = probe_with p.format p.probe raw_b64

  -- probe
  unfoldable pub probe : TruthRecord → UsageReport
  unfolding is_session_event probe_found
  probe r =
      if is_session_event r || r.no_truth || r.raw_b64 == ""
      then no_usage
      else probe_found (formats r.format) r.raw_b64

  unfoldable pub to_all_sinks : List Sink → TruthRecord → UsageReport → List Delivery
  to_all_sinks [] r u = []
  to_all_sinks (s ∷ ss) r u = notify_one s r u ∷ to_all_sinks ss r u

  -- Emit
  unfoldable pub emit : Notifier → ℕ → TruthRecord → List Delivery
  unfolding suppress_startup_event is_session_event is_propagation_event has_usage_signal probe
      to_all_sinks
  emit n now r =
      if suppress_startup_event n now r
      then []
      else if is_session_event r
      then []
      else if is_propagation_event r && not (has_usage_signal (probe r))
      then []
      else to_all_sinks n.sinks r (probe r)

  unfoldable pub with_usage : List TruthRecord → List (TruthRecord × UsageReport)
  unfolding probe
  with_usage [] = []
  with_usage (r ∷ rs) = (r, probe r) ∷ with_usage rs

  unfoldable pub one_by_one : Sink → List (TruthRecord × UsageReport) → List Delivery
  one_by_one s [] = []
  one_by_one s ((r, u) ∷ items) = notify_one s r u ∷ one_by_one s items

  unfoldable pub report_all : List Sink → List (TruthRecord × UsageReport) → List Delivery
  unfolding one_by_one
  report_all [] items = []
  report_all (s ∷ ss) items =
      (if s.is_periodic then notify_periodic s items ∷ [] else one_by_one s items)
      ++ report_all ss items

  -- runOnce, over the records that the source gives: whether it reported, and its calls.
  unfoldable pub run_once : Notifier → List TruthRecord → Bool × List Delivery
  unfolding periodic_not_ready with_usage report_all
  run_once n records =
      if periodic_not_ready records
      then (false, [])
      else (true, report_all n.sinks (with_usage records))

  -- The loop of Run: the first round, the retries until one reports, and the ticks.
  pub data Tick : Type 0 where
    retry : Tick
    tick : Tick

  unfoldable pub run_ticks : Notifier → Bool → List (Tick × List TruthRecord) → List Delivery
  unfolding run_once
  run_ticks n ready [] = []
  run_ticks n ready ((tick, records) ∷ later) = (run_once n records).1 ++ run_ticks n true later
  run_ticks n true ((retry, records) ∷ later) = run_ticks n true later
  run_ticks n false ((retry, records) ∷ later) =
      (run_once n records).1 ++ run_ticks n (run_once n records).0 later

  -- Run
  unfoldable pub run : Notifier → List TruthRecord → List (Tick × List TruthRecord) → List Delivery
  unfolding run_ticks
  run n records later = (run_once n records).1 ++ run_ticks n (run_once n records).0 later
