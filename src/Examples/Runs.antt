-- ===== src/Examples/Runs.antt =====
-- The mediator's event loop at concrete events.
use pangaea.Prelude.{ℕ, ◌≡◌, false, some, List, [], ◌∷◌}
use pangaea.Formats.Claude
use pangaea.Transport.{SnapshotReport, SnapshotAbsent, TruthAck}
use pangaea.Server.Mediator.State.{Effect, State, World}
use pangaea.Server.Mediator.Events.{Event, report, absent, ack, disconnect, init, run}
use pangaea.Server.Mediator.Invariant.{IsSound, init-IsSound, handle-IsSound}
use pangaea.Server.Mediator.Totality.{handle_total, run-IsSound}
use pangaea.Examples.{encode, unary, claude, claude_law, mediator, world, alice, bob}

abbrev pub report_of : ℕ → SnapshotReport
report_of b = record {
  profile = "p";
  account = "acc";
  path = "/c";
  format = Claude.format_name;
  fingerprint = "";
  summary = "";
  live_check = record { performed = false; result = "ok"; checked_at = 0 };
  raw_size = 1;
  raw_b64 = encode (b ∷ []);
}

abbrev missing_file : SnapshotAbsent
missing_file = record { profile = "p"; account = "acc"; path = "/c" }

abbrev applied : TruthAck
applied = record { profile = "p"; account = ""; fingerprint = "f"; is_ok = false; reason = "r" }

abbrev events : List (World × Event)
events =
    (world, report alice (report_of 3))
    ∷ (world, absent bob missing_file)
    ∷ (world, ack bob applied)
    ∷ (world, disconnect "n1")
    ∷ []

run-IsSound_example :
    (r : State Claude.Snapshot × List Effect) × (run claude unary mediator init events ≡ some r)
    × IsSound r.0
run-IsSound_example = run-IsSound claude claude_law unary mediator init events init-IsSound

abbrev first : State Claude.Snapshot × List Effect
first =
    (handle_total claude claude_law unary mediator world init (report alice (report_of 3))
      init-IsSound).0

handle-IsSound_example : IsSound first.0
handle-IsSound_example =
    handle-IsSound claude unary mediator world init (report alice (report_of 3)) first
      (handle_total claude claude_law unary mediator world init (report alice (report_of 3))
        init-IsSound).1
      init-IsSound
