-- ===== src/Examples/Notices.antt =====
-- What Emit does with concrete records.
use pangaea.Prelude.{
  ◌≡◌, refl, String, true, false, [], ◌∷◌, Option, none, some, All, arith, pos, List, lookup,
  insert, delete, sort, compact, Unique,
}
use pangaea.Formats.Clock.{epoch}
use pangaea.Formats.Text.{trim_bom}
use pangaea.Formats.Claude
use pangaea.Formats.Claude.{Snapshot}
use pangaea.Notifier.Reports.{Notifier, Probing, no_usage}
use pangaea.Notifier.Delivery.{AllDropped, Dropped, hub_notices-Dropped}
use pangaea.Notifier.Telling.{LossTold, lost_truth_told}
use pangaea.Notifier.Pushing.{PushTold, pushed_truth_told}
use pangaea.Server.Mediator.State.{TruthState, State, Effect}
use pangaea.Server.Mediator.Select.{by_account, file_all, file_candidate, pick_strategy}
use pangaea.Server.Mediator.Push.{
  in_account, account_nodes, lags, stale_nodes, targets, push_message, send_all, sent_to,
  push_truth,
}
use pangaea.Server.Mediator.Reselect.{
  update_mirror, lost_accounts, lost_record, lose, select_all, push_effects, reselect,
}
use pangaea.Server.Mediator.Buckets.{viable_in}
use pangaea.Server.Hub.{Setup, register, unregister}
use pangaea.Examples.{
  decode, digest, world, file_of, encode, unary, claude, candidate, mediator, two_nodes, alice,
}
use pangaea.Examples.Sessions.{setup, hub, auth}

abbrev notifier : Notifier
notifier = record {
  interval = 3600000000000;
  probe_timeout = 8000000000;
  startup_event_grace = pos 60;
  sinks = record { name = "slack"; is_periodic = false } ∷ [];
  started_at = 0;
}

abbrev lookup_format : String → Option Probing
lookup_format name =
    some
      (record { format = claude; probe = some (λ s. some (record no_usage { plan_tier = "max" })) })

abbrev notifying : Setup
notifying = record setup { notifies = true }

hub_notices-Dropped_example :
    AllDropped unary lookup_format notifier (register notifying hub "p" auth alice)
    × All (Dropped unary lookup_format notifier) (unregister notifying hub alice).1
hub_notices-Dropped_example =
    hub_notices-Dropped unary lookup_format notifier notifying hub "p" auth alice

abbrev truth : TruthState
truth = record {
  account = "acc";
  fingerprint = digest (3 ∷ []);
  issued_at = epoch;
  summary = "";
  raw_b64 = encode (3 ∷ []);
  format = Claude.format_name;
  pushed_at = epoch;
}

-- A state whose account has lost its candidates.
abbrev stranded : State Snapshot
stranded = record { candidates = []; truths = ("acc", truth) ∷ []; mirror = [] }

or_start : {S : Type 0} → State S → Option (State S × List Effect) → State S × List Effect
or_start st none = (st, [])
or_start st (some r) = r

after : State Snapshot × List Effect
after = or_start stranded (reselect claude unary mediator world stranded Claude.format_name)

stranding :
    (reselect claude unary mediator world stranded Claude.format_name ≡ some after)
    × (lookup "acc" stranded.truths ≡ some truth)
    × Unique stranded.truths
    × (viable_in "acc" stranded.candidates ≡ [])
unfolding after or_start reselect lose lost_accounts lost_record by_account file_all file_candidate
    select_all update_mirror lookup insert delete sort compact viable_in pick_strategy account_nodes
    in_account
stranding = (refl, refl, (refl, tt), refl)

lost_truth_told_example : LossTold unary lookup_format notifier 100 "acc" truth after.1
lost_truth_told_example =
    lost_truth_told unary lookup_format notifier 100 (omega arith) claude mediator world stranded
      Claude.format_name after stranding.0 stranding.2 refl "acc" truth stranding.1 stranding.3

push_reaches : (push_truth mediator world two_nodes.candidates truth "n1").0 ≡ "n2" ∷ []
unfolding push_truth targets stale_nodes lags send_all sent_to push_message in_account lookup sort
    compact encode Claude.snapshot_of
push_reaches = refl

raw_parsed :
    (unary.decode truth.raw_b64 ≡ some (3 ∷ [])) × (claude.parse (3 ∷ []) ≡ some (file_of 3))
unfolding encode decode Claude.parse trim_bom
raw_parsed = (refl, refl)

pushed_truth_told_example :
    PushTold unary lookup_format notifier 100 truth "n1"
      ("n2" ∷ [])
      (some (record no_usage { plan_tier = "max" }))
      (push_effects claude unary mediator world two_nodes.candidates none truth (candidate alice 3))
pushed_truth_told_example =
    pushed_truth_told unary lookup_format notifier 100 (omega arith) claude
      (λ s. some (record no_usage { plan_tier = "max" })) (3 ∷ []) (file_of 3) claude mediator world
      two_nodes.candidates none truth (candidate alice 3) "n2" [] refl raw_parsed.0 raw_parsed.1
      (unfold encode in refl) refl refl push_reaches
