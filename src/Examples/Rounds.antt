-- ===== src/Examples/Rounds.antt =====
-- The theorems on the mediator at concrete inputs.
use pangaea.Prelude.{
  ℕ, ap, subst, some_inj, ◌≡◌, ◌≢◌, ◌↔◌, ◌⊎◌, ◌+◌, ◌<◌, ◌≤◌, refl, String, true, Option, none, some,
  List, [], ◌∷◌, In, inl, inr, lookup, insert, delete, sort, compact, Unique, eq_iff,
}
use pangaea.Formats.Claude
use pangaea.Formats.Clock.{epoch, unix_milli}
use pangaea.Config.{propagate_mode_all}
use pangaea.Transport.{TruthPush}
use pangaea.Server.Mediator.State.{Session, Candidate, TruthState, Effect, State, World, send}
use pangaea.Server.Mediator.Select.{
  by_account, file_all, file_candidate, pick_strategy, best_of, best_from,
}
use pangaea.Server.Mediator.Push.{
  in_account, account_nodes, lags, stale_nodes, targets, push_message, send_all, sent_to,
  push_truth,
}
use pangaea.Server.Mediator.Reselect.{
  update_mirror, lost_accounts, lost_record, lose, truth_changed, is_suppressed, restored_record,
  propagated_record, notify_reached, fresh_truth, settle_truth, push_effects, judge, select_account,
  select_all, reselect, prev_summary,
}
use pangaea.Server.Mediator.Choice.{Chosen, truth_is_best, truth_iff_viable, truth_change_waits}
use pangaea.Server.Mediator.Genuine.{
  FilePrint, Digested, FilePrintTruth, truths_stay_genuine, pushes_are_genuine,
}
use pangaea.Server.Mediator.Partition.{push_stays_in_account}
use pangaea.Server.Mediator.Buckets.{viable_in}
use pangaea.Server.Mediator.Best.{IsBest}
use pangaea.Server.Mediator.Targets.{Due, push_truth_exact}
use pangaea.Server.Mediator.Judge.{IsOf}
use pangaea.Server.Mediator.Truths.{strategy_of}
use pangaea.Server.Mediator.CatchUp.{Sent, stale_nodes_catch_up}
use pangaea.Examples.{
  file_of, digest, encode, unary, claude, claude_law, two_nodes, mediator, world, alice, bob,
  candidate,
}

or_start : {S : Type 0} → State S → Option (State S × List Effect) → State S × List Effect
or_start st none = (st, [])
or_start st (some r) = r

after : State Claude.Snapshot × List Effect
after = or_start two_nodes (reselect claude unary mediator world two_nodes Claude.format_name)

abbrev first_truth : TruthState
first_truth = record {
  account = "acc";
  fingerprint = digest (3 ∷ []);
  issued_at = epoch;
  summary = "";
  raw_b64 = encode (3 ∷ []);
  format = Claude.format_name;
  pushed_at = epoch;
}

abbrev push : TruthPush
push = push_message mediator first_truth

abbrev both : List (Candidate Claude.Snapshot)
both = candidate alice 3 ∷ candidate bob 2 ∷ []

-- The run of the examples: bob's node gets the file of alice's.
round :
    (reselect claude unary mediator world two_nodes Claude.format_name ≡ some after)
    × In (send "n2" bob push true) after.1
    × (viable_in "acc" two_nodes.candidates ≡ both)
    × Unique two_nodes.candidates
    × ((a : String) → IsOf a (lookup a two_nodes.truths))
    × (lookup "acc" after.0.truths ≡ some first_truth)
unfolding after or_start reselect by_account file_all file_candidate pick_strategy best_of best_from
    in_account account_nodes lags stale_nodes targets push_message send_all sent_to push_truth
    update_mirror lost_accounts lost_record lose truth_changed is_suppressed restored_record
    propagated_record notify_reached fresh_truth settle_truth push_effects judge select_account
    select_all prev_summary lookup insert delete sort compact Claude.compare Claude.snapshot_of
    unix_milli encode viable_in
round = (refl, inr (inl refl), refl, (refl, (refl, tt)), (λ a t e. cc), refl)

candidate-Digested : (s : Session) (b : ℕ) → Digested claude claude_law unary digest (candidate s b)
unfolding Claude.snapshot_of
candidate-Digested s b x ex =
    subst (λ (y : Claude.Snapshot). (file_of b).fingerprint ≡ digest y.raw) (some_inj ex) refl

two_nodes-Digested :
    (nid : String) (c : Candidate Claude.Snapshot)
    → In (nid, c) two_nodes.candidates
    → Digested claude claude_law unary digest c
two_nodes-Digested nid c (inl e) =
    subst (Digested claude claude_law unary digest) (ap (λ p. p.1) e) (candidate-Digested alice 3)
two_nodes-Digested nid c (inr (inl e)) =
    subst (Digested claude claude_law unary digest) (ap (λ p. p.1) e) (candidate-Digested bob 2)
two_nodes-Digested nid c (inr (inr i)) = absurd i

no_truths : (a : String) → FilePrintTruth claude claude_law unary digest (lookup a two_nodes.truths)
unfolding lookup
no_truths a t e = cc

truths_stay_genuine_example :
    FilePrint claude claude_law unary digest first_truth.raw_b64 first_truth.fingerprint
truths_stay_genuine_example =
    truths_stay_genuine claude claude_law unary digest mediator world two_nodes Claude.format_name
      two_nodes-Digested no_truths tt after round.0 "acc" first_truth round.5

pushes_are_genuine_example :
    (file : List ℕ) × (unary.decode push.raw_b64 ≡ some file) × (push.fingerprint ≡ digest file)
pushes_are_genuine_example =
    pushes_are_genuine claude claude_law unary digest mediator world two_nodes Claude.format_name
      two_nodes-Digested no_truths tt after round.0 round.3 round.4 "n2" bob push true round.1

truth_is_best_example :
    Chosen claude claude_law unary mediator world two_nodes Claude.format_name tt "acc" both
      (lookup "acc" after.0.truths)
truth_is_best_example =
    truth_is_best claude claude_law unary mediator world two_nodes Claude.format_name tt after
      round.0 "acc" (candidate alice 3) (candidate bob 2 ∷ []) round.2

push_stays_in_account_example :
    In ("n2", bob) (world.sessions_at push.account)
    × ((c : Candidate Claude.Snapshot) × (lookup "n2" two_nodes.candidates ≡ some c)
        × (c.account ≡ push.account)
        × ((mediator.profile.mode ≡ propagate_mode_all)
            ⊎ ((c.absent ≡ true) ⊎ (c.fingerprint ≢ push.fingerprint))))
    × ((ts : TruthState) × (lookup push.account after.0.truths ≡ some ts)
        × (push ≡ push_message mediator ts))
push_stays_in_account_example =
    push_stays_in_account claude unary mediator world two_nodes Claude.format_name round.3 tt
      round.4 after round.0 "n2" bob push true round.1

stale_nodes_catch_up_example :
    (best : Candidate Claude.Snapshot) × IsBest claude (strategy_of claude mediator) both best
    × Sent claude claude_law unary mediator world two_nodes Claude.format_name round.3 tt round.4
        after round.0 "acc"
        (lookup "acc" after.0.truths)
        best
stale_nodes_catch_up_example =
    stale_nodes_catch_up claude claude_law unary mediator world two_nodes Claude.format_name round.3
      tt round.4 after round.0 "acc" (candidate alice 3) (candidate bob 2 ∷ []) round.2

truth_iff_viable_example :
    (lookup "acc" after.0.truths ≡ none) ↔ (viable_in "acc" two_nodes.candidates ≡ [])
truth_iff_viable_example =
    truth_iff_viable claude claude_law unary mediator world two_nodes Claude.format_name tt after
      round.0 "acc"

push_truth_exact_example :
    In (send "n2" bob push true) (push_truth mediator world two_nodes.candidates first_truth "n1").1
    ↔ (In ("n2", bob) (world.sessions_at "acc")
        × Due mediator world two_nodes.candidates round.3 first_truth "n1" "n2"
        × (push ≡ push_message mediator first_truth)
        × (true ≡ world.delivers bob (push_message mediator first_truth)))
push_truth_exact_example =
    push_truth_exact mediator world two_nodes.candidates round.3 first_truth "n1" "n2" bob push true

-- After the cooldown, a third node brings a newer file.
abbrev later : World
later = record world { now = epoch + 20; now_at = λ a. epoch + 20 }

abbrev three_nodes : State Claude.Snapshot
three_nodes = record two_nodes {
  candidates = ("n1", candidate alice 3) ∷ ("n2", candidate bob 7) ∷ [];
  truths = ("acc", first_truth) ∷ [];
}

abbrev second_truth : TruthState
second_truth = record first_truth {
  fingerprint = digest (7 ∷ []);
  issued_at = epoch + 20;
  raw_b64 = encode (7 ∷ []);
  pushed_at = epoch + 20;
}

replaced : State Claude.Snapshot × List Effect
replaced =
    or_start three_nodes (reselect claude unary mediator later three_nodes Claude.format_name)

second_round :
    (reselect claude unary mediator later three_nodes Claude.format_name ≡ some replaced)
    × (lookup "acc" three_nodes.truths ≡ some first_truth)
    × (lookup "acc" replaced.0.truths ≡ some second_truth)
    × (first_truth.fingerprint ≢ second_truth.fingerprint)
    × Unique three_nodes.truths
unfolding replaced or_start reselect by_account file_all file_candidate pick_strategy best_of
    best_from in_account account_nodes lags stale_nodes targets push_message send_all sent_to
    push_truth update_mirror lost_accounts lost_record lose truth_changed is_suppressed
    restored_record propagated_record notify_reached fresh_truth settle_truth push_effects judge
    select_account select_all prev_summary lookup insert delete sort compact Claude.compare
    Claude.snapshot_of unix_milli encode
second_round =
    (refl, refl, refl, λ e. cc ((eq_iff (digest (3 ∷ [])) (digest (7 ∷ []))).1 e), (refl, tt))

truth_change_waits_example :
    (0 < 10 → epoch + 10 ≤ epoch + 20) × (second_truth.pushed_at ≡ later.now_at "acc")
truth_change_waits_example =
    truth_change_waits claude claude_law unary mediator later three_nodes Claude.format_name
      second_round.4 replaced second_round.0 "acc" first_truth second_truth second_round.1
      second_round.2 second_round.3
