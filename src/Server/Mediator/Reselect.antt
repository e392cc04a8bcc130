-- ===== src/Server/Mediator/Reselect.antt =====
-- `updateMirror` and `reselect` (mediator.go), in the order of the code. `none` is a panic.
use pangaea.Prelude.{
  ℕ, ◌+◌, String, Bool, true, false, not, ◌&&◌, Option, none, some, List, [], ◌∷◌, ◌++◌, Assoc,
  lookup, insert, delete, is_some, ◌>>=◌, ltb, sort, ◌==◌, if◌then◌else◌,
}
use pangaea.Formats.{Format}
use pangaea.Transport.{Base64}
use pangaea.Notifier.{TruthRecord, blank, event_truth_lost, event_truth_restored}
use pangaea.Server.Mediator.State.{
  Candidate, TruthState, MirrorTruth, Mediator, State, World, Effect, notify,
}
use pangaea.Server.Mediator.Select.{by_account, pick_strategy, best_of}
use pangaea.Server.Mediator.Push.{account_nodes, push_truth}

abbrev pub mirror_of : List String → TruthState → MirrorTruth
mirror_of nodes t = record {
  account = t.account;
  fingerprint = t.fingerprint;
  issued_at = t.issued_at;
  pushed_at = t.pushed_at;
  format = t.format;
  raw_b64 = t.raw_b64;
  summary = t.summary;
  nodes = nodes;
}

abbrev pub when_notified : Mediator → TruthRecord → List Effect
when_notified m r = if m.notifies then notify r ∷ [] else []

unfoldable pub prev_summary : Option TruthState → String
prev_summary none = ""
prev_summary (some ts) = ts.summary

module _ {S : Type 0} where
  unfoldable pub update_mirror : Assoc (Candidate S) → Assoc TruthState → Assoc MirrorTruth
  update_mirror cands [] = []
  update_mirror cands ((a, t) ∷ truths) =
      (a, mirror_of (account_nodes cands a) t) ∷ update_mirror cands truths

  -- The accounts of the truths that have no bucket.
  unfoldable pub lost_accounts : Assoc (List (Candidate S)) → Assoc TruthState → List String
  lost_accounts buckets [] = []
  lost_accounts buckets ((a, t) ∷ truths) =
      let rest = lost_accounts buckets truths in
      if is_some (lookup a buckets) then rest else a ∷ rest

  unfoldable pub lost_record : Mediator → Assoc (Candidate S) → String → TruthState → TruthRecord
  lost_record m cands account prev = record blank {
    profile = m.profile.name;
    account = account;
    format = prev.format;
    fingerprint = prev.fingerprint;
    issued_at = prev.issued_at;
    pushed_at = prev.pushed_at;
    summary = prev.summary;
    prev_summary = prev.summary;
    nodes = account_nodes cands account;
    event_kind = event_truth_lost;
  }

  unfoldable pub lose :
      Mediator
      → Assoc (Candidate S)
      → List String
      → Assoc TruthState
      → Option (Assoc TruthState × List Effect)
  lose m cands [] truths = some (truths, [])
  lose m cands (account ∷ rest) truths = do
    prev ← lookup account truths
    (truths', more) ← lose m cands rest (delete account truths)
    some (truths', when_notified m (lost_record m cands account prev) ++ more)

module _ {S : Type 0} where
  -- truthChanged
  unfoldable pub truth_changed : Option TruthState → Candidate S → Bool
  truth_changed none best = true
  truth_changed (some prev) best = not (prev.fingerprint == best.fingerprint)

  -- The cooldown gate: truthChanged && prev != nil && cooldown > 0, and time.Since(prev.pushedAt)
  -- below the cooldown.
  unfoldable pub is_suppressed : Mediator → ℕ → Option TruthState → Candidate S → Bool
  unfolding truth_changed
  is_suppressed m now none best = false
  is_suppressed m now (some prev) best =
      truth_changed (some prev) best
      && ltb 0 m.profile.cooldown
      && ltb now (prev.pushed_at + m.profile.cooldown)

  unfoldable pub restored_record :
      Mediator → Assoc (Candidate S) → TruthState → Candidate S → TruthRecord
  restored_record m cands ts best = record blank {
    profile = m.profile.name;
    account = ts.account;
    format = ts.format;
    fingerprint = ts.fingerprint;
    issued_at = ts.issued_at;
    pushed_at = ts.pushed_at;
    raw_b64 = ts.raw_b64;
    summary = ts.summary;
    source_node = best.node_id;
    nodes = account_nodes cands ts.account;
    event_kind = event_truth_restored;
  }

  unfoldable pub propagated_record :
      Mediator
      → ℕ
      → Assoc (Candidate S)
      → Option TruthState
      → TruthState
      → Candidate S
      → List String
      → TruthRecord
  propagated_record m now cands prev ts best reached = record blank {
    profile = m.profile.name;
    account = ts.account;
    format = ts.format;
    fingerprint = ts.fingerprint;
    issued_at = ts.issued_at;
    pushed_at = now;
    raw_b64 = ts.raw_b64;
    summary = ts.summary;
    prev_summary = prev_summary prev;
    source_node = best.node_id;
    target_nodes = reached;
    nodes = account_nodes cands ts.account;
  }

  unfoldable pub notify_reached :
      Mediator
      → ℕ
      → Assoc (Candidate S)
      → Option TruthState
      → TruthState
      → Candidate S
      → List String
      → List Effect
  notify_reached m now cands prev ts best [] = []
  notify_reached m now cands prev ts best (n ∷ ns) =
      when_notified m (propagated_record m now cands prev ts best (n ∷ ns))

-- truths[account] = ts, where there is a `ts`.
abbrev pub store : String → Option TruthState → Assoc TruthState → Assoc TruthState
store account none truths = truths
store account (some ts) truths = insert account ts truths

module _ (F : Format) (b64 : Base64) (m : Mediator) (w : World) where
  -- &truthState{…}, issued now.
  unfoldable pub fresh_truth : String → String → Candidate F.Snapshot → Option TruthState
  fresh_truth format_name account best = do
    snap ← best.snap
    some (record {
      account = account;
      fingerprint = best.fingerprint;
      issued_at = w.now_at account;
      summary = best.summary;
      raw_b64 = b64.encode (F.raw snap);
      format = format_name;
      pushed_at = w.now_at account;
    })

  -- The truth of the account after the choice, and the notification of a first truth.
  unfoldable pub settle_truth :
      Assoc (Candidate F.Snapshot)
      → String
      → String
      → Candidate F.Snapshot
      → Option TruthState
      → Option (TruthState × List Effect)
  unfolding fresh_truth truth_changed
  settle_truth cands format_name account best none = do
    ts ← fresh_truth format_name account best
    some (ts, when_notified m (restored_record m cands ts best))
  settle_truth cands format_name account best (some prev) =
      if truth_changed (some prev) best
      then (do ts ← fresh_truth format_name account best; some (ts, []))
      else some (prev, [])

  -- The push pass, and the notification where it reached a node.
  unfoldable pub push_effects :
      Assoc (Candidate F.Snapshot)
      → Option TruthState
      → TruthState
      → Candidate F.Snapshot
      → List Effect
  push_effects cands prev ts best =
      let (reached, sends) = push_truth m w cands ts best.node_id in
      sends ++ notify_reached m (w.now_at ts.account) cands prev ts best reached

  -- The body of the loop over byAccount, which reads and writes truths[account] alone: the truth
  -- that it stores, if it stores one, and what it emits. `prev` is truths[account].
  unfoldable pub judge :
      Assoc (Candidate F.Snapshot)
      → String
      → String
      → String
      → List (Candidate F.Snapshot)
      → Option TruthState
      → Option (Option TruthState × List Effect)
  judge cands strategy format_name account vs prev = do
    best ← best_of F strategy vs
    if is_suppressed m (w.now_at account) prev best then some (none, []) else do
      settled ← settle_truth cands format_name account best prev
      some (
        (if truth_changed prev best then some settled.0 else none),
        settled.1 ++ push_effects cands prev settled.0 best,
      )

  unfoldable pub select_account :
      Assoc (Candidate F.Snapshot)
      → String
      → String
      → String
      → List (Candidate F.Snapshot)
      → Assoc TruthState
      → Option (Assoc TruthState × List Effect)
  select_account cands strategy format_name account vs truths = do
    done ← judge cands strategy format_name account vs (lookup account truths)
    some (store account done.0 truths, done.1)

  unfoldable pub select_all :
      Assoc (Candidate F.Snapshot)
      → String
      → String
      → Assoc (List (Candidate F.Snapshot))
      → Assoc TruthState
      → Option (Assoc TruthState × List Effect)
  select_all cands strategy format_name [] truths = some (truths, [])
  select_all cands strategy format_name ((account, vs) ∷ rest) truths = do
    done ← select_account cands strategy format_name account vs truths
    more ← select_all cands strategy format_name rest done.0
    some (more.0, done.1 ++ more.1)

  -- With no bucket the loop has no round, and the early return is its end.
  unfoldable pub reselect : State F.Snapshot → String → Option (State F.Snapshot × List Effect)
  reselect st format_name = do
    let buckets = by_account st.candidates
    kept ← lose m st.candidates (sort (lost_accounts buckets st.truths)) st.truths
    let strategy = pick_strategy F.strategies m.profile.strategy
    chosen ← select_all st.candidates strategy format_name buckets kept.0
    some (
      record st { truths = chosen.0; mirror = update_mirror st.candidates chosen.0 },
      kept.1 ++ chosen.1,
    )
