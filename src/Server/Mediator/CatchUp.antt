-- ===== src/Server/Mediator/CatchUp.antt =====
-- The push pass of reselect (mediator.go) leaves no stale node of an account behind.
use pangaea.Prelude.{
  String, ◌≡◌, refl, sym, ◌∙◌, ap, subst, ◌⊎◌, inl, inr, Option, none, some, List, ◌∷◌, Unique,
  lookup, some_inj, In, In-append_right, All, ◌+◌, ◌<◌,
}
use pangaea.Formats.{Format, IsFormat}
use pangaea.Transport.{Base64}
use pangaea.Server.Mediator.State.{
  Candidate, Session, TruthState, Mediator, World, Effect, State, send,
}
use pangaea.Server.Mediator.Select.{by_account}
use pangaea.Server.Mediator.Push.{push_message}
use pangaea.Server.Mediator.Reselect.{reselect}
use pangaea.Server.Mediator.Buckets.{viable_in, extended, lookup-by_account, by_account-Unique}
use pangaea.Server.Mediator.Best.{HasSnap, IsBest, best_of-IsBest, pick_strategy_known}
use pangaea.Server.Mediator.Targets.{Due, push_truth_exact}
use pangaea.Server.Mediator.Rounds.{settled, select_all-Outcome, select_all_includes}
use pangaea.Server.Mediator.Judge.{IsOf, judge_cases}
use pangaea.Server.Mediator.Truths.{strategy_of, viable_in-HasSnap, reselect-Halves, lookup-kept}
use pangaea.Server.Mediator.Choice.{suppressed_prev}
use pangaea.Server.Mediator.Partition.{push_effects_includes}

module _ (F : Format) (law : IsFormat F) (b64 : Base64) (m : Mediator) (w : World)
    (st : State F.Snapshot) (format_name : String) (uc : Unique st.candidates)
    (ut : Unique st.truths) (keyed : (a : String) → IsOf a (lookup a st.truths))
    (r : State F.Snapshot × List Effect) (ran : reselect F b64 m w st format_name ≡ some r) where
  -- The truth is held back within its cooldown, or sent to every connected node that is due.
  abbrev pub Sent : String → Option TruthState → Candidate F.Snapshot → Type 0
  Sent a next best =
      (ts : TruthState) × (next ≡ some ts)
      × (((lookup a st.truths ≡ some ts) × (w.now_at a < ts.pushed_at + m.profile.cooldown))
          ⊎ ((nid : String) (s : Session)
              → In (nid, s) (w.sessions_at a)
              → Due m w st.candidates uc ts best.node_id nid
              → In (send nid s (push_message m ts) (w.delivers s (push_message m ts))) r.1))

  -- For a format that keeps the contract of Compare, distinct keys and truths filed under their
  -- accounts: in an account with viable candidates there is a truth after a reselection, and a
  -- best candidate, and every connected node that is due, this candidate's own excepted, is sent
  -- the truth, unless the truth is the one before and within its cooldown.
  pub stale_nodes_catch_up :
      (a : String) (c : Candidate F.Snapshot) (cs : List (Candidate F.Snapshot))
      → viable_in a st.candidates ≡ c ∷ cs
      → (best : Candidate F.Snapshot) × IsBest F (strategy_of F m) (c ∷ cs) best
        × Sent a (lookup a r.0.truths) best
  stale_nodes_catch_up a c cs e =
      let hs = reselect-Halves F b64 m w st format_name r ran in
      let bucket : lookup a (by_account st.candidates) ≡ some (c ∷ cs) =
        lookup-by_account a st.candidates ∙ ap (extended none) e in
      let prev : lookup a hs.kept.0 ≡ lookup a st.truths =
        rw bucket at (lookup-kept F b64 m w st format_name r hs ut a) in
      let (j, ej, en) =
        rw (bucket, prev) at
          (select_all-Outcome F b64 m w st.candidates (strategy_of F m) format_name
            (by_account st.candidates) hs.kept.0 hs.chosen (by_account-Unique st.candidates)
            hs.chooses a) in
      let (best, eb, how) =
        judge_cases F b64 m w st.candidates (strategy_of F m) format_name a (c ∷ cs)
          (lookup a st.truths) j ej in
      let (b, eb', top) =
        best_of-IsBest F law (strategy_of F m) (pick_strategy_known F law m.profile.strategy) c cs
          (subst (All HasSnap) e (viable_in-HasSnap a st.candidates)) in
      let after : lookup a r.0.truths ≡ settled j.0 (lookup a st.truths) = rw hs.new_truths en in
      let sent : Sent a (lookup a r.0.truths) best = elim how [
        | inl (held, ejj) ↦
            let (p, ep, late) = suppressed_prev m (w.now_at a) (lookup a st.truths) best held in
            (p, after ∙ ap (λ q. settled q.0 (lookup a st.truths)) ejj ∙ ep, inl (ep, late))
        | inr (free, t) ↦ (
          t.truth,
          after ∙ t.holds,
          inr (λ nid s on due.
              let mine = t.mine (keyed a) in
              let x = send nid s (push_message m t.truth) (w.delivers s (push_message m t.truth)) in
              let pushed =
                (push_truth_exact m w st.candidates uc t.truth best.node_id nid s _ _).1
                  (subst (λ k. In (nid, s) (w.sessions_at k)) (sym mine) on, due, refl, refl) in
              let inside : In x j.1 = rw t.effects (
                In-append_right x t.notices _ (
                  push_effects_includes F b64 m w st.candidates (lookup a st.truths) t.truth best x
                    pushed)) in
              rw hs.effects (
                In-append_right x hs.kept.1 hs.chosen.1 (
                  select_all_includes F b64 m w st.candidates (strategy_of F m) format_name
                    (by_account st.candidates) hs.kept.0 hs.chosen x a (c ∷ cs) j
                    (by_account-Unique st.candidates) hs.chooses bucket (rw prev ej) inside))),
        )
      ] in
      (best, subst (IsBest F (strategy_of F m) (c ∷ cs)) (some_inj (sym eb' ∙ eb)) top, sent)
