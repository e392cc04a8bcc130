-- ===== src/Server/Mediator/Partition.antt =====
-- Where the pushes of reselect (mediator.go) go: never outside the account, and to every stale node.
use pangaea.Prelude.{
  ℕ, String, ◌≡◌, ◌≢◌, sym, ◌∙◌, ap, subst, ◌⊎◌, inl, inr, Bool, true, Option, some, List, [], ◌∷◌,
  ◌++◌, Assoc, Unique, lookup, delete, is_some, >>=-eq-some, Bool-cases, In, In-append,
  In-append_left, All, All-In, All-append, arith,
}
use pangaea.Config.{propagate_mode_all}
use pangaea.Formats.{Format}
use pangaea.Transport.{Base64, TruthPush}
use pangaea.Server.Mediator.State.{
  Candidate, Session, TruthState, Mediator, World, Effect, State, send,
}
use pangaea.Server.Mediator.Select.{by_account}
use pangaea.Server.Mediator.Push.{push_message, push_truth}
use pangaea.Server.Mediator.Reselect.{
  push_effects, judge, lose, lost_record, when_notified, notify_reached, reselect,
}
use pangaea.Server.Mediator.Buckets.{by_account-Unique}
use pangaea.Server.Mediator.Targets.{Due, push_truth_exact}
use pangaea.Server.Mediator.Rounds.{settled, select_all-Source}
use pangaea.Server.Mediator.Judge.{IsOf, Quiet, when_notified-Quiet, judge_cases}
use pangaea.Server.Mediator.Truths.{strategy_of, reselect-Halves, lookup-kept}

Quiet-send :
    (l : List Effect) (nid : String) (s : Session) (p : TruthPush) (d : Bool)
    → All Quiet l
    → In (send nid s p d) l
    → ⊥
Quiet-send l nid s p d q i = All-In Quiet l (send nid s p d) q i

lose-Quiet :
    {S : Type 0} (m : Mediator) (cands : Assoc (Candidate S)) (ks : List String)
    (truths : Assoc TruthState) (r : Assoc TruthState × List Effect)
    → lose m cands ks truths ≡ some r
    → All Quiet r.1
unfolding lose
lose-Quiet m cands [] truths r h = let e : r.1 ≡ [] = ground arith in rw e tt
lose-Quiet m cands (k ∷ ks) truths r h =
    let (prev, e, h') = >>=-eq-some (lookup k truths) _ h in
    let (q, e', h'') = >>=-eq-some (lose m cands ks (delete k truths)) _ h' in
    let parts : r.1 ≡ when_notified m (lost_record m cands k prev) ++ q.1 = ground arith in
    rw parts (
      All-append Quiet (when_notified m (lost_record m cands k prev)) q.1 (when_notified-Quiet m _)
        (lose-Quiet m cands ks (delete k truths) q e'))

notify_reached-Quiet :
    {S : Type 0} (m : Mediator) (now : ℕ) (cands : Assoc (Candidate S)) (prev : Option TruthState)
    (ts : TruthState) (best : Candidate S) (reached : List String)
    → All Quiet (notify_reached m now cands prev ts best reached)
unfolding notify_reached
notify_reached-Quiet m now cands prev ts best [] = tt
notify_reached-Quiet m now cands prev ts best (n ∷ ns) = when_notified-Quiet m _

module _ (F : Format) (b64 : Base64) (m : Mediator) (w : World)
    (cands : Assoc (Candidate F.Snapshot)) where
  pub push_effects_includes :
      (prev : Option TruthState) (ts : TruthState) (best : Candidate F.Snapshot) (x : Effect)
      → In x (push_truth m w cands ts best.node_id).1
      → In x (push_effects F b64 m w cands prev ts best)
  unfolding push_effects
  push_effects_includes prev ts best x i =
      In-append_left x (push_truth m w cands ts best.node_id).1 _ i

module _ (F : Format) (b64 : Base64) (m : Mediator) (w : World) (st : State F.Snapshot)
    (format_name : String) (uc : Unique st.candidates) (ut : Unique st.truths)
    (keyed : (a : String) → IsOf a (lookup a st.truths)) where
  -- The sends of a settled truth are those of pushTruth.
  push_effects_sends :
      (prev : Option TruthState) (ts : TruthState) (best : Candidate F.Snapshot) (nid : String)
      (s : Session) (p : TruthPush) (d : Bool)
      → In (send nid s p d) (push_effects F b64 m w st.candidates prev ts best)
      → In (send nid s p d) (push_truth m w st.candidates ts best.node_id).1
  unfolding push_effects
  push_effects_sends prev ts best nid s p d i =
      elim (In-append (send nid s p d) (push_truth m w st.candidates ts best.node_id).1 _ i) [
        | inl here ↦ here
        | inr there ↦
            absurd
              (Quiet-send _ nid s p d (notify_reached-Quiet m _ st.candidates prev ts best _) there)
      ]

  -- What a push of the account `a` is: it carries a truth of the account, to a node that is due.
  abbrev IsPush : String → Option TruthState → String → Session → TruthPush → Bool → Type 0
  IsPush a after nid s p d =
      (best : Candidate F.Snapshot) × (ts : TruthState) × (after ≡ some ts)
      × (ts.account ≡ a)
      × In (nid, s) (w.sessions_at a)
      × Due m w st.candidates uc ts best.node_id nid
      × (p ≡ push_message m ts)

  round_IsPush :
      (a : String) (vs : List (Candidate F.Snapshot)) (prev : Option TruthState)
      (j : Option TruthState × List Effect) (nid : String) (s : Session) (p : TruthPush) (d : Bool)
      → judge F b64 m w st.candidates (strategy_of F m) format_name a vs prev ≡ some j
      → IsOf a prev
      → In (send nid s p d) j.1
      → IsPush a (settled j.0 prev) nid s p d
  round_IsPush a vs prev j nid s p d ej mine i =
      let (best, eb, how) =
        judge_cases F b64 m w st.candidates (strategy_of F m) format_name a vs prev j ej in
      elim how [
        | inl (held, e) ↦ let empty : j.1 ≡ [] = ap (λ q. q.1) e in absurd (rw empty at i)
        | inr (free, t) ↦ elim (In-append (send nid s p d) t.notices _ (rw t.effects at i)) [
          | inl n ↦ absurd (Quiet-send t.notices nid s p d t.silent n)
          | inr i' ↦
              let (on, due, ep, ed) =
                (push_truth_exact m w st.candidates uc t.truth best.node_id nid s p d).0
                  (push_effects_sends prev t.truth best nid s p d i') in
              (best, t.truth, t.holds, t.mine mine, rw (t.mine mine) at on, due, ep)
        ]
      ]

  kept_IsOf :
      (r : State F.Snapshot × List Effect) (ran : reselect F b64 m w st format_name ≡ some r)
      (a : String)
      → IsOf a (lookup a (reselect-Halves F b64 m w st format_name r ran).kept.0)
  kept_IsOf r ran a t e =
      let hs = reselect-Halves F b64 m w st format_name r ran in
      let f = lookup-kept F b64 m w st format_name r hs ut a in
      elim (Bool-cases (is_some (lookup a (by_account st.candidates)))) [
        | inl b ↦ keyed a t (sym (rw b at f) ∙ e)
        | inr b ↦ cc (e, rw b at f)
      ]

  module _ (r : State F.Snapshot × List Effect)
      (ran : reselect F b64 m w st format_name ≡ some r) where
    -- Where the candidates and the truths have distinct keys and each truth is filed under its
    -- account: every push of a reselection goes to a connected node whose candidate holds the
    -- account of the push and lacks its file (or the mode pushes to all nodes), and carries the
    -- account's truth.
    pub push_stays_in_account :
        (nid : String) (s : Session) (p : TruthPush) (d : Bool)
        → In (send nid s p d) r.1
        → In (nid, s) (w.sessions_at p.account)
          × ((c : Candidate F.Snapshot) × (lookup nid st.candidates ≡ some c)
              × (c.account ≡ p.account)
              × ((m.profile.mode ≡ propagate_mode_all)
                  ⊎ ((c.absent ≡ true) ⊎ (c.fingerprint ≢ p.fingerprint))))
          × ((ts : TruthState) × (lookup p.account r.0.truths ≡ some ts) × (p ≡ push_message m ts))
    unfolding push_message
    push_stays_in_account nid s p d i =
        let hs = reselect-Halves F b64 m w st format_name r ran in
        elim (In-append (send nid s p d) hs.kept.1 hs.chosen.1 (rw hs.effects at i)) [
          | inl q ↦ absurd (
              Quiet-send hs.kept.1 nid s p d
                (lose-Quiet m st.candidates _ st.truths hs.kept hs.loses) q)
          | inr i' ↦
              let (a, vs, j, eb, ej, i'', ea) =
                select_all-Source F b64 m w st.candidates (strategy_of F m) format_name
                  (by_account st.candidates) hs.kept.0 hs.chosen (send nid s p d)
                  (by_account-Unique st.candidates) hs.chooses i' in
              let (best, ts, et, mine, on, (ne, c, ec, ca, lag), ep) =
                round_IsPush a vs _ j nid s p d ej (kept_IsOf r ran a) i'' in
              let pa : p.account ≡ ts.account = ap (λ x. x.account) ep in
              let pf : ts.fingerprint ≡ p.fingerprint = sym (ap (λ x. x.fingerprint) ep) in
              let same : a ≡ p.account = sym (pa ∙ mine) in
              (
                subst (λ k. In (nid, s) (w.sessions_at k)) same on,
                (
                  c,
                  ec,
                  ca ∙ sym pa,
                  subst
                      (λ f.
                        (m.profile.mode ≡ propagate_mode_all)
                        ⊎ ((c.absent ≡ true) ⊎ (c.fingerprint ≢ f)))
                      pf lag,
                ),
                (
                  ts,
                  rw hs.new_truths (subst (λ k. lookup k hs.chosen.0 ≡ some ts) same (ea ∙ et)),
                  ep,
                ),
              )
        ]
