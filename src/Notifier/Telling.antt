-- ===== src/Notifier/Telling.antt =====
-- What becomes of the record of a lost truth (mediator.go) that Emit (notifier.go) is handed.
use pangaea.Prelude.{
  ℕ, ◌-◌, ◌≤◌, ◌≡◌, refl, sym, ◌∙◌, ap, subst, String, Bool, true, false, List, [], ◌∷◌, ◌++◌, map,
  Option, none, some, Assoc, Unique, lookup, delete, lookup-delete, contains, In, In-append_left,
  In-append_right, sort, contains-sort, >>=-eq-some, ◌==◌, eq_iff, Bool-cases, inl, inr,
  if◌then◌else◌, magnitude,
}
use pangaea.Formats.{Format}
use pangaea.Transport.{Base64}
use pangaea.Notifier.{TruthRecord}
use pangaea.Notifier.Reports.{
  Notifier, Sink, UsageReport, Delivery, notify_one, Probing, no_usage, is_session_event,
  is_propagation_event, probe, emit, to_all_sinks,
}
use pangaea.Notifier.Delivery.{emit_open, suppress_over}
use pangaea.Server.Mediator.State.{Candidate, TruthState, Mediator, World, Effect, notify, State}
use pangaea.Server.Mediator.Select.{by_account}
use pangaea.Server.Mediator.Reselect.{lost_accounts, lost_record, when_notified, lose, reselect}
use pangaea.Server.Mediator.Buckets.{viable_in, extended, lookup-by_account}
use pangaea.Server.Mediator.Losing.{contains-lost_accounts}
use pangaea.Server.Mediator.Truths.{reselect-Halves}

some_effects :
    {a : Assoc TruthState} {l : List Effect} {r : Assoc TruthState × List Effect}
    → ◌≡◌ {A = Option (Assoc TruthState × List Effect)} (some (a, l)) (some r)
    → l ≡ r.1
some_effects h = cc

pub noted : (m : Mediator) (r : TruthRecord) → m.notifies ≡ true → In (notify r) (when_notified m r)
noted m r h = go m.notifies h
  where
    go : (b : Bool) → b ≡ true → In (notify r) (if b then notify r ∷ [] else [])
    go true e = inl refl
    go false e = cc

module _ {S : Type 0} (m : Mediator) (cands : Assoc (Candidate S))
    (notifies : m.notifies ≡ true) where
  lose_tells :
      (a : String) (t : TruthState) (ks : List String) (truths : Assoc TruthState)
      (r : Assoc TruthState × List Effect)
      → lose m cands ks truths ≡ some r
      → contains ks a ≡ true
      → lookup a truths ≡ some t
      → In (notify (lost_record m cands a t)) r.1
  unfolding lose
  lose_tells a t [] truths r h c e = cc
  lose_tells a t (k ∷ ks) truths r h c e =
      let (prev, ek, h') = >>=-eq-some (lookup k truths) _ h in
      let (q, eq, h'') = >>=-eq-some (lose m cands ks (delete k truths)) _ h' in
      let whole : when_notified m (lost_record m cands k prev) ++ q.1 ≡ r.1 = some_effects h'' in
      subst (In (notify (lost_record m cands a t))) whole (elim (Bool-cases (k == a)) [
        | inl same ↦
            let ka : k ≡ a = (eq_iff k a).0 same in
            let pt : prev ≡ t = cc (ek, e, ka) in
            subst (λ x. In (notify x) (when_notified m (lost_record m cands k prev) ++ q.1))
              (cc (ka, pt))
              (In-append_left (notify (lost_record m cands k prev))
                (when_notified m (lost_record m cands k prev)) q.1
                (noted m (lost_record m cands k prev) notifies))
        | inr apart ↦
            In-append_right (notify (lost_record m cands a t))
              (when_notified m (lost_record m cands k prev)) q.1
              (lose_tells a t ks (delete k truths) q eq (rw apart at c)
                (lookup-delete k a truths ∙ rw apart e))
      ])

module _ (b64 : Base64) (formats : String → Option Probing) (n : Notifier) where
  pub to_all_sinks-map :
      (ss : List Sink) (r : TruthRecord) (u : UsageReport)
      → to_all_sinks b64 formats ss r u ≡ map (λ s. notify_one s r u) ss
  unfolding to_all_sinks
  to_all_sinks-map [] r u = refl
  to_all_sinks-map (s ∷ ss) r u = ap (λ l. notify_one s r u ∷ l) (to_all_sinks-map ss r u)

  -- The calls that hand one record to every sink, with one usage.
  abbrev pub to_each : TruthRecord → UsageReport → List Delivery
  to_each rec u = map (λ s. notify_one s rec u) n.sinks

  -- A notification of the loss of a truth is among the effects, and Emit hands it to every sink.
  abbrev pub LossTold : ℕ → String → TruthState → List Effect → Type 0
  LossTold now a t effects =
      (rec : TruthRecord) × In (notify rec) effects
      × (rec.account ≡ a)
      × (rec.fingerprint ≡ t.fingerprint)
      × (rec.event_kind ≡ "truth.lost")
      × (emit b64 formats n now rec ≡ to_each rec no_usage)

  module _ (now : ℕ) (over : magnitude n.startup_event_grace ≤ now - n.started_at) where
    lost-LossTold :
        {S : Type 0} (m : Mediator) (cands : Assoc (Candidate S)) (a : String) (t : TruthState)
        (effects : List Effect)
        → In (notify (lost_record m cands a t)) effects
        → LossTold now a t effects
    unfolding lost_record is_session_event is_propagation_event probe
    lost-LossTold m cands a t effects i = (
      lost_record m cands a t,
      i,
      refl,
      refl,
      refl,
      emit_open b64 formats n now (lost_record m cands a t)
            (suppress_over b64 formats n now (lost_record m cands a t) over) refl
          ∙ to_all_sinks-map n.sinks (lost_record m cands a t) no_usage,
    )

    -- Where a reselection leaves an account that had a truth without a viable candidate, and the
    -- mediator notifies: the reselection emits a notification that the truth of the account is
    -- lost, with the fingerprint that it had, and Emit hands it to each of its sinks, without a
    -- usage, once the startup grace is over. The truths have distinct keys.
    pub lost_truth_told :
        (F : Format) (m : Mediator) (w : World) (st : State F.Snapshot) (format_name : String)
        (r : State F.Snapshot × List Effect)
        → reselect F b64 m w st format_name ≡ some r
        → Unique st.truths
        → m.notifies ≡ true
        → (a : String) (t : TruthState) → lookup a st.truths ≡ some t
        → viable_in a st.candidates ≡ []
        → LossTold now a t r.1
    lost_truth_told F m w st format_name r ran u notifies a t had gone =
        let hs = reselect-Halves F b64 m w st format_name r ran in
        let buckets = by_account st.candidates in
        let bare : lookup a buckets ≡ none =
          lookup-by_account a st.candidates ∙ ap (extended none) gone in
        let listed : contains (sort (lost_accounts buckets st.truths)) a ≡ true =
          contains-sort (lost_accounts buckets st.truths) a
          ∙ contains-lost_accounts buckets st.truths a u
          ∙ rw (had, bare) refl in
        lost-LossTold m st.candidates a t r.1 (
          subst (In (notify (lost_record m st.candidates a t))) (sym hs.effects) (
            In-append_left (notify (lost_record m st.candidates a t)) hs.kept.1 hs.chosen.1
              (lose_tells m st.candidates notifies a t _ st.truths hs.kept hs.loses listed had)))
