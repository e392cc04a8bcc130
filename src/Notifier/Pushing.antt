-- ===== src/Notifier/Pushing.antt =====
-- What becomes of the record of a push (mediator.go) that Emit (notifier.go) is handed.
use pangaea.Prelude.{
  ℕ, ◌-◌, ◌≤◌, ◌≡◌, refl, ◌∙◌, ap, String, true, false, List, [], ◌∷◌, Option, none, some, Assoc,
  In, In-append_right, ◌==◌, Bool-cases, inl, inr, if◌then◌else◌, magnitude,
}
use pangaea.Formats.{Format}
use pangaea.Transport.{Base64}
use pangaea.Notifier.{TruthRecord}
use pangaea.Notifier.Reports.{
  Notifier, UsageReport, Probing, no_usage, is_session_event, is_propagation_event,
  has_usage_signal, usage_or_none, parse_bytes, decode_snapshot, probe_snapshot, probe_with,
  probe_found, probe, emit,
}
use pangaea.Notifier.Delivery.{emit_open, suppress_over}
use pangaea.Server.Mediator.State.{Candidate, TruthState, Mediator, World, Effect, notify}
use pangaea.Server.Mediator.Push.{push_truth}
use pangaea.Server.Mediator.Reselect.{propagated_record, notify_reached, push_effects}
use pangaea.Notifier.Telling.{noted, to_all_sinks-map, to_each}

module _ (b64 : Base64) (formats : String → Option Probing) (n : Notifier) where
  no_signal : has_usage_signal no_usage ≡ false
  unfolding has_usage_signal
  no_signal = refl

  -- A record whose bytes its format parses is probed as the format's probe says.
  module _ (G : Format) (ask : G.Snapshot → Option UsageReport) (rec : TruthRecord) (raw : List ℕ)
      (snap : G.Snapshot)
      (known : formats rec.format ≡ some (record { format = G; probe = some ask }))
      (decoded : b64.decode rec.raw_b64 ≡ some raw) (parsed : G.parse raw ≡ some snap)
      (kept : (rec.raw_b64 == "") ≡ false) where
    probe_snap :
        is_session_event rec ≡ false
        → rec.no_truth ≡ false
        → probe b64 formats rec ≡ usage_or_none b64 formats (ask snap)
    unfolding probe probe_found probe_with decode_snapshot parse_bytes probe_snapshot
    probe_snap plain there = rw (plain, there, kept, known, decoded, parsed) (rw kept refl)

  -- A notification of a push is among the effects, and Emit hands it to every sink with the usage
  -- that is reported, if that has a signal, else to none.
  abbrev pub PushTold :
      ℕ → TruthState → String → List String → Option UsageReport → List Effect → Type 0
  PushTold now t source targets reported effects =
      (rec : TruthRecord) × In (notify rec) effects
      × (rec.account ≡ t.account)
      × (rec.fingerprint ≡ t.fingerprint)
      × (rec.source_node ≡ source)
      × (rec.target_nodes ≡ targets)
      × (reported ≡ none → emit b64 formats n now rec ≡ [])
      × ((u : UsageReport)
          → reported ≡ some u
          → emit b64 formats n now rec
            ≡ (if has_usage_signal u then to_each b64 formats n rec u else []))

  module _ (now : ℕ) (over : magnitude n.startup_event_grace ≤ now - n.started_at) where
    emit_push :
        (rec : TruthRecord) (u : UsageReport)
        → is_session_event rec ≡ false
        → is_propagation_event rec ≡ true
        → probe b64 formats rec ≡ u
        → emit b64 formats n now rec
          ≡ (if has_usage_signal u then to_each b64 formats n rec u else [])
    emit_push rec u plain pushes probed =
        emit_open b64 formats n now rec (suppress_over b64 formats n now rec over) plain
        ∙ rw (pushes, probed)
            (elim (Bool-cases (has_usage_signal u)) [
              | inl e ↦ rw e (to_all_sinks-map b64 formats n n.sinks rec u)
              | inr e ↦ rw e refl
            ])

    propagated-PushTold :
        (G : Format) (ask : G.Snapshot → Option UsageReport) (raw : List ℕ) (snap : G.Snapshot)
        {S : Type 0} (m : Mediator) (at : ℕ) (cands : Assoc (Candidate S))
        (prev : Option TruthState) (t : TruthState) (best : Candidate S) (target : String)
        (targets : List String) (effects : List Effect)
        → formats t.format ≡ some (record { format = G; probe = some ask })
        → b64.decode t.raw_b64 ≡ some raw
        → G.parse raw ≡ some snap
        → (t.raw_b64 == "") ≡ false
        → (best.node_id == "") ≡ false
        → In (notify (propagated_record m at cands prev t best (target ∷ targets))) effects
        → PushTold now t best.node_id (target ∷ targets) (ask snap) effects
    unfolding propagated_record is_session_event is_propagation_event usage_or_none
    propagated-PushTold G ask raw snap m at cands prev t best target targets effects known decoded
          parsed kept named i =
        let rec = propagated_record m at cands prev t best (target ∷ targets) in
        let probed = probe_snap G ask rec raw snap known decoded parsed kept refl refl in
        (
          rec,
          i,
          refl,
          refl,
          refl,
          refl,
          λ e.
              emit_push rec no_usage refl (rw named refl)
                (probed ∙ ap (usage_or_none b64 formats) e)
              ∙ rw no_signal refl,
          λ u e. emit_push rec u refl (rw named refl) (probed ∙ ap (usage_or_none b64 formats) e),
        )

    push_effects_tells :
        (F : Format) (m : Mediator) (w : World) (cands : Assoc (Candidate F.Snapshot))
        (prev : Option TruthState) (t : TruthState) (best : Candidate F.Snapshot) (target : String)
        (targets : List String)
        → m.notifies ≡ true
        → (push_truth m w cands t best.node_id).0 ≡ target ∷ targets
        → In
            (notify (propagated_record m (w.now_at t.account) cands prev t best (target ∷ targets)))
            (push_effects F b64 m w cands prev t best)
    unfolding push_effects notify_reached
    push_effects_tells F m w cands prev t best target targets notifies reached =
        let rec = propagated_record m (w.now_at t.account) cands prev t best (target ∷ targets) in
        In-append_right (notify rec) (push_truth m w cands t best.node_id).1
          (notify_reached m (w.now_at t.account) cands prev t best
            (push_truth m w cands t best.node_id).0)
          (rw reached (noted m rec notifies))

    -- Where the push pass of a truth reaches a node and the mediator notifies, the pass emits a
    -- notification with the account and the fingerprint of the truth, the node that it came from
    -- and the nodes reached. Once the startup grace is over, for a named source, a truth whose text
    -- is not empty and which its format parses, and a format with a probe, Emit hands it to each
    -- of its sinks with the usage that the probe reports, where that usage has a signal, and to
    -- none of them where it has none or the probe fails.
    pub pushed_truth_told :
        (G : Format) (ask : G.Snapshot → Option UsageReport) (raw : List ℕ) (snap : G.Snapshot)
        (F : Format) (m : Mediator) (w : World) (cands : Assoc (Candidate F.Snapshot))
        (prev : Option TruthState) (t : TruthState) (best : Candidate F.Snapshot) (target : String)
        (targets : List String)
        → formats t.format ≡ some (record { format = G; probe = some ask })
        → b64.decode t.raw_b64 ≡ some raw
        → G.parse raw ≡ some snap
        → (t.raw_b64 == "") ≡ false
        → (best.node_id == "") ≡ false
        → m.notifies ≡ true
        → (push_truth m w cands t best.node_id).0 ≡ target ∷ targets
        → PushTold now t best.node_id
            (target ∷ targets)
            (ask snap)
            (push_effects F b64 m w cands prev t best)
    pushed_truth_told G ask raw snap F m w cands prev t best target targets known decoded parsed
          kept named notifies reached =
        propagated-PushTold G ask raw snap m (w.now_at t.account) cands prev t best target targets
          (push_effects F b64 m w cands prev t best) known decoded parsed kept named
          (push_effects_tells F m w cands prev t best target targets notifies reached)
