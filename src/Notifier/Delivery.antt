-- ===== src/Notifier/Delivery.antt =====
-- What becomes of the records that the hub (hub.go) hands to Emit (notifier.go).
use pangaea.Prelude.{
  ℕ, ◌-◌, ◌≤◌, ◌≡◌, refl, String, Bool, true, false, not, ◌&&◌, ◌||◌, List, [], Option, none, some,
  lookup, All, All-append, Result, failed, done, ◌==◌, arith, Bool-cases, inl, inr, if◌then◌else◌,
  magnitude,
}
use pangaea.Transport.{Base64}
use pangaea.Notifier.{TruthRecord, event_session_connected, event_session_disconnected}
use pangaea.Notifier.Reports.{
  Notifier, Probing, is_session_event, is_propagation_event, suppress_startup_event,
  has_usage_signal, probe, emit, to_all_sinks,
}
use pangaea.Server.Mediator.State.{Session}
use pangaea.Server.Hub.{
  Setup, Hub, ProfileHub, HubError, HubEffect, HandshakeAuth, notify, notice, displaced, register,
  register_at, register_in, unregister, unregister_home, unregister_at, unregister_from,
  get_or_start_profile, is_refused, is_current,
}

module _ (b64 : Base64) (formats : String → Option Probing) (n : Notifier) where
  emit_session :
      (now : ℕ) (r : TruthRecord) → is_session_event r ≡ true → emit b64 formats n now r ≡ []
  unfolding emit
  emit_session now r h = elim (Bool-cases (suppress_startup_event n now r)) [
    | inl e ↦ rw e refl
    | inr e ↦ rw (e, h) refl
  ]

  -- Emit, once nothing is suppressed and for a record that is no session's.
  pub emit_open :
      (now : ℕ) (r : TruthRecord)
      → suppress_startup_event n now r ≡ false
      → is_session_event r ≡ false
      → emit b64 formats n now r ≡ (
          if is_propagation_event r && not (has_usage_signal (probe b64 formats r))
          then []
          else to_all_sinks b64 formats n.sinks r (probe b64 formats r))
  unfolding emit
  emit_open now r quiet other = rw (quiet, other) refl

  pub suppress_over :
      (now : ℕ) (r : TruthRecord)
      → magnitude n.startup_event_grace ≤ now - n.started_at
      → suppress_startup_event n now r ≡ false
  unfolding suppress_startup_event
  suppress_over now r over = ground (arith)

  -- A notification of the hub that reaches no sink, whenever it is emitted.
  abbrev pub Dropped : HubEffect → Type 0
  Dropped (notify r) = (now : ℕ) → emit b64 formats n now r ≡ []
  Dropped _ = Unit

  notice-Dropped :
      (env : Setup) (ph : ProfileHub) (name kind : String) (s : Session)
      → ((kind == event_session_connected || kind == event_session_disconnected) ≡ true)
      → All Dropped (notice env ph name kind s)
  notice-Dropped env ph name kind s k = elim (Bool-cases env.notifies) [
    | inl e ↦ rw e ((λ now. emit_session now _ (unfold is_session_event in ground (arith))), tt)
    | inr e ↦ rw e tt
  ]

  displaced-Dropped : (o : Option Session) → All Dropped (displaced o)
  unfolding displaced
  displaced-Dropped none = tt
  displaced-Dropped (some prev) = (tt, tt)

  abbrev pub AllDropped : Hub × Result HubError (List HubEffect) → Type 0
  AllDropped (g, failed e) = Unit
  AllDropped (g, done effects) = All Dropped effects

  module _ (env : Setup) (h : Hub) where
    gate :
        (b : Bool) (x y : Hub × Result HubError (List HubEffect))
        → AllDropped x
        → AllDropped y
        → AllDropped (if b then x else y)
    gate true x y hx hy = hx
    gate false x y hx hy = hy

    register_at-AllDropped :
        (name : String) (auth : HandshakeAuth) (s : Session) (r : Result HubError ProfileHub)
        → AllDropped (register_at env h name auth s r)
    unfolding register_at register_in
    register_at-AllDropped name auth s (failed e) = tt
    register_at-AllDropped name auth s (done ph) = gate (is_refused ph auth) _ _ tt (
        All-append Dropped (displaced (lookup auth.identity ph.by_identity)) _
          (displaced-Dropped (lookup auth.identity ph.by_identity))
          (notice-Dropped env _ name event_session_connected s refl))

    unregister_from-Dropped :
        (name : String) (s : Session) (ph : ProfileHub)
        → All Dropped (unregister_from env h name s ph).1
    unfolding unregister_from
    unregister_from-Dropped name s ph =
        elim (Bool-cases (is_current s (lookup s.node_id ph.sessions))) [
          | inl e ↦
              rw e (tt, notice-Dropped env _ ph.profile.name event_session_disconnected s refl)
          | inr e ↦ rw e tt
        ]

    unregister_at-Dropped :
        (name : String) (s : Session) (o : Option ProfileHub)
        → All Dropped (unregister_at env h name s o).1
    unfolding unregister_at
    unregister_at-Dropped name s none = tt
    unregister_at-Dropped name s (some ph) = unregister_from-Dropped name s ph

    unregister_home-Dropped :
        (s : Session) (o : Option String) → All Dropped (unregister_home env h s o).1
    unfolding unregister_home
    unregister_home-Dropped s none = tt
    unregister_home-Dropped s (some name) = unregister_at-Dropped name s (lookup name h.by_profile)

    -- No notification that the hub makes of a session that connects or disconnects reaches a sink:
    -- Emit drops every one, at any time and for any sinks.
    pub hub_notices-Dropped :
        (name : String) (auth : HandshakeAuth) (s : Session)
        → AllDropped (register env h name auth s) × All Dropped (unregister env h s).1
    unfolding register unregister
    hub_notices-Dropped name auth s = (
      gate h.shutting_down _ _ tt
          (register_at-AllDropped name auth s (get_or_start_profile env h name)),
      unregister_home-Dropped s (h.homes s.pointer),
    )
