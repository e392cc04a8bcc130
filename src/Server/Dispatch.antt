-- ===== src/Server/Dispatch.antt =====
-- internal/server/session.go: what a session does with a message of its agent.
use pangaea.Prelude.{
  ◌≡◌, refl, String, Bool, true, false, Option, none, some, eq_iff, ◌==◌, if◌then◌else◌, Bool-cases,
  inl, inr,
}
use pangaea.Transport.{
  Kind, Envelope, SnapshotReport, SnapshotAbsent, TruthAck, auth_jwt, hello, welcome,
  snapshot_request, snapshot_report, snapshot_absent, truth_push, truth_ack, error,
}
use pangaea.Server.Mediator.State.{Session}
use pangaea.Server.Mediator.Events.{Event, report, absent, ack, disconnect}

-- json.Unmarshal of the three payloads that a session reads.
pub record Decoder : Type 0 where
  pub snapshot_report_of : String → Option SnapshotReport
  pub snapshot_absent_of : String → Option SnapshotAbsent
  pub truth_ack_of : String → Option TruthAck

-- A message for the mediator, a close with code 1002, or nothing but a log line.
pub data Outcome : Type 0 where
  forward : Event → Outcome
  protocol_error : String → Outcome
  ignored : Outcome

-- if s.hub != nil
abbrev pub to_mediator : Bool → Event → Outcome
to_mediator true ev = forward ev
to_mediator false ev = ignored

module _ (s : Session) (in_hub : Bool) where
  unfoldable pub handle_report : Option SnapshotReport → Outcome
  handle_report none = protocol_error "invalid snapshot.report payload"
  handle_report (some p) =
      if p.profile == s.profile
      then to_mediator in_hub (report s p)
      else protocol_error "profile mismatch in snapshot.report"

  unfoldable pub handle_absent : Option SnapshotAbsent → Outcome
  handle_absent none = protocol_error "invalid snapshot.absent payload"
  handle_absent (some p) =
      if p.profile == s.profile
      then to_mediator in_hub (absent s p)
      else protocol_error "profile mismatch in snapshot.absent"

  unfoldable pub handle_ack : Option TruthAck → Outcome
  handle_ack none = protocol_error "invalid truth.ack payload"
  handle_ack (some p) = to_mediator in_hub (ack s p)

  unfoldable pub handle_kind : Decoder → Kind → String → Outcome
  unfolding handle_report handle_absent handle_ack
  handle_kind d snapshot_report payload = handle_report (d.snapshot_report_of payload)
  handle_kind d snapshot_absent payload = handle_absent (d.snapshot_absent_of payload)
  handle_kind d truth_ack payload = handle_ack (d.truth_ack_of payload)
  handle_kind d auth_jwt payload = protocol_error "unexpected message for server direction"
  handle_kind d hello payload = protocol_error "unexpected message for server direction"
  handle_kind d welcome payload = protocol_error "unexpected message for server direction"
  handle_kind d snapshot_request payload = protocol_error "unexpected message for server direction"
  handle_kind d truth_push payload = protocol_error "unexpected message for server direction"
  handle_kind d error payload = ignored
  handle_kind d (Kind.unknown k) payload = protocol_error "unknown message kind"

  unfoldable pub handle_message : Decoder → Envelope → Outcome
  unfolding handle_kind
  handle_message d env = handle_kind d env.kind env.payload

  -- What a session may forward: its own reports and absences, for its own profile, and its own acks.
  abbrev pub IsOwn : Outcome → Type 0
  IsOwn (forward (report t p)) = (t ≡ s) × (p.profile ≡ s.profile)
  IsOwn (forward (absent t p)) = (t ≡ s) × (p.profile ≡ s.profile)
  IsOwn (forward (ack t p)) = t ≡ s
  IsOwn (forward (disconnect n)) = ⊥
  IsOwn _ = Unit

  to_mediator-IsOwn : (b : Bool) (ev : Event) → IsOwn (forward ev) → IsOwn (to_mediator b ev)
  to_mediator-IsOwn true ev h = h
  to_mediator-IsOwn false ev h = tt

  matched-IsOwn :
      (profile message : String) (ev : Event)
      → (profile ≡ s.profile → IsOwn (forward ev))
      → IsOwn (if profile == s.profile then to_mediator in_hub ev else protocol_error message)
  matched-IsOwn profile message ev h = elim (Bool-cases (profile == s.profile)) [
    | inl e ↦ rw e (to_mediator-IsOwn in_hub ev (h ((eq_iff profile s.profile).0 e)))
    | inr e ↦ rw e tt
  ]

  handle_report-IsOwn : (o : Option SnapshotReport) → IsOwn (handle_report o)
  unfolding handle_report
  handle_report-IsOwn none = tt
  handle_report-IsOwn (some p) = matched-IsOwn p.profile _ (report s p) (λ e. (refl, e))

  handle_absent-IsOwn : (o : Option SnapshotAbsent) → IsOwn (handle_absent o)
  unfolding handle_absent
  handle_absent-IsOwn none = tt
  handle_absent-IsOwn (some p) = matched-IsOwn p.profile _ (absent s p) (λ e. (refl, e))

  handle_ack-IsOwn : (o : Option TruthAck) → IsOwn (handle_ack o)
  unfolding handle_ack
  handle_ack-IsOwn none = tt
  handle_ack-IsOwn (some p) = to_mediator-IsOwn in_hub (ack s p) refl

  handle_kind-IsOwn : (d : Decoder) (k : Kind) (payload : String) → IsOwn (handle_kind d k payload)
  unfolding handle_kind
  handle_kind-IsOwn d snapshot_report payload = handle_report-IsOwn (d.snapshot_report_of payload)
  handle_kind-IsOwn d snapshot_absent payload = handle_absent-IsOwn (d.snapshot_absent_of payload)
  handle_kind-IsOwn d truth_ack payload = handle_ack-IsOwn (d.truth_ack_of payload)
  handle_kind-IsOwn d auth_jwt payload = tt
  handle_kind-IsOwn d hello payload = tt
  handle_kind-IsOwn d welcome payload = tt
  handle_kind-IsOwn d snapshot_request payload = tt
  handle_kind-IsOwn d truth_push payload = tt
  handle_kind-IsOwn d error payload = tt
  handle_kind-IsOwn d (Kind.unknown k) payload = tt

  -- Whatever message arrives, what reaches the mediator is the session's own, and a report or an
  -- absence that reaches it is for the session's profile.
  pub handle_message-IsOwn : (d : Decoder) (env : Envelope) → IsOwn (handle_message d env)
  unfolding handle_message
  handle_message-IsOwn d env = handle_kind-IsOwn d env.kind env.payload
