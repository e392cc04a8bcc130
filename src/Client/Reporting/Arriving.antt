-- ===== src/Client/Reporting/Arriving.antt =====
-- A report's way from the agent (agent.go) through the session (session.go) to the mediator.
use pangaea.Prelude.{
  ℕ, ◌≡◌, refl, true, false, some, List, insert, ◌==◌, if◌then◌else◌, eq_iff, arith,
}
use pangaea.Formats.{Format}
use pangaea.Transport.{Base64, Kind, Envelope, SnapshotReport}
use pangaea.Server.Mediator.State.{Session, Candidate, Mediator, State, World}
use pangaea.Server.Mediator.Events.{
  report, handle, on_report, on_parsed, base64_decode, reported_candidate, report_status,
}
use pangaea.Server.Mediator.Reselect.{reselect}
use pangaea.Server.Dispatch.{Decoder, Outcome, forward, handle_message, handle_kind, handle_report}
use pangaea.Client.Reporting.{
  Agent, Describes, presence, contents, report_event, read_message, parsed_message, report_of,
  read_file_if_exists, resolve_account, is_expired,
}

module _ (F : Format) (d : Describes F.Snapshot) (b64 : Base64) (a : Agent) (m : Mediator)
    (w : World) (now : ℕ) (raw : List ℕ) (snap : F.Snapshot) (s : Session) where
  abbrev pub sent : SnapshotReport
  sent = report_of F d b64 a now raw snap

  -- The candidate that the server holds for a report of an agent: the file's own snapshot, with the
  -- status at the server's clock, under the session's node and the agent's account.
  abbrev pub Carries : Candidate F.Snapshot → Type 0
  Carries c =
      (c.node_id ≡ s.node_id)
      × (c.session ≡ s)
      × (c.account ≡ resolve_account F d b64 a (some snap))
      × (c.snap ≡ some snap)
      × (c.fingerprint ≡ F.fingerprint snap)
      × (c.status ≡ (F.validate snap w.now).status)
      × (c.reported_at ≡ w.now)
      × (c.path ≡ a.path)
      × (c.absent ≡ false)

  -- A file that parses is reported, whatever its status.
  pub event-report :
      F.parse raw ≡ some snap
      → report_event F d b64 a now (contents raw)
        ≡ presence sent (is_expired (F.validate snap now).status)
  unfolding report_event read_message parsed_message read_file_if_exists
  event-report parses = rw parses refl

  own_profile :
      a.profile ≡ s.profile
      → (if a.profile == s.profile
          then forward (report s sent)
          else Outcome.protocol_error "profile mismatch in snapshot.report")
        ≡ forward (report s sent)
  own_profile e = ground (arith, eq_iff a.profile s.profile)

  decoded : (b64.encode raw == "") ≡ false → base64_decode b64 (b64.encode raw) ≡ some raw
  unfolding base64_decode
  decoded full = ground (arith, b64.decode-encode raw)

  handled :
      (r : SnapshotReport) (st : State F.Snapshot)
      → base64_decode b64 r.raw_b64 ≡ some raw
      → F.parse raw ≡ some snap
      → handle F b64 m w st (report s r)
        ≡ reselect F b64 m w
            (record st {
              candidates = insert s.node_id (reported_candidate F b64 m w s r snap) st.candidates;
            })
            r.format
  unfolding handle on_report on_parsed
  handled r st readable parses = rw (on_report, readable, on_parsed, parses) refl

  -- A file that parses is reported. Where its encoding is not empty, the session is of the agent's
  -- profile and JSON gives back the report that was sent, the report reaches the mediator as it was
  -- built. The mediator then selects with a candidate under the session's node that holds the
  -- snapshot of the agent's own bytes, the agent's account, and the status at its own clock.
  pub report-arrives :
      (decoder : Decoder) (st : State F.Snapshot) (env : Envelope)
      → F.parse raw ≡ some snap
      → (b64.encode raw == "") ≡ false
      → a.profile ≡ s.profile
      → env.kind ≡ Kind.snapshot_report
      → decoder.snapshot_report_of env.payload ≡ some sent
      → (report_event F d b64 a now (contents raw)
          ≡ presence sent (is_expired (F.validate snap now).status))
        × (handle_message s true decoder env ≡ forward (report s sent))
        × ((c : Candidate F.Snapshot) × Carries c
            × (handle F b64 m w st (report s sent)
                ≡ reselect F b64 m w
                    (record st { candidates = insert s.node_id c st.candidates })
                    F.name))
  unfolding handle_message handle_kind handle_report handle on_report on_parsed base64_decode
      reported_candidate report_status report_of
  report-arrives decoder st env parses full same kind payload = (
    event-report parses,
    rw (kind, payload) (own_profile same),
    (
      reported_candidate F b64 m w s sent snap,
      (refl, refl, refl, refl, refl, refl, refl, refl, refl),
      handled sent st (decoded full) parses,
    ),
  )
