-- ===== src/Server/Mediator/Totality.antt =====
-- No event makes a mediator (mediator.go) panic, and a run keeps its state sound.
use pangaea.Prelude.{
  String, ◌≡◌, refl, inl, inr, Option, none, some, List, [], ◌∷◌, ◌++◌, Option-cases,
}
use pangaea.Formats.{Format, IsFormat}
use pangaea.Transport.{Base64, SnapshotReport}
use pangaea.Server.Mediator.State.{Session, Mediator, World, Effect, State}
use pangaea.Server.Mediator.Reselect.{reselect}
use pangaea.Server.Mediator.Events.{
  Event, report, absent, ack, disconnect, on_report, on_parsed, handle, run, base64_decode,
  reported_candidate, absent_candidate,
}
use pangaea.Server.Mediator.Choice.{reselect_total}
use pangaea.Server.Mediator.Invariant.{
  IsSound, put_candidate-IsSound, drop_candidate-IsSound, handle-IsSound,
}

module _ (F : Format) (law : IsFormat F) (b64 : Base64) (m : Mediator) where
  reselects :
      (w : World) (st : State F.Snapshot) (format_name : String)
      → IsSound st
      → (r : State F.Snapshot × List Effect) × (reselect F b64 m w st format_name ≡ some r)
  reselects w st format_name v = reselect_total F law b64 m w st format_name v.truths_unique

  on_parsed_total :
      (w : World) (st : State F.Snapshot) (s : Session) (p : SnapshotReport) (o : Option F.Snapshot)
      → IsSound st
      → (r : State F.Snapshot × List Effect) × (on_parsed F b64 m w st s p o ≡ some r)
  unfolding on_parsed reported_candidate
  on_parsed_total w st s p none v = (_, refl)
  on_parsed_total w st s p (some snap) v =
      reselects w _ p.format
        (put_candidate-IsSound st v s.node_id (reported_candidate F b64 m w s p snap) refl)

  on_report_total :
      (w : World) (st : State F.Snapshot) (s : Session) (p : SnapshotReport)
      → IsSound st
      → (r : State F.Snapshot × List Effect) × (on_report F b64 m w st s p ≡ some r)
  unfolding on_report
  on_report_total w st s p v = elim (Option-cases (base64_decode b64 p.raw_b64)) [
    | inl e ↦ ((st, []), rw (e, on_report))
    | inr (raw, e) ↦
        let (r, h) = on_parsed_total w st s p (F.parse raw) v in (r, rw (e, on_report) h)
  ]

  -- No event makes the actor panic in a sound state.
  pub handle_total :
      (w : World) (st : State F.Snapshot) (ev : Event)
      → IsSound st
      → (r : State F.Snapshot × List Effect) × (handle F b64 m w st ev ≡ some r)
  unfolding handle
  handle_total w st (report s p) v = on_report_total w st s p v
  handle_total w st (absent s p) v = reselects w _ m.profile.format (
      put_candidate-IsSound st v s.node_id (absent_candidate w.now s p)
        (unfold absent_candidate in refl))
  handle_total w st (ack s p) v = (_, refl)
  handle_total w st (disconnect nid) v =
      reselects w _ m.profile.format (drop_candidate-IsSound st v nid)

  -- For a format that keeps the contract of Compare: whatever events reach a sound mediator, in
  -- whatever worlds, it handles them all without a panic and ends in a sound state.
  pub run-IsSound :
      (st : State F.Snapshot) (evs : List (World × Event))
      → IsSound st
      → (r : State F.Snapshot × List Effect) × (run F b64 m st evs ≡ some r) × IsSound r.0
  unfolding run
  run-IsSound st [] v = ((st, []), refl, v)
  run-IsSound st ((w, ev) ∷ evs) v =
      let (r, h) = handle_total w st ev v in
      let (q, h', v') = run-IsSound r.0 evs (handle-IsSound F b64 m w st ev r h v) in
      ((q.0, r.1 ++ q.1), simp (h, h'), v')
