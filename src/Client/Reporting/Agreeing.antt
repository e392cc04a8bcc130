-- ===== src/Client/Reporting/Agreeing.antt =====
-- A truth that an agent applied (apply.go) and then reports (agent.go) is the truth of its node.
use pangaea.Prelude.{
  ℕ, ◌≡◌, ◌≢◌, sym, ◌∙◌, ap, String, true, false, some, List, lookup, some_inj, arith, eq_iff,
}
use pangaea.Formats.{Format}
use pangaea.Transport.{Base64, TruthPush}
use pangaea.Server.Mediator.State.{Session, TruthState, Mediator, World}
use pangaea.Server.Mediator.Events.{reported_candidate}
use pangaea.Server.Mediator.Push.{lags}
use pangaea.Client.Apply.{Io, Disk, apply_truth}
use pangaea.Client.Apply.Writes.{Holds, ok_ack_is_true}
use pangaea.Client.Reporting.{
  Agent, Describes, presence, contents, report_event, report_of, is_expired,
}
use pangaea.Client.Reporting.Arriving.{event-report}

module _ (F : Format) (d : Describes F.Snapshot) (b64 : Base64) (a : Agent)
    (sha256 : List ℕ → String) (io : Io) (push : TruthPush) (disk : Disk) where
  -- The disk after the agent has applied the push.
  abbrev pub applied : Disk
  applied = (apply_truth sha256 io b64 push a.path disk).0

  print_applied :
      (raw : List ℕ)
      → Holds sha256 io a.path push.fingerprint applied
      → lookup a.path applied ≡ some raw
      → sha256 raw ≡ push.fingerprint
  print_applied raw (bytes, there, prints) e = ap sha256 (some_inj (sym e ∙ there)) ∙ prints

  -- Where a snapshot's fingerprint is the digest of its file and the backup has another path: once
  -- an agent has answered a push with an ok ack, the report of the file that it then reads carries
  -- the push's fingerprint, and the candidate that the server makes of it does not lag behind a
  -- truth of that fingerprint.
  pub applied-reported :
      (m : Mediator) (w : World) (now : ℕ) (raw : List ℕ) (snap : F.Snapshot) (s : Session)
      (t : TruthState) (source nid : String)
      → ((file : List ℕ) (x : F.Snapshot) → F.parse file ≡ some x → F.fingerprint x ≡ sha256 file)
      → io.backup_path ≢ a.path
      → (apply_truth sha256 io b64 push a.path disk).1.is_ok ≡ true
      → lookup a.path applied ≡ some raw
      → F.parse raw ≡ some snap
      → t.fingerprint ≡ push.fingerprint
      → (report_event F d b64 a now (contents raw)
          ≡ presence (report_of F d b64 a now raw snap) (is_expired (F.validate snap now).status))
        × ((report_of F d b64 a now raw snap).fingerprint ≡ push.fingerprint)
        × (lags t source nid
              (reported_candidate F b64 m w s (report_of F d b64 a now raw snap) snap)
            ≡ false)
  unfolding report_of reported_candidate lags
  applied-reported m w now raw snap s t source nid digests apart acked there parses same =
      let printed : F.fingerprint snap ≡ push.fingerprint =
        digests raw snap parses
        ∙ print_applied raw (ok_ack_is_true sha256 io a.path apart b64 push disk acked) there in
      (
        event-report F d b64 a m w now raw snap s parses,
        printed,
        ground (arith, eq_iff (F.fingerprint snap) t.fingerprint, printed, same),
      )
