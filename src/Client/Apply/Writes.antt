-- ===== src/Client/Apply/Writes.antt =====
-- What writeOne and applyTruth (apply.go) leave on the disk, on every branch.
use pangaea.Prelude.{
  ℕ, ◌≡◌, ◌≢◌, ◌⊎◌, inl, inr, arith, sym, Bool-cases, refl, ◌∙◌, ap, String, Bool, true, false,
  Option, none, some, List, lookup, insert, lookup-insert, lookup-insert_self, lookup-delete,
  eq_iff, ==_flip, ==-false, ◌==◌, if◌then◌else◌,
}
use pangaea.Transport.{TruthPush, TruthAck, Base64}
use pangaea.Client.Apply.{
  Io, Disk, has_digest, acquire, restore, restore_from, discard, write_verified, write_backed,
  unless_locked_out, write_one, ack_of, apply_decoded, apply_truth, lock_retry_max,
}

module _ (sha256 : List ℕ → String) (io : Io) (path : String) where
  abbrev pub Holds : String → Disk → Type 0
  Holds want disk = (bytes : List ℕ) × (lookup path disk ≡ some bytes) × (sha256 bytes ≡ want)

  -- What a failure leaves as it was: all of it, if it is the write that failed, and else if os.Stat
  -- finds the file, so that there is a backup, and the restoring does not fail.
  abbrev pub IsUndone : Type 0
  IsUndone = (io.write_fails ≡ true) ⊎ ((io.stat_fails ≡ false) × (io.restore_fails ≡ false))

  -- The promise of writeOne, for what the file held before: on success the file has the digest that
  -- was wanted; on a failure that is undone, a file that was there is as it was.
  abbrev pub Writes : String → Option (List ℕ) → Disk × Option String → Type 0
  Writes want before (disk, none) = Holds want disk
  Writes want before (disk, some e) =
      IsUndone → (old : List ℕ) → before ≡ some old → lookup path disk ≡ some old

  -- A backup, where there is one, holds what was there; there is none where os.Stat failed.
  abbrev Backed : Option (List ℕ) → Option String → Disk → Type 0
  Backed before none disk = (old : List ℕ) → before ≡ some old → io.stat_fails ≡ true
  Backed before (some bp) disk =
      ((bp == path) ≡ false) × ((old : List ℕ) → before ≡ some old → lookup bp disk ≡ some old)

  digest_Holds :
      (want : String) (o : Option (List ℕ))
      → has_digest sha256 io want o ≡ true
      → (bytes : List ℕ) × (o ≡ some bytes) × (sha256 bytes ≡ want)
  digest_Holds want none h = cc
  digest_Holds want (some bytes) h = (bytes, refl, (eq_iff (sha256 bytes) want).0 h)

  -- A restore brings back what the backup holds.
  restore_keeps :
      (old : List ℕ) (bp : String) (disk : Disk)
      → (bp == path) ≡ false
      → lookup bp disk ≡ some old
      → io.restore_fails ≡ false
      → lookup path (restore sha256 io (some bp) disk path) ≡ some old
  unfolding restore restore_from
  restore_keeps old bp disk ne eb f =
      rw (eb, f)
        (rw (lookup-delete bp path (insert path old disk))
          (rw ne (lookup-insert_self path old disk)))

  -- A restore after a failed write changes nothing, whether it fails or not.
  restore_same :
      (old : List ℕ) (bp : String) (disk : Disk)
      → (bp == path) ≡ false
      → lookup bp disk ≡ some old
      → lookup path disk ≡ some old
      → lookup path (restore sha256 io (some bp) disk path) ≡ some old
  unfolding restore restore_from
  restore_same old bp disk ne eb there = elim (Bool-cases io.restore_fails) [
    | inl f ↦ rw (eb, f) there
    | inr f ↦ restore_keeps old bp disk ne eb f
  ]

  kept_unwritten :
      (before : Option (List ℕ)) (backup : Option String) (disk : Disk)
      → Backed before backup disk
      → lookup path disk ≡ before
      → (old : List ℕ) → before ≡ some old
      → lookup path (restore sha256 io backup disk path) ≡ some old
  unfolding restore
  kept_unwritten before none disk b there old e = there ∙ e
  kept_unwritten before (some bp) disk (ne, eb) there old e =
      restore_same old bp disk ne (eb old e) (there ∙ e)

  kept_written :
      (before : Option (List ℕ)) (backup : Option String) (disk : Disk)
      → Backed before backup disk
      → io.write_fails ≡ false
      → IsUndone
      → (old : List ℕ) → before ≡ some old
      → lookup path (restore sha256 io backup disk path) ≡ some old
  kept_written before none disk b w (inl failed) old e = cc
  kept_written before none disk b w (inr (found, fine)) old e = cc (b old e)
  kept_written before (some bp) disk b w (inl failed) old e = cc
  kept_written before (some bp) disk (ne, eb) w (inr (found, fine)) old e =
      restore_keeps old bp disk ne (eb old e) fine

  overwritten-Backed :
      (before : Option (List ℕ)) (backup : Option String) (disk : Disk) (bytes : List ℕ)
      → Backed before backup disk
      → Backed before backup (insert path bytes disk)
  overwritten-Backed before none disk bytes b = b
  overwritten-Backed before (some bp) disk bytes (ne, eb) =
      (ne, λ old e. lookup-insert path bp bytes disk ∙ rw (==_flip path bp ne) (eb old e))

  discard-Holds :
      (want : String) (before : Option (List ℕ)) (backup : Option String) (disk : Disk)
      → Backed before backup disk
      → Holds want disk
      → Holds want (discard sha256 io backup disk)
  discard-Holds want before none disk b h = h
  discard-Holds want before (some bp) disk (ne, eb) (bytes, e, d) =
      (bytes, lookup-delete bp path disk ∙ rw ne e, d)

  either :
      (P : Disk × Option String → Type 0) (b : Bool) (x y : Disk × Option String)
      → (b ≡ true → P x)
      → (b ≡ false → P y)
      → P (if b then x else y)
  either P true x y h k = h refl
  either P false x y h k = k refl

  write_verified-Writes :
      (want : String) (raw : List ℕ) (before : Option (List ℕ)) (backup : Option String)
      (disk : Disk)
      → Backed before backup disk
      → lookup path disk ≡ before
      → Writes want before (write_verified sha256 io want raw path backup disk)
  unfolding write_verified
  write_verified-Writes want raw before backup disk b there =
      let written = insert path (io.settles raw) disk in
      let later = overwritten-Backed before backup disk (io.settles raw) b in
      either (Writes want before) io.write_fails _ _
        (λ w u. kept_unwritten before backup disk b there)
        (λ w.
          either (Writes want before) io.reread_fails _ _
            (λ r. kept_written before backup written later w)
            (λ r.
              either (Writes want before) (has_digest sha256 io want (lookup path written)) _ _
                (λ d.
                  discard-Holds want before backup written later
                    (digest_Holds want (lookup path written) d))
                (λ d. kept_written before backup written later w)))

  module _ (fresh : io.backup_path ≢ path) where
    -- The backup of what os.Stat found, which is what is there unless it failed.
    write_backed-Writes :
        (want : String) (raw : List ℕ) (before found : Option (List ℕ)) (disk : Disk)
        → lookup path disk ≡ before
        → found ≡ (if io.stat_fails then none else before)
        → Writes want before (write_backed sha256 io want raw path found disk)
    unfolding write_backed
    write_backed-Writes want raw before none disk there e =
        write_verified-Writes want raw before none disk (λ old k. ground (arith)) there
    write_backed-Writes want raw before (some x) disk there e =
        let same : before ≡ some x = ground (arith) in
        let apart = ==-false io.backup_path path fresh in
        either (Writes want before) io.backup_fails _ _ (λ f u old eo. there ∙ eo)
          (λ f.
            write_verified-Writes want raw before (some io.backup_path)
              (insert io.backup_path x disk)
              (apart, λ old eo. lookup-insert_self io.backup_path x disk ∙ sym same ∙ eo)
              (lookup-insert io.backup_path path x disk ∙ rw apart there))

    unless_locked_out-Writes :
        (want : String) (before : Option (List ℕ)) (o : Option String) (disk : Disk)
        (rest : Disk × Option String)
        → lookup path disk ≡ before
        → Writes want before rest
        → Writes want before (unless_locked_out sha256 io o disk rest)
    unless_locked_out-Writes want before none disk rest e h = h
    unless_locked_out-Writes want before (some x) disk rest e h = λ u old eo. e ∙ eo

    first_read :
        (want : String) (fails : Bool) (disk : Disk)
        → has_digest sha256 io want (if fails then none else lookup path disk) ≡ true
        → Holds want disk
    first_read want true disk h = cc
    first_read want false disk h = digest_Holds want (lookup path disk) h

    -- With a backup path that is not the file's: when writeOne returns no error, the file has the
    -- digest that was wanted, whatever the calls did. When it returns one, a file that was there is
    -- as it was if the write failed, and also if neither os.Stat nor the restoring failed.
    pub write_one-Writes :
        (want : String) (raw : List ℕ) (disk : Disk)
        → Writes want (lookup path disk) (write_one sha256 io want raw path disk)
    unfolding write_one
    write_one-Writes want raw disk =
        either (Writes want (lookup path disk))
          (has_digest sha256 io want (if io.first_read_fails then none else lookup path disk)) _ _
          (first_read want io.first_read_fails disk)
          (λ d.
            unless_locked_out-Writes want (lookup path disk)
              (acquire sha256 io lock_retry_max 0 none) disk _ refl
              (write_backed-Writes want raw (lookup path disk)
                (if io.stat_fails then none else lookup path disk) disk refl refl))

    acked :
        (push : TruthPush) (before : Option (List ℕ)) (r : Disk × Option String)
        → Writes push.fingerprint before r
        → (ack_of sha256 io push r.1).is_ok ≡ true
        → Holds push.fingerprint r.0
    acked push before (disk, none) h k = h
    acked push before (disk, some e) h k = cc

    abbrev Honest : TruthPush → Disk × TruthAck → Type 0
    Honest push (disk, a) = a.is_ok ≡ true → Holds push.fingerprint disk

    guarded :
        (push : TruthPush) (disk : Disk) (b : Bool) (before : Option (List ℕ))
        (r : Disk × Option String)
        → Writes push.fingerprint before r
        → Honest push (
            if b
            then (disk, ack_of sha256 io push (some "candidate path is empty"))
            else (r.0, ack_of sha256 io push r.1))
    guarded push disk true before r w h = cc
    guarded push disk false before r w h = acked push before r w h

    -- With a backup path that is not the file's, an ack that says ok is true: the file at the
    -- agent's path has the fingerprint of the push.
    pub ok_ack_is_true :
        (b64 : Base64) (push : TruthPush) (disk : Disk)
        → (apply_truth sha256 io b64 push path disk).1.is_ok ≡ true
        → Holds push.fingerprint (apply_truth sha256 io b64 push path disk).0
    unfolding apply_truth
    ok_ack_is_true b64 push disk h = decoded (b64.decode push.raw_b64) h
      where
        decoded :
            (o : Option (List ℕ))
            → (apply_decoded sha256 io push path disk o).1.is_ok ≡ true
            → Holds push.fingerprint (apply_decoded sha256 io push path disk o).0
        decoded none h = cc
        decoded (some raw) h =
            guarded push disk (path == "") (lookup path disk)
              (write_one sha256 io push.fingerprint raw path disk)
              (write_one-Writes push.fingerprint raw disk) h

-- The same disk and the same verdict.
abbrev pub Agree : Disk × TruthAck → Disk × TruthAck → Type 0
Agree r q = (r.0 ≡ q.0) × (r.1.is_ok ≡ q.1.is_ok)

module _ (sha256 : List ℕ → String) (io : Io) where
  acks_agree :
      (push other : TruthPush) (e : Option String)
      → (ack_of sha256 io other e).is_ok ≡ (ack_of sha256 io push e).is_ok
  acks_agree push other none = refl
  acks_agree push other (some e) = refl

  guarded-Agree :
      (push other : TruthPush) (disk : Disk) (b : Bool) (r q : Disk × Option String)
      → r ≡ q
      → Agree
          (if b
            then (disk, ack_of sha256 io other (some "candidate path is empty"))
            else (r.0, ack_of sha256 io other r.1))
          (if b
            then (disk, ack_of sha256 io push (some "candidate path is empty"))
            else (q.0, ack_of sha256 io push q.1))
  guarded-Agree push other disk true r q e = (refl, refl)
  guarded-Agree push other disk false r q e =
      (ap (λ x. x.0) e, ap (λ x. (ack_of sha256 io other x.1).is_ok) e ∙ acks_agree push other q.1)

  decoded-Agree :
      (push other : TruthPush) (path : String) (disk : Disk) (o : Option (List ℕ))
      → other.fingerprint ≡ push.fingerprint
      → Agree (apply_decoded sha256 io other path disk o) (apply_decoded sha256 io push path disk o)
  unfolding apply_decoded
  decoded-Agree push other path disk none e = (refl, refl)
  decoded-Agree push other path disk (some raw) e =
      guarded-Agree push other disk (path == "") _ _
        (ap (λ f. write_one sha256 io f raw path disk) e)

-- Two pushes with the same fingerprint and the same bytes, whatever their accounts, profiles and
-- target paths, have the same effect on the disk and the same verdict: the agent does not compare
-- the account of a push with its own.
pub account_not_compared :
    (sha256 : List ℕ → String) (io : Io) (b64 : Base64) (push other : TruthPush) (path : String)
    (disk : Disk)
    → other.fingerprint ≡ push.fingerprint
    → other.raw_b64 ≡ push.raw_b64
    → Agree (apply_truth sha256 io b64 other path disk) (apply_truth sha256 io b64 push path disk)
unfolding apply_truth
account_not_compared sha256 io b64 push other path disk ef er =
    rw er (decoded-Agree sha256 io push other path disk (b64.decode push.raw_b64) ef)
