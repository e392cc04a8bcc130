-- ===== src/Client/Apply.antt =====
-- internal/client/apply.go: applyTruth and writeOne, over a disk of files. The results of the system
-- calls are given; safeio's writes are atomic: they replace the file or leave the disk as it was.
pub mod Writes
use pangaea.Prelude.{
  ℕ, zero, suc, ◌+◌, String, Bool, true, false, Option, none, some, List, [], Assoc, lookup, insert,
  delete, is_some, ◌==◌, if◌then◌else◌,
}
use pangaea.Transport.{TruthPush, TruthAck, Base64}

-- What LockFile returns.
pub data Lock : Type 0 where
  locked : Lock
  timed_out : String → Lock
  refused : String → Lock

-- The results of the calls of one writeOne: each attempt at the lock, whether the context ends in the
-- wait after it, and which reads, writes and calls of os.Stat fail, on a file that is there. `settles` is what the file holds once it is
-- written, which another program may have changed.
pub record Io : Type 0 where
  pub first_read_fails : Bool
  pub lock : ℕ → Lock
  pub cancelled : ℕ → Bool
  pub stat_fails : Bool
  pub backup_path : String
  pub backup_fails : Bool
  pub write_fails : Bool
  pub settles : List ℕ → List ℕ
  pub reread_fails : Bool
  pub restore_fails : Bool

abbrev pub Disk : Type 0
Disk = Assoc (List ℕ)

-- common.LockRetryMax
abbrev pub lock_retry_max : ℕ
lock_retry_max = 3

module _ (sha256 : List ℕ → String) (io : Io) where
  -- hashHex(cur) == want, for a file that may not be there.
  abbrev pub has_digest : String → Option (List ℕ) → Bool
  has_digest want none = false
  has_digest want (some bytes) = sha256 bytes == want

  -- The retry loop, with the attempts left and the number of this one: the error that it ends with.
  unfoldable pub acquire : ℕ → ℕ → Option String → Option String
  acquire zero k last = last
  acquire (suc left) k last = elim (io.lock k) [
    | locked ↦ none
    | refused e ↦ some e
    | timed_out e ↦
        let next = acquire left (k + 1) (some e) in
        if io.cancelled k then some "context canceled" else next
  ]

  -- restoreBackup, whose error is dropped, where there is a backup.
  unfoldable pub restore_from : String → Disk → String → Option (List ℕ) → Disk
  restore_from bp disk path none = disk
  restore_from bp disk path (some bytes) =
      if io.restore_fails then disk else delete bp (insert path bytes disk)

  unfoldable pub restore : Option String → Disk → String → Disk
  unfolding restore_from
  restore none disk path = disk
  restore (some bp) disk path = restore_from bp disk path (lookup bp disk)

  abbrev pub discard : Option String → Disk → Disk
  discard none disk = disk
  discard (some bp) disk = delete bp disk

  -- The write and its verification.
  unfoldable pub write_verified :
      String → List ℕ → String → Option String → Disk → Disk × Option String
  unfolding restore
  write_verified want raw path backup disk =
      if io.write_fails
      then (restore backup disk path, some "apply failed")
      else let written = insert path (io.settles raw) disk in
        if io.reread_fails
        then (restore backup written path, some "re-read after write")
        else if has_digest want (lookup path written)
        then (discard backup written, none)
        else (restore backup written path, some "applied file did not match expected fingerprint")

  -- The backup of a file that os.Stat finds, then the write.
  unfoldable pub write_backed :
      String → List ℕ → String → Option (List ℕ) → Disk → Disk × Option String
  unfolding write_verified
  write_backed want raw path none disk = write_verified want raw path none disk
  write_backed want raw path (some old) disk =
      if io.backup_fails
      then (disk, some "backup failed")
      else write_verified want raw path (some io.backup_path) (insert io.backup_path old disk)

  abbrev pub unless_locked_out : Option String → Disk → Disk × Option String → Disk × Option String
  unless_locked_out none disk rest = rest
  unless_locked_out (some e) disk rest = (disk, some e)

  -- The file that is there, with the digest wanted, is left alone.
  unfoldable pub write_one : String → List ℕ → String → Disk → Disk × Option String
  unfolding acquire write_backed
  write_one want raw path disk =
      if has_digest want (if io.first_read_fails then none else lookup path disk)
      then (disk, none)
      else unless_locked_out (acquire lock_retry_max 0 none) disk
          (write_backed want raw path (if io.stat_fails then none else lookup path disk) disk)

  abbrev pub ack_of : TruthPush → Option String → TruthAck
  ack_of push none = record {
    profile = push.profile;
    account = "";
    fingerprint = push.fingerprint;
    is_ok = true;
    reason = "";
  }
  ack_of push (some e) = record {
    profile = push.profile;
    account = "";
    fingerprint = push.fingerprint;
    is_ok = false;
    reason = e;
  }

  unfoldable pub apply_decoded : TruthPush → String → Disk → Option (List ℕ) → Disk × TruthAck
  unfolding write_one
  apply_decoded push path disk none = (disk, ack_of push (some "invalid raw_b64"))
  apply_decoded push path disk (some raw) =
      if path == ""
      then (disk, ack_of push (some "candidate path is empty"))
      else let (after, error) = write_one push.fingerprint raw path disk in
        (after, ack_of push error)

  -- applyTruth. Its target is candidatePath, whatever the path of the push.
  unfoldable pub apply_truth : Base64 → TruthPush → String → Disk → Disk × TruthAck
  unfolding apply_decoded
  apply_truth b64 push path disk = apply_decoded push path disk (b64.decode push.raw_b64)
