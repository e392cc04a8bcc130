-- ===== src/Examples/Agent.antt =====
-- The agent's writes and its refresh attempts at concrete inputs.
use pangaea.Prelude.{
  ℕ, ◌≡◌, ◌≢◌, ◌+◌, ◌<◌, refl, String, true, false, List, [], ◌∷◌, lookup, insert, delete, arith,
  eq_iff,
}
use pangaea.Formats.Clock.{epoch, zero_time, minute, unix_milli}
use pangaea.Formats.{ok}
use pangaea.Formats.Claude
use pangaea.Transport.{TruthPush}
use pangaea.Client.Apply.{
  Io, Disk, Lock, write_one, apply_truth, acquire, write_backed, write_verified, restore,
  apply_decoded,
}
use pangaea.Client.Apply.Writes.{
  Holds, Writes, Agree, write_one-Writes, ok_ack_is_true, account_not_compared,
}
use pangaea.Client.Refresh.{Attempt, granted, should_refresh_nudge}
use pangaea.Client.Refresh.Nudges.{Spaced, granted-Spaced}
use pangaea.Examples.{encode, decode, digest, unary, claude, file_of}

abbrev pub io : Io
io = record {
  first_read_fails = false;
  lock = λ k. Lock.locked;
  cancelled = λ k. false;
  backup_path = "/c.bak.1";
  stat_fails = false;
  backup_fails = false;
  write_fails = false;
  settles = λ bytes. bytes;
  reread_fails = false;
  restore_fails = false;
}

abbrev pub disk : Disk
disk = ("/c", 2 ∷ []) ∷ []

abbrev pub truth : TruthPush
truth = record {
  profile = "p";
  account = "acc";
  format = Claude.format_name;
  fingerprint = digest (3 ∷ []);
  raw_b64 = encode (3 ∷ []);
  target_path = "/c";
  issued_at = epoch;
  summary = "";
}

abbrev foreign : TruthPush
foreign = record truth { account = "other" }

pub fresh : io.backup_path ≢ "/c"
fresh e = cc ((eq_iff "/c.bak.1" "/c").1 e)

write_one-Writes_example :
    Writes digest io "/c" truth.fingerprint
      (lookup "/c" disk)
      (write_one digest io truth.fingerprint (3 ∷ []) "/c" disk)
write_one-Writes_example = write_one-Writes digest io "/c" fresh truth.fingerprint (3 ∷ []) disk

pub applied_ok : (apply_truth digest io unary truth "/c" disk).1.is_ok ≡ true
unfolding apply_truth apply_decoded write_one acquire write_backed write_verified restore lookup
    insert delete encode decode
applied_ok = refl

ok_ack_is_true_example :
    Holds digest io "/c" truth.fingerprint (apply_truth digest io unary truth "/c" disk).0
ok_ack_is_true_example = ok_ack_is_true digest io "/c" fresh unary truth disk applied_ok

account_not_compared_example :
    Agree
      (apply_truth digest io unary foreign "/c" disk)
      (apply_truth digest io unary truth "/c" disk)
account_not_compared_example =
    account_not_compared digest io unary truth foreign "/c" disk refl refl

abbrev never : Attempt
never = record { at = zero_time; fingerprint = ""; reason = "" }

abbrev claims : List (ℕ × String × String)
claims = (epoch, "f", "r") ∷ (epoch + minute, "f", "r") ∷ []

granted-Spaced_example : Spaced (granted claims never)
granted-Spaced_example = granted-Spaced claims never (omega arith, (omega arith, tt))

nudges :
    ((claude.validate (file_of 3) epoch).status ≡ ok)
    × (should_refresh_nudge epoch (file_of 3).expires_at (claude.validate (file_of 3) epoch).status
        ≡ true)
    × (epoch < (file_of 3).expires_at)
unfolding Claude.validate Claude.snapshot_of unix_milli should_refresh_nudge
nudges = (refl, refl, omega arith)
