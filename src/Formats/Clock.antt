-- ===== src/Formats/Clock.antt =====
-- time.Time as the formats use it: an instant is a number of nanoseconds, counted from 2^63 seconds
-- before the Unix epoch. Go's own representation wraps in the last 62135596800 seconds before
-- 2^63 seconds after the epoch; these instants do not.
use pangaea.Prelude.{ℤ, pos, negsuc, ℕ, suc, ◌+◌, ◌-◌, ◌*◌, Bool, ltb, eqb}
use Prim.Native.Nat.{◌^◌}

abbrev pub second : ℕ
second = 1_000_000_000

abbrev pub minute : ℕ
minute = 60 * second

abbrev pub epoch : ℕ
epoch = 2 ^ 63 * second

-- time.Time{}, the first instant of the year 1.
abbrev pub zero_time : ℕ
zero_time = epoch - 62_135_596_800 * second

-- t.IsZero()
abbrev pub is_zero : ℕ → Bool
is_zero t = eqb t zero_time

-- t.Before(u), t.After(u)
abbrev pub before : ℕ → ℕ → Bool
before t u = ltb t u

abbrev pub after : ℕ → ℕ → Bool
after t u = ltb u t

-- time.UnixMilli and time.Unix(s, 0), on an int64.
unfoldable pub unix_milli : ℤ → ℕ
unix_milli (pos n) = epoch + n * 1_000_000
unix_milli (negsuc n) = epoch - suc n * 1_000_000

unfoldable pub unix : ℤ → ℕ
unix (pos n) = epoch + n * second
unix (negsuc n) = epoch - suc n * second
