-- ===== src/Client/Reconnect.antt =====
-- internal/client/conn.go: the waits of reconnectLoop before it dials again. A time.Duration is a word
-- of 64 bits, and rand.Int63n is a parameter:
-- for each round and bound, what it draws.
pub mod Delays
use Prim.Native.Nat.{◌%◌, ◌^◌}
use pangaea.Prelude.{
  ℕ, ◌+◌, ◌-◌, ◌*◌, zero, suc, Bool, true, false, ◌||◌, not, ltb, leb, Option, none, some,
  if◌then◌else◌, List, [], ◌∷◌,
}
use pangaea.Config.ClientFile.Durations.{
  ReconnectConfig, reconnect_initial, reconnect_jitter, reconnect_max,
}

-- d < 0, d <= 0 and a < b on signed words
abbrev pub is_negative64 : ℕ → Bool
is_negative64 d = leb (2 ^ 63) d

abbrev pub is_nonpositive64 : ℕ → Bool
is_nonpositive64 d = leb d 0 || is_negative64 d

abbrev pub less64 : ℕ → ℕ → Bool
less64 a b = ltb ((a + 2 ^ 63) % 2 ^ 64) ((b + 2 ^ 63) % 2 ^ 64)

-- common.ReconnectTLSFailure
abbrev pub reconnect_tls_failure : ℕ
reconnect_tls_failure = 60000000000

-- for i := 1; i < attempt && delay < max; i++ { delay *= 2 }, with the rounds that are left
unfoldable pub grow : ℕ → ℕ → ℕ → ℕ
grow zero max delay = delay
grow (suc left) max delay =
    let rest = grow left max (delay * 2 % 2 ^ 64) in if less64 delay max then rest else delay

-- if delay > max { delay = max }
unfoldable pub clamp : ℕ → ℕ → ℕ
clamp max delay = if less64 max delay then max else delay

-- if delay < 0 { delay = 0 }
unfoldable pub at_least_zero : ℕ → ℕ
at_least_zero d = if is_negative64 d then 0 else d

-- The part of backoffDelay under if jitter > 0. Int63n panics on a bound that is not positive.
unfoldable pub jittered : (ℕ → ℕ) → ℕ → ℕ → Option ℕ
unfolding at_least_zero
jittered int63n jitter delay =
    let bound = jitter * 2 % 2 ^ 64 in
    if is_nonpositive64 jitter
    then some delay
    else if is_nonpositive64 bound
    then none
    else some (at_least_zero ((delay + (int63n bound + (2 ^ 64 - jitter))) % 2 ^ 64))

-- if initial <= 0 { initial = common.ReconnectInitial }
abbrev pub positive_or : ℕ → ℕ → ℕ
positive_or d n = if is_nonpositive64 n then d else n

-- backoffDelay, with whether the error is a TLS handshake's. None is a panic.
unfoldable pub backoff_delay : (ℕ → ℕ) → ReconnectConfig → ℕ → Bool → Option ℕ
unfolding grow clamp jittered
backoff_delay int63n r attempt true = some reconnect_tls_failure
backoff_delay int63n r attempt false =
    let initial = positive_or reconnect_initial r.initial_delay in
    let max = positive_or reconnect_max r.max_delay in
    jittered int63n r.jitter (clamp max (grow (attempt - 1) max initial))

-- What a round of reconnectLoop brings: a dial that fails, or a session that ends, with whether its
-- error is a TLS handshake's.
pub data Round : Type 0 where
  dial_failed : Bool → Round
  session_ended : Bool → Round

-- The attempt that the wait after a round is for: attempt++, or attempt = 1 after a session.
abbrev pub next_attempt : ℕ → Round → ℕ
next_attempt attempt (dial_failed tls) = attempt + 1
next_attempt attempt (session_ended tls) = 1

abbrev pub is_tls : Round → Bool
is_tls (dial_failed tls) = tls
is_tls (session_ended tls) = tls

-- A panic is the last thing that happens.
abbrev pub unless_panic : Option ℕ → List (Option ℕ) → List (Option ℕ)
unless_panic none rest = none ∷ []
unless_panic (some d) rest = some d ∷ rest

-- reconnectLoop: the waits of the rounds that come before the context is cancelled, from the number
-- of the round on, which tells the draws of rand.Int63n apart.
unfoldable pub reconnect_loop : (ℕ → ℕ → ℕ) → ReconnectConfig → ℕ → ℕ → List Round → List (Option ℕ)
unfolding backoff_delay
reconnect_loop int63n r round attempt [] = []
reconnect_loop int63n r round attempt (o ∷ os) =
    let rest = reconnect_loop int63n r (suc round) (next_attempt attempt o) os in
    unless_panic (backoff_delay (int63n round) r (next_attempt attempt o) (is_tls o)) rest
