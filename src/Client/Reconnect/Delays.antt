-- ===== src/Client/Reconnect/Delays.antt =====
-- The delays of backoffDelay (conn.go), under a client.yaml that LoadClient accepts.
use Prim.Native.Nat.{◌%◌, ◌^◌, min}
use native.Mathlib.Nat.{pow-succ', mul_assoc, mul-one, mul-le-mul_left, one-le-pow}
use pangaea.Prelude.{
  ℕ, ◌≡◌, refl, ◌<◌, ◌≤◌, ◌+◌, ◌-◌, ◌*◌, zero, suc, Bool, true, false, ltb, ltb→lt, ltb-false,
  Option, some, arith, List, [], ◌∷◌, done, Bool-cases, inl, inr,
}
use pangaea.Config.Paths.{Env}
use pangaea.Config.ClientFile.Durations.{ReconnectConfig, reconnect_initial, reconnect_max}
use pangaea.Config.ClientFile.{ClientConfig, RawClientConfig, load_client}
use pangaea.Config.ClientFile.Connects.{load_client-IsClient}
use pangaea.Client.Reconnect.{
  Round, next_attempt, is_tls, reconnect_loop, is_nonpositive64, less64, grow, clamp, at_least_zero,
  jittered, positive_or, backoff_delay, reconnect_tls_failure,
}

less64_small : (a b : ℕ) → a < 2 ^ 63 → b < 2 ^ 63 → less64 a b ≡ ltb a b
less64_small a b ha hb = ground (arith)

clamp_small : (max d : ℕ) → max < 2 ^ 63 → d < 2 ^ 63 → clamp max d ≡ min d max
unfolding clamp
clamp_small max d hm hd = rw (less64_small max d hm hd) (ground (arith))

pow_suc : (d k : ℕ) → d * 2 ^ (suc k) ≡ d * 2 * 2 ^ k
pow_suc d k = rw (pow-succ' 2 k, mul_assoc d 2 (2 ^ k)) refl

clamp-grow :
    (k max d : ℕ) → max < 2 ^ 62 → d < 2 ^ 63 → clamp max (grow k max d) ≡ min (d * 2 ^ k) max
unfolding grow
clamp-grow zero max d hm hd = rw (mul-one d) (clamp_small max d (omega arith) hd)
clamp-grow (suc k) max d hm hd =
    rw (less64_small d max hd (omega arith)) (elim (Bool-cases (ltb d max)) [
      | inl e ↦
          let below : d < max = ltb→lt d max e in
          let wraps : d * 2 % 2 ^ 64 ≡ d * 2 = omega arith in
          rw (e, wraps, pow_suc d k) (clamp-grow k max (d * 2) hm (omega arith))
      | inr e ↦
          let above : max ≤ d = ltb-false d max e in
          let more : d * 1 ≤ d * 2 ^ suc k =
            mul-le-mul_left d (one-le-pow (suc k) 2 (omega arith)) in
          let reached : clamp max d ≡ max = rw (clamp_small max d (omega arith) hd) (omega arith) in
          rw (e, reached) (omega arith)
    ])

jittered_close :
    (int63n : ℕ → ℕ) (jitter base : ℕ)
    → ((n : ℕ) → 0 < n → int63n n < n)
    → 0 < jitter
    → jitter < 2 ^ 62
    → base < 2 ^ 62
    → (d : ℕ) × (jittered int63n jitter base ≡ some d) × (d < base + jitter) × (base ≤ d + jitter)
unfolding jittered at_least_zero
jittered_close int63n jitter base law pj hj hb =
    let fits : jitter * 2 % 2 ^ 64 ≡ jitter * 2 = omega arith in
    let drawn : int63n (jitter * 2) < jitter * 2 = law (jitter * 2) (omega arith) in
    let d : ℕ = at_least_zero ((base + (int63n (jitter * 2) + (2 ^ 64 - jitter))) % 2 ^ 64) in
    let step1 : is_nonpositive64 jitter ≡ false = ground (arith) in
    let step2 : is_nonpositive64 (jitter * 2) ≡ false = ground (arith) in
    (d, (rw (fits, step1, step2) refl), ground (arith), ground (arith))

-- The wait of an attempt before the jitter: it doubles from the first, up to the greatest.
abbrev pub base_delay : ReconnectConfig → ℕ → ℕ
base_delay r attempt = min (r.initial_delay * 2 ^ (attempt - 1)) r.max_delay

-- A wait that is the base of its attempt up to the jitter, or a minute after a TLS failure.
abbrev pub Near : ReconnectConfig → ℕ → Bool → ℕ → Type 0
Near r attempt true d = d ≡ 60000000000
Near r attempt false d =
    (d < base_delay r attempt + r.jitter) × (base_delay r attempt ≤ d + r.jitter)

-- A wait for every round, near the base of its attempt.
abbrev pub Waits : ReconnectConfig → ℕ → List Round → List (Option ℕ) → Type 0
Waits r attempt [] ws = ws ≡ []
Waits r attempt (o ∷ os) ws =
    (d : ℕ) × (rest : List (Option ℕ)) × (ws ≡ some d ∷ rest)
    × Near r (next_attempt attempt o) (is_tls o) d
    × Waits r (next_attempt attempt o) os rest

positive_or_keeps : (d n : ℕ) → 0 < n → n < 2 ^ 63 → positive_or d n ≡ n
positive_or_keeps d n h small = ground (arith)

module _ (int63n : ℕ → ℕ → ℕ) (r : ReconnectConfig)
    (law : (round n : ℕ) → 0 < n → int63n round n < n) (initial : 0 < r.initial_delay)
    (jitter : 0 < r.jitter) (max : 0 < r.max_delay) (small_initial : r.initial_delay < 2 ^ 63)
    (small_max : r.max_delay < 2 ^ 62) (small_jitter : r.jitter < 2 ^ 62) where
  backs_off :
      (round attempt : ℕ) (tls : Bool)
      → (d : ℕ) × (backoff_delay (int63n round) r attempt tls ≡ some d) × Near r attempt tls d
  unfolding backoff_delay
  backs_off round attempt true = (reconnect_tls_failure, refl, refl)
  backs_off round attempt false =
      let (d, e, below, above) =
        jittered_close (int63n round) r.jitter (base_delay r attempt) (law round) jitter
          small_jitter (omega arith) in
      let base : clamp r.max_delay (grow (attempt - 1) r.max_delay r.initial_delay)
          ≡ base_delay r attempt =
        clamp-grow (attempt - 1) r.max_delay r.initial_delay small_max small_initial in
      let own_first = positive_or_keeps reconnect_initial r.initial_delay initial small_initial in
      let own_max = positive_or_keeps reconnect_max r.max_delay max (omega arith) in
      (d, (rw (own_first, own_max, base) e), (below, above))

  pub reconnect_loop-Waits :
      (round attempt : ℕ) (os : List Round)
      → Waits r attempt os (reconnect_loop int63n r round attempt os)
  unfolding reconnect_loop
  reconnect_loop-Waits round attempt [] = refl
  reconnect_loop-Waits round attempt (o ∷ os) =
      let (d, e, near) = backs_off round (next_attempt attempt o) (is_tls o) in
      (
        d,
        reconnect_loop int63n r (suc round) (next_attempt attempt o) os,
        rw e refl,
        near,
        reconnect_loop-Waits (suc round) (next_attempt attempt o) os,
      )

-- The loop of an agent whose client.yaml LoadClient accepts never panics, and its wait after a round
-- is a minute after a failed TLS handshake, or else differs by at most the jitter from the first
-- wait doubled attempt - 1 times, up to the greatest wait, where attempt counts the failed dials and
-- is one again when a session ends. The condition is that the greatest wait and the jitter of the
-- file are below 2^62 nanoseconds and the first wait fits a time.Duration, and that rand.Int63n
-- draws in every round a number below its bound.
pub loaded-Waits :
    (env : Env) (decode : List ℕ → Option RawClientConfig) (raw : List ℕ) (c : ClientConfig)
    → load_client env decode (done raw) ≡ done c
    → c.reconnect.initial_delay < 2 ^ 63
    → c.reconnect.max_delay < 2 ^ 62
    → c.reconnect.jitter < 2 ^ 62
    → (int63n : ℕ → ℕ → ℕ) → ((round n : ℕ) → 0 < n → int63n round n < n)
    → (os : List Round) → Waits c.reconnect 0 os (reconnect_loop int63n c.reconnect 0 0 os)
loaded-Waits env decode raw c h si sm sj int63n law os =
    let waits = (load_client-IsClient env decode raw c h).waits in
    reconnect_loop-Waits int63n c.reconnect law waits.initial waits.jitter waits.max si sm sj 0 0 os
