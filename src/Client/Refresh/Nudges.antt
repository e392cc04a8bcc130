-- ===== src/Client/Refresh/Nudges.antt =====
-- The cooldown of the refresh attempts (refresh.go), and which validations ask for one.
use pangaea.Prelude.{
  ℕ, ◌≡◌, ◌≤◌, ◌<◌, ◌+◌, refl, String, true, false, List, [], ◌∷◌, All, arith, eq_iff, Bool-cases,
  inl, inr, ◌⊎◌,
}
use pangaea.Formats.{Format, ok, expired}
use pangaea.Formats.Clock.{zero_time}
use pangaea.Formats.Ageing.{IsAgeing}
use pangaea.Client.Refresh.{
  Attempt, is_repeated, claim_refresh_attempt, granted, refresh_cooldown, should_refresh_nudge,
}

-- No claim is within the cooldown of an attempt for the same file and the same reason.
abbrev pub Apart : ℕ × String × String → ℕ × String × String → Type 0
Apart (t, f, r) (u, g, s) = (f ≡ g) → (r ≡ s) → t + refresh_cooldown ≤ u

-- Each grant is apart from the next.
abbrev pub Spaced : List (ℕ × String × String) → Type 0
Spaced [] = Unit
Spaced (c ∷ []) = Unit
Spaced (c ∷ d ∷ cs) = Apart c d × Spaced (d ∷ cs)

abbrev pub Follows : Attempt → List (ℕ × String × String) → Type 0
Follows last [] = Unit
Follows last (c ∷ cs) = Apart (last.at, last.fingerprint, last.reason) c

cons-Spaced :
    (last : Attempt) (l : List (ℕ × String × String))
    → Follows last l
    → Spaced l
    → Spaced ((last.at, last.fingerprint, last.reason) ∷ l)
cons-Spaced last [] f s = tt
cons-Spaced last (c ∷ cs) f s = (f, s)

granted-Apart :
    (last : Attempt) (t : ℕ) (f r : String)
    → zero_time < last.at
    → is_repeated t f r last ≡ false
    → Apart (last.at, last.fingerprint, last.reason) (t, f, r)
unfolding is_repeated
granted-Apart last t f r z h =
    λ ef er. ground (arith, eq_iff last.fingerprint f, eq_iff last.reason r)

Follows-Spaced :
    (claims : List (ℕ × String × String)) (last : Attempt)
    → All (λ c. zero_time < c.0) claims
    → (zero_time < last.at → Follows last (granted claims last)) × Spaced (granted claims last)
unfolding granted claim_refresh_attempt
Follows-Spaced [] last h = (λ z. tt, tt)
Follows-Spaced ((t, f, r) ∷ claims) last h = elim (Bool-cases (is_repeated t f r last)) [
  | inl e ↦ rw e (Follows-Spaced claims last h.1)
  | inr e ↦
      let next : Attempt = record { at = t; fingerprint = f; reason = r } in
      let rest = Follows-Spaced claims next h.1 in
      rw e (
        (λ z. granted-Apart last t f r z e),
        cons-Spaced next (granted claims next) (rest.0 h.0) rest.1,
      )
]

-- Of the attempts that are granted after the year 1, each is granted no sooner than the cooldown of
-- two hours after the one before it, if both are for the same file and reason.
pub granted-Spaced :
    (claims : List (ℕ × String × String)) (last : Attempt)
    → All (λ c. zero_time < c.0) claims
    → Spaced (granted claims last)
granted-Spaced claims last h = (Follows-Spaced claims last h).1

-- Where a format ages, a file whose validation, ok or expired, asks for a nudge asks for one at every
-- later instant at which its validation is expired, or is ok before the expiry.
pub nudge_lasts :
    (f : Format) (age : IsAgeing f) (s : f.Snapshot) (now later : ℕ)
    → now ≤ later
    → (f.validate s later).status ≡ ok ⊎ ((f.validate s later).status ≡ expired)
    → ((f.validate s later).status ≡ ok → later < f.expires_at s)
    → (f.validate s now).status ≡ ok ⊎ ((f.validate s now).status ≡ expired)
    → should_refresh_nudge now (f.expires_at s) (f.validate s now).status ≡ true
    → should_refresh_nudge later (f.expires_at s) (f.validate s later).status ≡ true
unfolding should_refresh_nudge
nudge_lasts f age s now later le (inr e) on w h = rw e refl
nudge_lasts f age s now later le (inl e) on (inr d) h = cc (age.stays_expired s now later le d, e)
nudge_lasts f age s now later le (inl e) on (inl d) h =
    let g = rw d at h in let b = on e in rw e (ground arith)
