-- ===== src/Client/Refresh.antt =====
-- internal/client/refresh.go: when an agent nudges the provider's program to refresh a file.
pub mod Nudges
use pangaea.Prelude.{
  ℕ, ◌+◌, ◌-◌, ◌*◌, String, Bool, true, false, not, ◌&&◌, ◌||◌, List, [], ◌∷◌, ltb, leb, ◌==◌,
  if◌then◌else◌,
}
use pangaea.Formats.{ValidationStatus, ok, expired, revoked}
use pangaea.Formats.Clock.{minute, second, is_zero, after}

abbrev pub refresh_near_expiry : ℕ
refresh_near_expiry = 30 * minute

abbrev pub refresh_cooldown : ℕ
refresh_cooldown = 120 * minute

unfoldable pub supports_refresh_nudge : String → Bool
supports_refresh_nudge name =
    name == "claude-credentials-json-format"
    || name == "codex-auth-json-format"
    || name == "gemini-oauth-creds-json-format"

-- shouldRefreshNudge, for the expiry of the snapshot and the status of its validation.
unfoldable pub should_refresh_nudge : ℕ → ℕ → ValidationStatus → Bool
should_refresh_nudge now exp expired = true
should_refresh_nudge now exp revoked = true
should_refresh_nudge now exp ok =
    if is_zero exp then false else after exp now && leb (exp - now) refresh_near_expiry
should_refresh_nudge now exp _ = false

-- The agent's record of its last attempt.
pub record Attempt : Type 0 where
  pub at : ℕ
  pub fingerprint : String
  pub reason : String

unfoldable pub is_repeated : ℕ → String → String → Attempt → Bool
is_repeated now fingerprint reason last =
    last.fingerprint == fingerprint
    && last.reason == reason
    && not (is_zero last.at)
    && ltb now (last.at + refresh_cooldown)

-- claimRefreshAttempt: whether the attempt is granted, and the record after it.
unfoldable pub claim_refresh_attempt : ℕ → String → String → Attempt → Bool × Attempt
unfolding is_repeated
claim_refresh_attempt now fingerprint reason last =
    if is_repeated now fingerprint reason last
    then (false, last)
    else (true, record { at = now; fingerprint = fingerprint; reason = reason })

-- The attempts that are granted, over a list of claims: an instant, a fingerprint and a reason each.
unfoldable pub granted : List (ℕ × String × String) → Attempt → List (ℕ × String × String)
unfolding claim_refresh_attempt
granted [] last = []
granted ((now, fingerprint, reason) ∷ claims) last =
    let (is_granted, next) = claim_refresh_attempt now fingerprint reason last in
    let rest = granted claims next in if is_granted then (now, fingerprint, reason) ∷ rest else rest
