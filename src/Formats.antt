-- ===== src/Formats.antt =====
-- pkg/formats/format.go and result.go: what the server and the client ask of a credential format.
pub mod Clock
pub mod Ordering
pub mod Text
pub mod Jwt
pub mod Claude
pub mod Gemini
pub mod Codex
pub mod Ranks
pub mod Ageing
pub mod Accepting
use pangaea.Prelude.{ℕ, ◌≡◌, ◌≢◌, String, Bool, true, false, List, Option, none, some, contains}

-- result.go. `other` is any text that is none of the constants, the empty one included.
pub data ValidationStatus : Type 0 where
  ok expired revoked unreachable parse_error scope_warn : ValidationStatus
  other : String → ValidationStatus

pub record ValidationResult : Type 0 where
  pub status : ValidationStatus
  pub detail : String
  pub checked_at : ℕ

-- The sign of Compare's result: -1, 0 and +1.
pub data Order : Type 0 where
  older same newer : Order

-- `a` is not above `b`.
abbrev pub IsLe : Option Order → Type 0
IsLe (some Order.newer) = ⊥
IsLe (some _) = Unit
IsLe none = ⊥

-- The methods of `Format` that the mediator and the agent call, and what they promise. Parse fails
-- with `none`; Compare panics with `none`; Validate is called with LiveCheck false, at an instant.
pub record Format : Type 1 where
  pub Snapshot : Type 0
  pub name : String
  pub strategies : List String
  pub parse : List ℕ → Option Snapshot
  pub validate : Snapshot → ℕ → ValidationResult
  pub compare : String → Snapshot → Snapshot → Option Order
  pub raw : Snapshot → List ℕ
  pub fingerprint : Snapshot → String
  pub expires_at : Snapshot → ℕ

-- The contract of Compare under a strategy that the format lists: it never panics, and orders the
-- snapshots as a total preorder.
pub record IsFormat (f : Format) : Type 0 where
  pub compare_total :
      (s : String) (a b : f.Snapshot) → contains f.strategies s ≡ true → f.compare s a b ≢ none
  pub compare_refl :
      (s : String) (a : f.Snapshot) → contains f.strategies s ≡ true → IsLe (f.compare s a a)
  pub compare_trans :
      (s : String) (a b c : f.Snapshot)
      → contains f.strategies s ≡ true
      → IsLe (f.compare s a b)
      → IsLe (f.compare s b c)
      → IsLe (f.compare s a c)
  pub compare_flip :
      (s : String) (a b : f.Snapshot)
      → contains f.strategies s ≡ true
      → f.compare s a b ≡ some Order.newer
      → IsLe (f.compare s b a)
  pub strategies_some : (s : String) × (contains f.strategies s ≡ true)
