-- ===== src/Formats/Ageing.antt =====
-- Validate and Compare of the three formats (pkg/formats): how a snapshot ages.
use pangaea.Prelude.{ℕ, ◌≤◌, ◌≡◌, String, Option, some, List, arith}
use pangaea.Formats.{Format, Order, ok, expired}
use pangaea.Formats.Clock.{zero_time}
use pangaea.Formats.Jwt.{Jwt}
use pangaea.Formats.Claude
use pangaea.Formats.Gemini
use pangaea.Formats.Codex

-- An expired snapshot stays expired, an ok one was ok before, and at any time since the year 1 a
-- snapshot that Compare puts above an ok one is ok: choosing the newest loses nothing.
pub record IsAgeing (f : Format) : Type 0 where
  pub stays_expired :
      (s : f.Snapshot) (now later : ℕ)
      → now ≤ later
      → (f.validate s now).status ≡ expired
      → (f.validate s later).status ≡ expired
  pub newer_is_ok :
      (strategy : String) (a b : f.Snapshot) (now : ℕ)
      → zero_time ≤ now
      → f.compare strategy a b ≡ some Order.newer
      → (f.validate b now).status ≡ ok
      → (f.validate a now).status ≡ ok

module _ (sha256 : List ℕ → String) where
  -- Claude's credentials that are expired stay so, and at any time since the year 1 a snapshot
  -- that Compare puts above an ok one is ok.
  pub claude-IsAgeing :
      (unmarshal : List ℕ → Option Claude.OauthBlock) → IsAgeing (Claude.format unmarshal sha256)
  unfolding Claude.compare Claude.validate
  claude-IsAgeing unmarshal = record {
    stays_expired = λ s now later le h. ground arith;
    newer_is_ok = λ strategy a b now le h k. ground arith;
  }

  -- Gemini's credentials that are expired stay so, and at any time since the year 1 a snapshot
  -- that Compare puts above an ok one is ok.
  pub gemini-IsAgeing :
      (unmarshal : List ℕ → Option Gemini.FileShape) (jwt : Jwt)
      → IsAgeing (Gemini.format unmarshal sha256 jwt)
  unfolding Gemini.compare Gemini.validate
  gemini-IsAgeing unmarshal jwt = record {
    stays_expired = λ s now later le h. ground arith;
    newer_is_ok = λ strategy a b now le h k. ground arith;
  }

  -- Codex's credentials that are expired stay so, and at any time since the year 1 a snapshot that
  -- Compare puts above an ok one is ok.
  pub codex-IsAgeing :
      (unmarshal : List ℕ → Option Codex.FileShape) (jwt : Jwt)
      → IsAgeing (Codex.format unmarshal sha256 jwt)
  unfolding Codex.compare Codex.validate
  codex-IsAgeing unmarshal jwt = record {
    stays_expired = λ s now later le h. ground arith;
    newer_is_ok = λ strategy a b now le h k. ground arith;
  }
