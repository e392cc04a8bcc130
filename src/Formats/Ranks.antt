-- ===== src/Formats/Ranks.antt =====
-- The three formats (pkg/formats) keep the contract of Compare.
use pangaea.Prelude.{
  ℕ, ◌≤◌, ◌<◌, ◌≡◌, refl, sym, ◌∙◌, ◌⊎◌, ◌↔◌, inl, inr, String, true, Option, none, some, List, [],
  ◌∷◌, contains, arith, eq_refl, eq_iff, ◌==◌, if◌then◌else◌,
}
use pangaea.Formats.{Format, Order, IsLe, IsFormat}
use pangaea.Formats.Ordering.{compare_times}
use pangaea.Formats.Jwt.{Jwt}
use pangaea.Formats.Claude
use pangaea.Formats.Gemini
use pangaea.Formats.Codex

-- Two instants in turn: the second breaks a tie of the first.
abbrev pub rank : ℕ × ℕ → ℕ × ℕ → Order
rank a b = compare_times a.0 b.0 (compare_times a.1 b.1 Order.same)

-- The order of the instants that a rank reads off.
AtMostRank : ℕ × ℕ → ℕ × ℕ → Type 0
AtMostRank a b = (a.0 < b.0) ⊎ ((a.0 ≡ b.0) × (a.1 ≤ b.1))

IsLe-rank : (a b : ℕ × ℕ) → AtMostRank a b → IsLe (some (rank a b))
unfolding AtMostRank
IsLe-rank a b (inl h) = ground arith
IsLe-rank a b (inr h) = ground arith

rank-IsLe : (a b : ℕ × ℕ) → IsLe (some (rank a b)) → AtMostRank a b
unfolding AtMostRank
rank-IsLe a b h = ground arith

rank_trans :
    (a b c : ℕ × ℕ) → IsLe (some (rank a b)) → IsLe (some (rank b c)) → IsLe (some (rank a c))
unfolding AtMostRank
rank_trans a b c h k = IsLe-rank a c (chain (rank-IsLe a b h) (rank-IsLe b c k))
  where
    chain : AtMostRank a b → AtMostRank b c → AtMostRank a c
    chain (inl p) (inl q) = inl (omega arith)
    chain (inl p) (inr q) = inl (omega arith)
    chain (inr p) (inl q) = inl (omega arith)
    chain (inr p) (inr q) = inr (omega arith, omega arith)

rank_flip : (a b : ℕ × ℕ) → some (rank a b) ≡ some Order.newer → IsLe (some (rank b a))
rank_flip a b h = ground arith

module _ (f : Format) (s0 : String) (at : f.Snapshot → ℕ × ℕ) (one : f.strategies ≡ s0 ∷ [])
    (by_rank : (s : String) (a b : f.Snapshot)
      → f.compare s a b ≡ (if s == s0 then some (rank (at a) (at b)) else none)) where
  ranked :
      (s : String) (a b : f.Snapshot)
      → contains f.strategies s ≡ true
      → f.compare s a b ≡ some (rank (at a) (at b))
  ranked s a b k = let e : s ≡ s0 = only s (rw one at k) in by_rank s a b ∙ rw e (rw (eq_refl s0))
    where
      only : (s : String) → contains (s0 ∷ []) s ≡ true → s ≡ s0
      only s k = ground (arith, eq_iff s0 s)

  by_rank-IsFormat : IsFormat f
  by_rank-IsFormat = record {
    compare_total = λ s a b k e. cc (ranked s a b k, e);
    compare_refl = λ s a k.
        rw (ranked s a a k)
          (IsLe-rank (at a) (at a) (unfold AtMostRank in inr (refl, omega arith)));
    compare_trans = λ s a b c k h g.
        rw (ranked s a c k)
          (rank_trans (at a) (at b) (at c) (rw (ranked s a b k) at h) (rw (ranked s b c k) at g));
    compare_flip =
        λ s a b k h. rw (ranked s b a k) (rank_flip (at a) (at b) (sym (ranked s a b k) ∙ h));
    strategies_some = (s0, rw one (rw (eq_refl s0)));
  }

module _ (sha256 : List ℕ → String) where
  -- Under a strategy that the format of Claude's credentials lists, and it lists one, Compare
  -- never panics and is a total preorder.
  pub claude-IsFormat :
      (unmarshal : List ℕ → Option Claude.OauthBlock) → IsFormat (Claude.format unmarshal sha256)
  unfolding Claude.compare
  claude-IsFormat unmarshal =
      by_rank-IsFormat _ Claude.strategy_expires_at_max (λ s. (s.expires_at, 0)) refl
        (λ s a b. refl)

  -- Under a strategy that the format of Gemini's credentials lists, and it lists one, Compare
  -- never panics and is a total preorder.
  pub gemini-IsFormat :
      (unmarshal : List ℕ → Option Gemini.FileShape) (jwt : Jwt)
      → IsFormat (Gemini.format unmarshal sha256 jwt)
  unfolding Gemini.compare
  gemini-IsFormat unmarshal jwt =
      by_rank-IsFormat _ Gemini.strategy_expiry_date_max (λ s. (s.expiry_date, 0)) refl
        (λ s a b. refl)

  -- Under a strategy that the format of Codex's credentials lists, and it lists one, Compare never
  -- panics and is a total preorder: a file is at most another exactly where its expiry is the
  -- earlier one, or where the expiries are equal and its last refresh is not the later one.
  pub codex-IsFormat :
      (unmarshal : List ℕ → Option Codex.FileShape) (jwt : Jwt)
      → IsFormat (Codex.format unmarshal sha256 jwt)
        × ((a b : Codex.Snapshot)
            → IsLe (Codex.compare Codex.strategy_jwt_exp_max a b) ↔ (
                (a.jwt_exp < b.jwt_exp)
                ⊎ ((a.jwt_exp ≡ b.jwt_exp) × (a.last_refresh ≤ b.last_refresh))))
  unfolding Codex.compare AtMostRank
  codex-IsFormat unmarshal jwt = (
    by_rank-IsFormat _ Codex.strategy_jwt_exp_max (λ s. (s.jwt_exp, s.last_refresh)) refl
        (λ s a b. refl),
    λ a b. (
      rank-IsLe (a.jwt_exp, a.last_refresh) (b.jwt_exp, b.last_refresh),
      IsLe-rank (a.jwt_exp, a.last_refresh) (b.jwt_exp, b.last_refresh),
    ),
  )
