-- ===== src/Formats/Accepting.antt =====
-- What Parse of the three formats (pkg/formats) accepts, and that a byte-order mark is no matter.
use pangaea.Prelude.{
  ℕ, ◌≡◌, ◌≢◌, refl, subst, String, Option, none, some, List, [], ◌∷◌, Result, failed, done, unless,
  arith, eq_iff,
}
use pangaea.Formats.Text.{trim_bom, with_bom}
use pangaea.Formats.Jwt.{Jwt}
use pangaea.Formats.Claude
use pangaea.Formats.Gemini
use pangaea.Formats.Codex

unless_done :
    {S : Type 0} (o : Option String) (a s : S) → unless o a ≡ done s → (o ≡ none) × (a ≡ s)
unless_done none a s h = (refl, cc)
unless_done (some e) a s h = cc

-- The snapshot holds the file as it was read, its digest, and two tokens that are not empty.
abbrev pub Accepted : (List ℕ → String) → List ℕ → List ℕ → String → String → String → Type 0
Accepted sha256 file raw fingerprint access refresh =
    ((raw ≡ file) × (fingerprint ≡ sha256 file)) × ((access ≢ "") × (refresh ≢ ""))

-- Both fail with one error, or both yield snapshots that differ in what `P` allows.
abbrev pub Alike : {S : Type 0} → (S → S → Type 0) → Result String S → Result String S → Type 0
Alike P (failed e) (failed d) = e ≡ d
Alike P (done s) (done t) = P s t
Alike P (failed e) (done t) = ⊥
Alike P (done s) (failed d) = ⊥

unless-Alike :
    {S : Type 0} (P : S → S → Type 0) (o : Option String) (a b : S)
    → P a b
    → Alike P (unless o a) (unless o b)
unless-Alike P none a b h = h
unless-Alike P (some e) a b h = refl

module _ (sha256 : List ℕ → String) (unmarshal : List ℕ → Option Claude.OauthBlock) where
  claude_block-tokens :
      (f : Claude.OauthBlock)
      → Claude.missing unmarshal sha256 f ≡ none
      → (Claude.access_of f ≢ "") × (f.refresh_token ≢ "")
  unfolding Claude.missing
  claude_block-tokens f h = (
    λ e. ground (arith, eq_iff (Claude.access_of f) ""),
    λ e. ground (arith, eq_iff (f.refresh_token) ""),
  )

  claude_block :
      (file : List ℕ) (o : Option Claude.OauthBlock) (s : Claude.Snapshot)
      → Claude.parse_block unmarshal sha256 file o ≡ done s
      → Accepted sha256 file s.raw s.fingerprint s.access_token s.refresh_token
  unfolding Claude.parse_block Claude.snapshot_of
  claude_block file none s h = cc
  claude_block file (some f) s h =
      let (kept, same) =
        unless_done (Claude.missing unmarshal sha256 f) (Claude.snapshot_of unmarshal sha256 file f)
          s h in
      subst
        (λ (s : Claude.Snapshot).
          Accepted sha256 file s.raw s.fingerprint s.access_token s.refresh_token)
        same ((refl, refl), claude_block-tokens f kept)

  -- A snapshot of Claude's credentials that Parse accepts holds the file as it was read, the file's
  -- digest as its fingerprint, and two tokens that are not empty.
  pub claude_accepts :
      (file : List ℕ) (s : Claude.Snapshot)
      → Claude.parse unmarshal sha256 file ≡ done s
      → Accepted sha256 file s.raw s.fingerprint s.access_token s.refresh_token
  unfolding Claude.parse
  claude_accepts [] s h = cc
  claude_accepts (b ∷ bs) s h = claude_block (b ∷ bs) (unmarshal (trim_bom (b ∷ bs))) s h

  -- The snapshots differ in the raw bytes and the fingerprint alone.
  abbrev pub SameClaude : Claude.Snapshot → Claude.Snapshot → Type 0
  SameClaude s t = t ≡ record s { raw = t.raw; fingerprint = t.fingerprint }

  claude_block-Alike :
      (file other : List ℕ) (o : Option Claude.OauthBlock)
      → Alike SameClaude
          (Claude.parse_block unmarshal sha256 file o)
          (Claude.parse_block unmarshal sha256 other o)
  unfolding Claude.parse_block Claude.snapshot_of
  claude_block-Alike file other none = refl
  claude_block-Alike file other (some f) =
      unless-Alike SameClaude (Claude.missing unmarshal sha256 f)
        (Claude.snapshot_of unmarshal sha256 file f) (Claude.snapshot_of unmarshal sha256 other f)
        refl

  -- A byte-order mark before a file of Claude's credentials that has none changes nothing but the
  -- raw bytes and the fingerprint.
  pub claude_ignores_bom :
      (b : ℕ) (bs : List ℕ)
      → trim_bom (b ∷ bs) ≡ b ∷ bs
      → Alike SameClaude
          (Claude.parse unmarshal sha256 (b ∷ bs))
          (Claude.parse unmarshal sha256 (with_bom (b ∷ bs)))
  unfolding Claude.parse trim_bom
  claude_ignores_bom b bs h =
      rw h (claude_block-Alike (b ∷ bs) (with_bom (b ∷ bs)) (unmarshal (b ∷ bs)))

module _ (sha256 : List ℕ → String) (unmarshal : List ℕ → Option Gemini.FileShape) (jwt : Jwt) where
  gemini_shape-tokens :
      (f : Gemini.FileShape)
      → Gemini.missing unmarshal sha256 jwt f ≡ none
      → (Gemini.text_or_empty f.access_token ≢ "") × (Gemini.text_or_empty f.refresh_token ≢ "")
  unfolding Gemini.missing
  gemini_shape-tokens f h = (
    λ e. ground (arith, eq_iff (Gemini.text_or_empty f.access_token) ""),
    λ e. ground (arith, eq_iff (Gemini.text_or_empty f.refresh_token) ""),
  )

  gemini_shape :
      (file : List ℕ) (o : Option Gemini.FileShape) (s : Gemini.Snapshot)
      → Gemini.parse_shape unmarshal sha256 jwt file o ≡ done s
      → Accepted sha256 file s.raw s.fingerprint s.access_token s.refresh_token
  unfolding Gemini.parse_shape Gemini.snapshot_of
  gemini_shape file none s h = cc
  gemini_shape file (some f) s h =
      let (kept, same) =
        unless_done (Gemini.missing unmarshal sha256 jwt f)
          (Gemini.snapshot_of unmarshal sha256 jwt file f) s h in
      subst
        (λ (s : Gemini.Snapshot).
          Accepted sha256 file s.raw s.fingerprint s.access_token s.refresh_token)
        same ((refl, refl), gemini_shape-tokens f kept)

  -- A snapshot of Gemini's credentials that Parse accepts holds the file as it was read, the file's
  -- digest as its fingerprint, and two tokens that are not empty.
  pub gemini_accepts :
      (file : List ℕ) (s : Gemini.Snapshot)
      → Gemini.parse unmarshal sha256 jwt file ≡ done s
      → Accepted sha256 file s.raw s.fingerprint s.access_token s.refresh_token
  unfolding Gemini.parse
  gemini_accepts [] s h = cc
  gemini_accepts (b ∷ bs) s h = gemini_shape (b ∷ bs) (unmarshal (trim_bom (b ∷ bs))) s h

  -- The snapshots differ in the raw bytes and the fingerprint alone.
  abbrev pub SameGemini : Gemini.Snapshot → Gemini.Snapshot → Type 0
  SameGemini s t = t ≡ record s { raw = t.raw; fingerprint = t.fingerprint }

  gemini_shape-Alike :
      (file other : List ℕ) (o : Option Gemini.FileShape)
      → Alike SameGemini
          (Gemini.parse_shape unmarshal sha256 jwt file o)
          (Gemini.parse_shape unmarshal sha256 jwt other o)
  unfolding Gemini.parse_shape Gemini.snapshot_of
  gemini_shape-Alike file other none = refl
  gemini_shape-Alike file other (some f) =
      unless-Alike SameGemini (Gemini.missing unmarshal sha256 jwt f)
        (Gemini.snapshot_of unmarshal sha256 jwt file f)
        (Gemini.snapshot_of unmarshal sha256 jwt other f) refl

  -- A byte-order mark before a file of Gemini's credentials that has none changes nothing but the
  -- raw bytes and the fingerprint.
  pub gemini_ignores_bom :
      (b : ℕ) (bs : List ℕ)
      → trim_bom (b ∷ bs) ≡ b ∷ bs
      → Alike SameGemini
          (Gemini.parse unmarshal sha256 jwt (b ∷ bs))
          (Gemini.parse unmarshal sha256 jwt (with_bom (b ∷ bs)))
  unfolding Gemini.parse trim_bom
  gemini_ignores_bom b bs h =
      rw h (gemini_shape-Alike (b ∷ bs) (with_bom (b ∷ bs)) (unmarshal (b ∷ bs)))

module _ (sha256 : List ℕ → String) (unmarshal : List ℕ → Option Codex.FileShape) (jwt : Jwt) where
  codex_tokens-tokens :
      (t : Codex.TokenData)
      → Codex.missing unmarshal sha256 jwt t ≡ none
      → (t.access_token ≢ "") × (t.refresh_token ≢ "")
  unfolding Codex.missing
  codex_tokens-tokens t h = (
    λ e. ground (arith, eq_iff (t.access_token) ""),
    λ e. ground (arith, eq_iff (t.refresh_token) ""),
  )

  codex_tokens :
      (file : List ℕ) (f : Codex.FileShape) (o : Option Codex.TokenData) (s : Codex.Snapshot)
      → Codex.parse_tokens unmarshal sha256 jwt file f o ≡ done s
      → Accepted sha256 file s.raw s.fingerprint s.access_token s.refresh_token
  unfolding Codex.parse_tokens Codex.snapshot_of
  codex_tokens file f none s h = cc
  codex_tokens file f (some t) s h =
      let (kept, same) =
        unless_done (Codex.missing unmarshal sha256 jwt t)
          (Codex.snapshot_of unmarshal sha256 jwt file f t) s h in
      subst
        (λ (s : Codex.Snapshot).
          Accepted sha256 file s.raw s.fingerprint s.access_token s.refresh_token)
        same ((refl, refl), codex_tokens-tokens t kept)

  codex_shape :
      (file : List ℕ) (o : Option Codex.FileShape) (s : Codex.Snapshot)
      → Codex.parse_shape unmarshal sha256 jwt file o ≡ done s
      → Accepted sha256 file s.raw s.fingerprint s.access_token s.refresh_token
  unfolding Codex.parse_shape
  codex_shape file none s h = cc
  codex_shape file (some f) s h = codex_tokens file f f.tokens s h

  -- A snapshot of Codex's credentials that Parse accepts holds the file as it was read, the file's
  -- digest as its fingerprint, and two tokens that are not empty.
  pub codex_accepts :
      (file : List ℕ) (s : Codex.Snapshot)
      → Codex.parse unmarshal sha256 jwt file ≡ done s
      → Accepted sha256 file s.raw s.fingerprint s.access_token s.refresh_token
  unfolding Codex.parse
  codex_accepts [] s h = cc
  codex_accepts (b ∷ bs) s h = codex_shape (b ∷ bs) (unmarshal (trim_bom (b ∷ bs))) s h

  -- The snapshots differ in the raw bytes and the fingerprint alone.
  abbrev pub SameCodex : Codex.Snapshot → Codex.Snapshot → Type 0
  SameCodex s t = t ≡ record s { raw = t.raw; fingerprint = t.fingerprint }

  codex_tokens-Alike :
      (file other : List ℕ) (f : Codex.FileShape) (o : Option Codex.TokenData)
      → Alike SameCodex
          (Codex.parse_tokens unmarshal sha256 jwt file f o)
          (Codex.parse_tokens unmarshal sha256 jwt other f o)
  unfolding Codex.parse_tokens Codex.snapshot_of
  codex_tokens-Alike file other f none = refl
  codex_tokens-Alike file other f (some t) =
      unless-Alike SameCodex (Codex.missing unmarshal sha256 jwt t)
        (Codex.snapshot_of unmarshal sha256 jwt file f t)
        (Codex.snapshot_of unmarshal sha256 jwt other f t) refl

  codex_shape-Alike :
      (file other : List ℕ) (o : Option Codex.FileShape)
      → Alike SameCodex
          (Codex.parse_shape unmarshal sha256 jwt file o)
          (Codex.parse_shape unmarshal sha256 jwt other o)
  unfolding Codex.parse_shape
  codex_shape-Alike file other none = refl
  codex_shape-Alike file other (some f) = codex_tokens-Alike file other f f.tokens

  -- A byte-order mark before a file of Codex's credentials that has none changes nothing but the
  -- raw bytes and the fingerprint.
  pub codex_ignores_bom :
      (b : ℕ) (bs : List ℕ)
      → trim_bom (b ∷ bs) ≡ b ∷ bs
      → Alike SameCodex
          (Codex.parse unmarshal sha256 jwt (b ∷ bs))
          (Codex.parse unmarshal sha256 jwt (with_bom (b ∷ bs)))
  unfolding Codex.parse trim_bom
  codex_ignores_bom b bs h =
      rw h (codex_shape-Alike (b ∷ bs) (with_bom (b ∷ bs)) (unmarshal (b ∷ bs)))
