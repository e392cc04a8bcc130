-- ===== src/JwtAuth/Tokens.antt =====
-- Issue and Verify (jwtauth.go): a token that is issued verifies, and what verifies was signed.
use pangaea.Prelude.{
  ℕ, ◌+◌, ◌≤◌, ◌<◌, ◌≡◌, refl, String, true, false, List, some, Result, failed, done, ◌==◌, arith,
  eq_refl, ℤ, is_nonpositive, magnitude, is_nil, Bool, subst,
}
use pangaea.JwtAuth.{
  Library, Laws, Claims, Accepts, key_for, options_of, issue, issued_claims, checked, verified,
  verify, normalize_profiles,
}
use pangaea.JwtAuth.Profiles.{normalize_profiles_idem}

-- The claims of an issued token, and what Issue checked.
module _ (lib : Library) (laws : Laws lib) (secret : List ℕ) (subject : String)
    (profiles : List String) (issuer audience : String) (start : ℕ) (ttl : ℤ) where
  abbrev granted_claims : Claims
  granted_claims = issued_claims lib subject (normalize_profiles profiles) issuer audience start ttl

  abbrev Checked : String → Type 0
  Checked token =
      (is_nil secret ≡ false)
      × ((subject == "") ≡ false)
      × (is_nil (normalize_profiles profiles) ≡ false)
      × (is_nonpositive ttl ≡ false)
      × (lib.signed_string granted_claims secret ≡ done token)

  issue-Checked :
      (token : String)
      → issue lib secret subject profiles issuer audience start ttl ≡ done token
      → Checked token
  unfolding issue
  issue-Checked token h = ground (arith)

  granted-Accepts :
      (now : ℕ)
      → start ≤ now + 30000000000
      → now < start + magnitude ttl + 29000000000
      → Accepts (options_of issuer audience now) granted_claims
  granted-Accepts now early late =
      let begin = laws.date_rounds start in
      let end = laws.date_rounds (start + magnitude ttl) in
      (refl, rw (eq_refl audience) refl, omega arith, omega arith)

  -- A token that Issue makes passes Verify with the same secret, issuer and audience, from 30
  -- seconds before its issue to 29 seconds after its time to live, and Verify returns the claims
  -- that were issued, where golang-jwt keeps its laws.
  pub verify-issue :
      (token : String) (now : ℕ)
      → issue lib secret subject profiles issuer audience start ttl ≡ done token
      → start ≤ now + 30000000000
      → now < start + magnitude ttl + 29000000000
      → verify lib secret token issuer audience now
        ≡ done (issued_claims lib subject (normalize_profiles profiles) issuer audience start ttl)
  unfolding verify verified checked key_for
  verify-issue token now h early late =
      let c = issue-Checked token h in
      let parsed =
        laws.parse_signed granted_claims secret token (key_for secret)
          (options_of issuer audience now) c.4 refl refl (granted-Accepts now early late) in
      rw
        (
          c.0,
          laws.signed_not_blank granted_claims secret token c.4,
          parsed,
          normalize_profiles_idem profiles,
          c.1,
          c.2,
        )
        refl

-- What a token that verifies stands for: claims that it carries under the secret, which the issuer,
-- the audience and the time accept, and whose profiles are normalized.
abbrev pub IsSigned : Library → List ℕ → String → String → String → ℕ → Claims → Type 0
IsSigned lib secret token issuer audience now c =
    (d : Claims) × (lib.carries token secret d ≡ true)
    × Accepts (options_of issuer audience now) d
    × (c ≡ record d { profiles = normalize_profiles d.profiles })
    × ((c.subject == "") ≡ false)
    × (is_nil c.profiles ≡ false)

checked-inv :
    (c d : Claims)
    → checked c ≡ done d
    → (d ≡ c) × ((d.subject == "") ≡ false) × (is_nil d.profiles ≡ false)
unfolding checked
checked-inv c d h = ground (arith)

key_for-inv :
    (secret : List ℕ) (alg : String) (s : List ℕ) → key_for secret (some alg) ≡ done s → s ≡ secret
unfolding key_for
key_for-inv secret alg s h = ground (arith)

module _ (lib : Library) (laws : Laws lib) (secret : List ℕ) (token issuer audience : String)
    (now : ℕ) (issuer_set : (issuer == "") ≡ false) (audience_set : (audience == "") ≡ false) where
  verified-IsSigned :
      (r : Result String (Claims × Bool)) (c : Claims)
      → lib.parse_with_claims token (key_for secret) (options_of issuer audience now) ≡ r
      → verified r ≡ done c
      → IsSigned lib secret token issuer audience now c
  unfolding verified
  verified-IsSigned (failed e) c p h = cc
  verified-IsSigned (done (d, false)) c p h = cc
  verified-IsSigned (done (d, true)) c p h =
      let (accepted, (alg, s, allowed, keyed, carried)) =
        laws.parse_checked token (key_for secret) (options_of issuer audience now) d p issuer_set
          audience_set in
      let (same, subject, profiles) =
        checked-inv (record d { profiles = normalize_profiles d.profiles }) c h in
      (
        d,
        subst (λ k. lib.carries token k d ≡ true) (key_for-inv secret alg s keyed) carried,
        accepted,
        same,
        subject,
        profiles,
      )

  pub verify-IsSigned :
      (c : Claims)
      → verify lib secret token issuer audience now ≡ done c
      → IsSigned lib secret token issuer audience now c
  unfolding verify
  verify-IsSigned c h =
      verified-IsSigned
        (lib.parse_with_claims token (key_for secret) (options_of issuer audience now)) c refl
        (ground (arith))
