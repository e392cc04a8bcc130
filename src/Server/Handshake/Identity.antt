-- ===== src/Server/Handshake/Identity.antt =====
-- What preUpgrade and completeJWT (auth.go) take for an identity.
use pangaea.Prelude.{
  ℕ, ◌≡◌, refl, sym, String, Bool, true, false, not, Option, none, some, List, [], ◌∷◌, contains,
  Result, failed, done, ◌⊎◌, inl, inr, is_some, ◌==◌, arith, if◌then◌else◌,
}
use pangaea.Strings.{trim_space}
use pangaea.JwtAuth.{Library, Laws, Claims, verify}
use pangaea.JwtAuth.Tokens.{IsSigned, verify-IsSigned}
use pangaea.Config.{AuthMode, mtls, jwt}
use pangaea.Transport.{AuthJwt, Envelope}
use pangaea.Server.Hub.{HandshakeAuth}
use pangaea.Server.Handshake.{
  Authenticator, Peer, Reader, cn_of, peer_cn, bearer_token, allowed_claims, verify_jwt, auth_or,
  with_bearer, with_header, with_certificate, pre_upgrade, complete_payload, complete_jwt,
  deferred_auth, token_auth,
}

-- A token for the profile, verified at one of the two times, that the secret signed for the subject.
abbrev pub HasToken : Authenticator → Library → Peer → String → String → Type 0
HasToken a lib p profile subject =
    (t : ℕ) × ((t ≡ p.header_at) ⊎ (t ≡ p.frame_at))
    × ((token : String) × (c : Claims) × IsSigned lib a.jwt_secret token a.jwt_issuer a.jwt_audience
          t c
        × (c.subject ≡ subject)
        × (contains c.profiles profile ≡ true))

-- The identity that a handshake proves, by the certificate that TLS verified or by a token.
abbrev pub IsProven : Authenticator → Library → Peer → String → HandshakeAuth → Type 0
IsProven a lib p profile hs =
    (hs.mode ≡ a.mode)
    × ((hs.identity == "") ≡ false)
    × ((a.mode ≡ mtls) × (peer_cn p.tls ≡ done hs.identity)
        ⊎ (a.mode ≡ jwt) × HasToken a lib p profile hs.identity)

-- The results of preUpgrade, where the proof may be left to the first message.
abbrev pub Proves :
    Authenticator → Library → Peer → String → Result (ℕ × String) HandshakeAuth → Type 0
Proves a lib p profile (failed e) = Unit
Proves a lib p profile (done hs) =
    ((hs.needs_jwt ≡ true) × (a.mode ≡ jwt))
    ⊎ ((hs.needs_jwt ≡ false) × IsProven a lib p profile hs)

-- The results of completeJWT.
abbrev pub Completes :
    Authenticator → Library → Peer → String → Result (ℕ × String) HandshakeAuth → Type 0
Completes a lib p profile (failed e) = Unit
Completes a lib p profile (done hs) = IsProven a lib p profile hs

cn_of_non_empty :
    (chains : List (List String)) (cn : String) → cn_of chains ≡ done cn → (cn == "") ≡ false
unfolding cn_of
cn_of_non_empty [] cn h = cc
cn_of_non_empty ([] ∷ chains) cn h = cc
cn_of_non_empty ((c ∷ chain) ∷ chains) cn h = ground (arith)

peer_cn_non_empty :
    (tls : Option (List (List String))) (cn : String) → peer_cn tls ≡ done cn → (cn == "") ≡ false
unfolding peer_cn
peer_cn_non_empty none cn h = cc
peer_cn_non_empty (some chains) cn h = cn_of_non_empty chains cn h

module _ (a : Authenticator) (lib : Library) (laws : Laws lib) (p : Peer) (profile : String)
    (configured : a.mode ≡ jwt
      → ((a.jwt_issuer == "") ≡ false) × ((a.jwt_audience == "") ≡ false)) where
  -- A token that is allowed, as the handshakeAuth that it gives.
  allowed_claims-HasToken :
      (token : String) (t : ℕ) (r : Result String Claims) (c : Claims)
      → ((t ≡ p.header_at) ⊎ (t ≡ p.frame_at))
      → a.mode ≡ jwt
      → verify lib a.jwt_secret token a.jwt_issuer a.jwt_audience t ≡ r
      → allowed_claims a lib profile r ≡ done c
      → ((c.subject == "") ≡ false) × HasToken a lib p profile c.subject
  unfolding allowed_claims
  allowed_claims-HasToken token t (failed e) c at m v h = cc
  allowed_claims-HasToken token t (done d) c at m v h =
      let same : d ≡ c = ground (arith) in
      let ok : contains c.profiles profile ≡ true = ground (arith) in
      let signed =
        verify-IsSigned lib laws a.jwt_secret token a.jwt_issuer a.jwt_audience t (configured m).0
          (configured m).1 c (cc (v, same)) in
      (signed.4, (t, at, (token, c, signed, refl, ok)))

  token_proof :
      (token : String) (t : ℕ) (c : Claims)
      → ((t ≡ p.header_at) ⊎ (t ≡ p.frame_at))
      → a.mode ≡ jwt
      → verify_jwt a lib token profile t ≡ done c
      → IsProven a lib p profile (token_auth a lib c)
  unfolding verify_jwt
  token_proof token t c at m h =
      let (named, has) =
        allowed_claims-HasToken token t
          (verify lib a.jwt_secret token a.jwt_issuer a.jwt_audience t) c at m refl h in
      (sym m, named, inr (m, has))

  auth_or-Proves :
      (status t : ℕ) (token : String) (r : Result String Claims)
      → ((t ≡ p.header_at) ⊎ (t ≡ p.frame_at))
      → a.mode ≡ jwt
      → verify_jwt a lib token profile t ≡ r
      → Proves a lib p profile (auth_or a lib status r)
  unfolding auth_or
  auth_or-Proves status t token (failed e) at m h = tt
  auth_or-Proves status t token (done c) at m h = inr (refl, token_proof token t c at m h)

  with_bearer-Proves :
      (r : Result String String)
      → a.mode ≡ jwt
      → Proves a lib p profile (with_bearer a lib profile p.header_at r)
  unfolding with_bearer
  with_bearer-Proves (failed e) m = tt
  with_bearer-Proves (done token) m = auth_or-Proves 401 p.header_at token _ (inl refl) m refl

  gate :
      (b : Bool) (x y : Result (ℕ × String) HandshakeAuth)
      → Proves a lib p profile x
      → Proves a lib p profile y
      → Proves a lib p profile (if b then x else y)
  gate true x y hx hy = hx
  gate false x y hx hy = hy

  with_header-Proves :
      (authz : String)
      → a.mode ≡ jwt
      → Proves a lib p profile (with_header a lib profile authz p.header_at)
  unfolding with_header
  with_header-Proves authz m =
      gate (authz == "") _ _
        (gate a.allow_first_frame_fallback (done (deferred_auth a lib)) _ (inl (refl, m)) tt)
        (with_bearer-Proves (bearer_token authz) m)

  with_certificate-Proves :
      (r : Result String String)
      → a.mode ≡ mtls
      → peer_cn p.tls ≡ r
      → Proves a lib p profile (with_certificate a lib r)
  unfolding with_certificate
  with_certificate-Proves (failed e) m h = tt
  with_certificate-Proves (done cn) m h =
      inr (refl, (sym m, peer_cn_non_empty p.tls cn h, inl (m, h)))

  by_mode :
      (m : AuthMode)
      → a.mode ≡ m
      → Proves a lib p profile (elim m [
        | mtls ↦ with_certificate a lib (peer_cn p.tls)
        | jwt ↦ with_header a lib profile (trim_space p.authorization) p.header_at
      ])
  by_mode mtls e = with_certificate-Proves (peer_cn p.tls) e refl
  by_mode jwt e = with_header-Proves (trim_space p.authorization) e

  pub pre_upgrade-Proves : Proves a lib p profile (pre_upgrade a lib p profile)
  unfolding pre_upgrade
  pre_upgrade-Proves =
      gate (not (is_some p.tls)) (failed (400, "TLS required")) _ tt (by_mode a.mode refl)

  complete_payload-Completes :
      (payload : Option AuthJwt)
      → a.mode ≡ jwt
      → Completes a lib p profile (complete_payload a lib profile p.frame_at payload)
  unfolding complete_payload
  complete_payload-Completes none m = tt
  complete_payload-Completes (some payload) m =
      go (verify_jwt a lib payload.token profile p.frame_at) refl
    where
      go :
          (r : Result String Claims)
          → verify_jwt a lib payload.token profile p.frame_at ≡ r
          → Completes a lib p profile (elim r [
            | failed e ↦ failed (1008, "auth.jwt invalid")
            | done c ↦ done (token_auth a lib c)
          ])
      go (failed e) v = tt
      go (done c) v = token_proof payload.token p.frame_at c (inr refl) m v

  pub complete_jwt-Completes :
      (read : Reader) (first : Option Envelope)
      → a.mode ≡ jwt
      → Completes a lib p profile (complete_jwt a lib read profile p.frame_at first)
  unfolding complete_jwt
  complete_jwt-Completes read none m = tt
  complete_jwt-Completes read (some env) m =
      complete_payload-Completes (read.auth_jwt_of env.payload) m
