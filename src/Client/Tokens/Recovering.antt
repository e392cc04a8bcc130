-- ===== src/Client/Tokens/Recovering.antt =====
-- An agent (jwt.go, agent.go) whose header is lost, against the server (auth.go).
use pangaea.Prelude.{
  ℕ, ◌+◌, ◌≡◌, ◌≤◌, ◌<◌, refl, ap, ◌∙◌, String, true, false, List, [], ◌∷◌, contains, some, Result,
  failed, done, is_some, ℤ, magnitude,
}
use pangaea.Strings.{trim_space, trim_left, trim_right}
use pangaea.Config.{jwt}
use pangaea.Transport.{AuthJwt, Envelope, auth_jwt}
use pangaea.Server.Hub.{HandshakeAuth}
use pangaea.JwtAuth.{Claims, Library, Laws, issue, issued_claims, normalize_profiles}
use pangaea.JwtAuth.Tokens.{verify-issue}
use pangaea.Server.Handshake.{
  Authenticator, Peer, Reader, read_kind, kind_text, allowed_claims, verify_jwt, with_header,
  pre_upgrade, complete_payload, complete_jwt, deferred_auth, token_auth,
}
use pangaea.Client.Tokens.{
  TokenAgent, Surroundings, load_jwt_token, effective_jwt_send_via,
  should_switch_jwt_to_first_frame, hello_of, with_token, opening, refused,
}

module _ (w : Surroundings) (ag : TokenAgent) (by_jwt : ag.auth_mode ≡ "jwt")
    (auto : ag.jwt.send_via ≡ "auto") where
  opening_header : ag.jwt_use_first_frame ≡ false → opening w ag ≡ hello_of w ag ∷ []
  unfolding opening effective_jwt_send_via
  opening_header header = rw (by_jwt, auto, header) refl

  refused_switches :
      ag.jwt_use_first_frame ≡ false
      → refused ag 1008 "auth.jwt required before hello" ≡ record ag { jwt_use_first_frame = true }
  unfolding refused effective_jwt_send_via should_switch_jwt_to_first_frame
  refused_switches header = rw (by_jwt, auto, header) refl

  same_token : load_jwt_token w (record ag { jwt_use_first_frame = true }) ≡ load_jwt_token w ag
  unfolding load_jwt_token
  same_token = refl

  opening_first_frame :
      (token : String)
      → load_jwt_token w ag ≡ done token
      → opening w (record ag { jwt_use_first_frame = true })
        ≡ with_token w (record ag { jwt_use_first_frame = true }) (done token)
  unfolding opening effective_jwt_send_via
  opening_first_frame token loaded = rw (by_jwt, auto, same_token, loaded) refl

module _ (a : Authenticator) (lib : Library) (laws : Laws lib) (read : Reader)
    (profile : String) where
  header_deferred :
      (p : Peer)
      → a.mode ≡ jwt
      → a.allow_first_frame_fallback ≡ true
      → is_some p.tls ≡ true
      → p.authorization ≡ ""
      → pre_upgrade a lib p profile ≡ done (deferred_auth a lib)
  unfolding pre_upgrade with_header trim_space trim_left trim_right
  header_deferred p mode fallback tls lost = rw (mode, tls, lost, fallback) refl

  allowed_passes :
      (c : Claims)
      → contains c.profiles profile ≡ true
      → allowed_claims a lib profile (done c) ≡ done c
  unfolding allowed_claims
  allowed_passes c h = rw h refl

  verified_completes :
      (token : String) (now : ℕ) (c : Claims)
      → verify_jwt a lib token profile now ≡ done c
      → complete_payload a lib profile now (some (record { token = token }))
        ≡ done (token_auth a lib c)
  unfolding complete_payload
  verified_completes token now c h = rw (h, complete_payload) refl

  token_completes :
      (subject token : String) (profiles : List String) (start now : ℕ) (ttl : ℤ)
      → issue lib a.jwt_secret subject profiles a.jwt_issuer a.jwt_audience start ttl ≡ done token
      → start ≤ now + 30000000000
      → now < start + magnitude ttl + 29000000000
      → contains (normalize_profiles profiles) profile ≡ true
      → complete_payload a lib profile now (some (record { token = token }))
        ≡ done (
            token_auth a lib (
              issued_claims lib subject
                (normalize_profiles profiles)
                a.jwt_issuer
                a.jwt_audience
                start
                ttl))
  unfolding verify_jwt
  token_completes subject token profiles start now ttl issued early late allowed =
      let c : Claims =
        issued_claims lib subject (normalize_profiles profiles) a.jwt_issuer a.jwt_audience start
          ttl in
      let v =
        verify-issue lib laws a.jwt_secret subject profiles a.jwt_issuer a.jwt_audience start ttl
          token now issued early late in
      verified_completes token now c
        (ap (allowed_claims a lib profile) v ∙ allowed_passes c allowed)

-- The identity that completeJWT finds in the messages of an agent.
abbrev pub proof_of :
    Authenticator
    → Library
    → Reader
    → String
    → ℕ
    → List Envelope
    → Result (ℕ × String) HandshakeAuth
proof_of a lib read profile now messages =
    complete_jwt a lib read profile now (read_kind auth_jwt messages).0

-- Where the header of an agent is lost and the server may take a token from the first message: the
-- server defers the proof, refuses the hello that comes in its place with the text that the agent
-- waits for, and the first message of the next session proves the subject of the token, which Issue
-- made for the profile under the server's secret, issuer and audience and which is in its time. The
-- agent is in mode jwt with send_via auto, its token loads, and the server reads the JSON that the
-- agent writes.
pub lost_header_recovers :
    (a : Authenticator) (lib : Library) (read : Reader) (profile : String) (p : Peer)
    (w : Surroundings) (ag : TokenAgent) (subject token : String) (profiles : List String)
    (start : ℕ) (ttl : ℤ)
    → Laws lib
    → a.mode ≡ jwt
    → a.allow_first_frame_fallback ≡ true
    → is_some p.tls ≡ true
    → p.authorization ≡ ""
    → ag.auth_mode ≡ "jwt"
    → ag.jwt.send_via ≡ "auto"
    → ag.jwt_use_first_frame ≡ false
    → load_jwt_token w ag ≡ done token
    → ((t : AuthJwt) → read.auth_jwt_of (w.auth_jwt_json t) ≡ some t)
    → issue lib a.jwt_secret subject profiles a.jwt_issuer a.jwt_audience start ttl ≡ done token
    → start ≤ p.frame_at + 30000000000
    → p.frame_at < start + magnitude ttl + 29000000000
    → contains (normalize_profiles profiles) profile ≡ true
    → (pre_upgrade a lib p profile ≡ done (deferred_auth a lib))
      × (proof_of a lib read profile p.frame_at (opening w ag)
          ≡ failed (1008, "auth.jwt required before hello"))
      × (proof_of a lib read profile p.frame_at
            (opening w (refused ag 1008 "auth.jwt required before hello"))
          ≡ done (
              token_auth a lib (
                issued_claims lib subject
                  (normalize_profiles profiles)
                  a.jwt_issuer
                  a.jwt_audience
                  start
                  ttl)))
unfolding complete_jwt read_kind kind_text hello_of with_token
lost_header_recovers a lib read profile p w ag subject token profiles start ttl laws mode fallback
      tls lost by_jwt auto header loaded reads issued early late allowed =
    (
      header_deferred a lib laws read profile p mode fallback tls lost,
      rw (opening_header w ag by_jwt auto header) refl,
      rw
          (
            refused_switches w ag by_jwt auto header,
            opening_first_frame w ag by_jwt auto token loaded,
            reads (record { token = token }),
          )
          (token_completes a lib laws read profile subject token profiles start p.frame_at ttl
            issued early late allowed),
    )
