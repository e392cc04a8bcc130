-- ===== src/Server/Handshake.antt =====
-- internal/server/auth.go, internal/server/router.go and internal/pki/peer.go: how a connection
-- proves its identity, before the upgrade or with its first message.
pub mod Serving
pub mod Identity
pub mod Attaching
pub mod Configured
use pangaea.Prelude.{
  ℕ, String, Bool, true, false, not, ◌&&◌, Option, none, some, List, [], ◌∷◌, lookup, contains,
  Result, failed, done, is_some, ◌==◌, if◌then◌else◌,
}
use pangaea.Strings.{trim_space, equal_fold}
use pangaea.Formats.Text.{fields}
use pangaea.JwtAuth.{Library, Claims, verify, allows_profile}
use pangaea.Config.{AuthMode, mtls, jwt}
use pangaea.Transport.{
  Kind, Envelope, AuthJwt, Hello, Welcome, auth_jwt, hello, welcome, snapshot_request,
  snapshot_report, snapshot_absent, truth_push, truth_ack, error,
}
use pangaea.Server.Mediator.State.{Session}
use pangaea.Server.Hub.{Setup, Hub, HubError, HubEffect, HandshakeAuth, register, unregister}

-- The authenticator, without its timeout.
pub record Authenticator : Type 0 where
  pub mode : AuthMode
  pub jwt_secret : List ℕ
  pub jwt_issuer : String
  pub jwt_audience : String
  pub allow_first_frame_fallback : Bool

-- A connection as the handler meets it: the verified chains of its TLS state by common name, the
-- header, the messages that it sends in time, whether the upgrade and the welcome succeed, and the
-- clock when a token is verified. `pointer` is the new session as an object.
pub record Peer : Type 0 where
  pub tls : Option (List (List String))
  pub authorization : String
  pub incoming : List Envelope
  pub upgrades : Bool
  pub takes_welcome : Bool
  pub header_at : ℕ
  pub frame_at : ℕ
  pub pointer : ℕ

-- json.Unmarshal of the two payloads of a handshake.
pub record Reader : Type 0 where
  pub auth_jwt_of : String → Option AuthJwt
  pub hello_of : String → Option Hello

-- PeerCN
unfoldable pub cn_of : List (List String) → Result String String
cn_of [] = failed "no verified peer chain"
cn_of ([] ∷ chains) = failed "no verified peer chain"
cn_of ((cn ∷ chain) ∷ chains) = if cn == "" then failed "peer certificate has empty CN" else done cn

unfoldable pub peer_cn : Option (List (List String)) → Result String String
unfolding cn_of
peer_cn none = failed "no TLS state"
peer_cn (some chains) = cn_of chains

unfoldable pub bearer_of : List String → Result String String
bearer_of (scheme ∷ token ∷ []) =
    if not (equal_fold scheme "Bearer")
    then failed "Authorization must be Bearer"
    else if token == ""
    then failed "Authorization token is empty"
    else done token
bearer_of _ = failed "Authorization must be Bearer"

unfoldable pub bearer_token : String → Result String String
unfolding bearer_of
bearer_token header = bearer_of (fields header)

-- The constants of Kind, which readKind compares.
unfoldable pub kind_text : Kind → String
kind_text auth_jwt = "auth.jwt"
kind_text hello = "hello"
kind_text welcome = "welcome"
kind_text snapshot_request = "snapshot.request"
kind_text snapshot_report = "snapshot.report"
kind_text snapshot_absent = "snapshot.absent"
kind_text truth_push = "truth.push"
kind_text truth_ack = "truth.ack"
kind_text error = "error"
kind_text (Kind.unknown s) = s

-- readKind, with the messages that are left.
unfoldable pub read_kind : Kind → List Envelope → Option Envelope × List Envelope
unfolding kind_text
read_kind want [] = (none, [])
read_kind want (env ∷ rest) =
    (if kind_text env.kind == kind_text want then some env else none, rest)

module _ (a : Authenticator) (lib : Library) where
  unfoldable pub allowed_claims : String → Result String Claims → Result String Claims
  allowed_claims profile (failed e) = failed e
  allowed_claims profile (done c) =
      if allows_profile c profile then done c else failed "JWT does not allow the profile"

  unfoldable pub verify_jwt : String → String → ℕ → Result String Claims
  unfolding allowed_claims
  verify_jwt token profile now =
      allowed_claims profile (verify lib a.jwt_secret token a.jwt_issuer a.jwt_audience now)

  -- The handshakeAuth of a verified token.
  abbrev pub token_auth : Claims → HandshakeAuth
  token_auth c = record {
    mode = jwt;
    identity = c.subject;
    peer_cn = "";
    jwt_profiles = c.profiles;
    needs_jwt = false;
  }

  abbrev pub certificate_auth : String → HandshakeAuth
  certificate_auth cn = record {
    mode = mtls;
    identity = cn;
    peer_cn = cn;
    jwt_profiles = [];
    needs_jwt = false;
  }

  abbrev pub deferred_auth : HandshakeAuth
  deferred_auth = record {
    mode = jwt;
    identity = "";
    peer_cn = "";
    jwt_profiles = [];
    needs_jwt = true;
  }

  -- A refusal before the upgrade is an HTTP status with a text; after it, a close code with one.
  unfoldable pub auth_or : ℕ → Result String Claims → Result (ℕ × String) HandshakeAuth
  auth_or status (failed e) = failed (status, e)
  auth_or status (done c) = done (token_auth c)

  unfoldable pub with_bearer : String → ℕ → Result String String → Result (ℕ × String) HandshakeAuth
  unfolding auth_or verify_jwt
  with_bearer profile now (failed e) = failed (401, e)
  with_bearer profile now (done token) = auth_or 401 (verify_jwt token profile now)

  unfoldable pub with_header : String → String → ℕ → Result (ℕ × String) HandshakeAuth
  unfolding with_bearer bearer_token
  with_header profile authz now =
      if authz == ""
      then (if a.allow_first_frame_fallback
          then done deferred_auth
          else failed (401, "Authorization header required"))
      else with_bearer profile now (bearer_token authz)

  unfoldable pub with_certificate : Result String String → Result (ℕ × String) HandshakeAuth
  with_certificate (failed e) = failed (401, "peer cert invalid")
  with_certificate (done cn) = done (certificate_auth cn)

  unfoldable pub pre_upgrade : Peer → String → Result (ℕ × String) HandshakeAuth
  unfolding with_header with_certificate peer_cn
  pre_upgrade p profile =
      if not (is_some p.tls) then failed (400, "TLS required") else elim a.mode [
        | mtls ↦ with_certificate (peer_cn p.tls)
        | jwt ↦ with_header profile (trim_space p.authorization) p.header_at
      ]

  -- completeJWT, whose message of any failure is fixed.
  unfoldable pub complete_payload : String → ℕ → Option AuthJwt → Result (ℕ × String) HandshakeAuth
  unfolding verify_jwt
  complete_payload profile now none = failed (1008, "auth.jwt invalid")
  complete_payload profile now (some payload) = elim (verify_jwt payload.token profile now) [
    | failed e ↦ failed (1008, "auth.jwt invalid")
    | done c ↦ done (token_auth c)
  ]

  unfoldable pub complete_jwt :
      Reader → String → ℕ → Option Envelope → Result (ℕ × String) HandshakeAuth
  unfolding complete_payload
  complete_jwt read profile now none = failed (1008, "auth.jwt required before hello")
  complete_jwt read profile now (some env) =
      complete_payload profile now (read.auth_jwt_of env.payload)
