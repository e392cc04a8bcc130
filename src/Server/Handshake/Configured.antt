-- ===== src/Server/Handshake/Configured.antt =====
-- newAuthenticator (auth.go): the handshake of a server whose configuration was loaded.
use pangaea.Prelude.{
  ℕ, ◌≡◌, subst, String, Bool, true, false, not, Option, none, some, List, [], Result, failed, done,
  ◌⊎◌, inl, inr, ◌==◌, arith, eq_iff, Bool-cases, if◌then◌else◌,
}
use pangaea.Config.{AuthMode, mtls, jwt}
use pangaea.Config.Paths.{Env}
use pangaea.Config.ServerFile.{ServerConfig, load_server}
use pangaea.Config.ServerFile.Accepted.{IsServer}
use pangaea.Config.ServerFile.Loaded.{load_server-IsServer}
use pangaea.JwtAuth.{Library, Laws}
use pangaea.JwtAuth.Secrets.{RawUrl, load_secret_file}
use pangaea.Server.Hub.{Setup, Hub}
use pangaea.Server.Handshake.{Authenticator, Peer, Reader}
use pangaea.Server.Handshake.Serving.{handle_ws}
use pangaea.Server.Handshake.Attaching.{Attaches, handle_ws-Attaches}

-- A configuration that was checked names one of the two.
unfoldable pub mode_of : String → AuthMode
mode_of s = if s == "mtls" then mtls else jwt

-- configDefaultJWTFallback
unfoldable pub config_default_jwt_fallback : Option Bool → Bool
config_default_jwt_fallback none = true
config_default_jwt_fallback (some b) = b

abbrev pub authenticator_with : ServerConfig → List ℕ → String → String → Authenticator
authenticator_with cfg secret issuer audience = record {
  mode = mode_of cfg.auth_mode;
  jwt_secret = secret;
  jwt_issuer = issuer;
  jwt_audience = audience;
  allow_first_frame_fallback = config_default_jwt_fallback cfg.jwt.allow_first_frame_fallback;
}

unfoldable pub with_secret : ServerConfig → Result String (List ℕ) → Result String Authenticator
unfolding mode_of config_default_jwt_fallback
with_secret cfg (failed e) = failed e
with_secret cfg (done secret) = done (authenticator_with cfg secret cfg.jwt.issuer cfg.jwt.audience)

-- newAuthenticator, with the result of the read of the secret's file.
unfoldable pub new_authenticator :
    RawUrl → ServerConfig → Result String String → Result String Authenticator
unfolding with_secret
new_authenticator b64 cfg file =
    if not (cfg.auth_mode == "jwt")
    then done (authenticator_with cfg [] "" "")
    else with_secret cfg (load_secret_file b64 file)

IsConfigured : Authenticator → Type 0
IsConfigured a = a.mode ≡ jwt → ((a.jwt_issuer == "") ≡ false) × ((a.jwt_audience == "") ≡ false)

mode_of-jwt : (s : String) → (s ≡ "mtls") ⊎ (s ≡ "jwt") → mode_of s ≡ jwt → s ≡ "jwt"
unfolding mode_of
mode_of-jwt s (inl e) h = let g : mtls ≡ jwt = rw e at h in cc
mode_of-jwt s (inr e) h = e

with_secret-IsConfigured :
    (cfg : ServerConfig) (r : Result String (List ℕ)) (a : Authenticator)
    → IsServer cfg
    → with_secret cfg r ≡ done a
    → IsConfigured a
unfolding with_secret IsConfigured
with_secret-IsConfigured cfg (failed e) a s h = cc
with_secret-IsConfigured cfg (done secret) a s h =
    let built : authenticator_with cfg secret cfg.jwt.issuer cfg.jwt.audience ≡ a = cc in
    subst
      (λ (x : Authenticator).
        x.mode ≡ jwt → ((x.jwt_issuer == "") ≡ false) × ((x.jwt_audience == "") ≡ false))
      built (λ m. let set = s.jwt_set (mode_of-jwt cfg.auth_mode s.modes m) in (set.1, set.2))

new_authenticator-IsConfigured :
    (b64 : RawUrl) (cfg : ServerConfig) (file : Result String String) (a : Authenticator)
    → IsServer cfg
    → new_authenticator b64 cfg file ≡ done a
    → IsConfigured a
unfolding new_authenticator IsConfigured
new_authenticator-IsConfigured b64 cfg file a s h = elim (Bool-cases (cfg.auth_mode == "jwt")) [
  | inl e ↦ with_secret-IsConfigured cfg (load_secret_file b64 file) a s (rw e at h)
  | inr e ↦
      let g = rw e at h in
      let built : authenticator_with cfg [] "" "" ≡ a = cc in
      subst
        (λ (x : Authenticator).
          x.mode ≡ jwt → ((x.jwt_issuer == "") ≡ false) × ((x.jwt_audience == "") ≡ false))
        built
        (λ m.
          let named = mode_of-jwt cfg.auth_mode s.modes m in
          absurd (ground (arith, eq_iff cfg.auth_mode "jwt")))
]

-- On a server whose server.yaml LoadServer accepted, where golang-jwt keeps its laws, a connection
-- attaches a session only under the common name of its verified certificate in mtls mode, or under
-- the subject of a token that the server's secret signed, that is accepted at that time and that
-- names the profile in jwt mode. Its node id is that identity, and the hub admitted it. A refusal
-- leaves the sessions and identities of the hub as they were, and a session whose welcome fails is
-- not the current one of its node.
pub configured-Attaches :
    (sys : Env) (decode : List ℕ → Option ServerConfig) (raw : List ℕ) (cfg : ServerConfig)
    (b64 : RawUrl) (file : Result String String) (a : Authenticator) (lib : Library) (read : Reader)
    (env : Setup) (version : String) (h : Hub) (name : String) (p : Peer)
    → Laws lib
    → load_server sys decode (done raw) ≡ done cfg
    → new_authenticator b64 cfg file ≡ done a
    → Attaches a lib read env version h name p (handle_ws a lib read env version h name p)
unfolding IsConfigured
configured-Attaches sys decode raw cfg b64 file a lib read env version h name p laws loaded made =
    handle_ws-Attaches a lib read env version h name p laws (
      new_authenticator-IsConfigured b64 cfg file a
        (load_server-IsServer sys decode raw cfg loaded).0 made)
