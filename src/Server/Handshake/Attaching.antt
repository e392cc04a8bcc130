-- ===== src/Server/Handshake/Attaching.antt =====
-- What handleWS (router.go) makes of a connection: only a proven identity is attached.
use pangaea.Prelude.{
  ℕ, ◌≡◌, refl, String, Bool, true, false, not, ◌&&◌, Option, none, some, List, lookup, Result,
  failed, done, is_some, ◌==◌, arith, eq_iff, inl, inr, if◌then◌else◌,
}
use pangaea.JwtAuth.{Library, Laws}
use pangaea.Config.{jwt}
use pangaea.Transport.{Envelope, Hello, auth_jwt, hello}
use pangaea.Server.Hub.{Setup, Hub, HubError, HubEffect, HandshakeAuth, is_current}
use pangaea.Server.Hub.Members.{sessions_of}
use pangaea.Server.Hub.Registering.{Untouched, Admitted, Registers, register-Registers}
use pangaea.Server.Hub.Leaving.{unregister_leaves}
use pangaea.Server.Handshake.{Authenticator, Peer, Reader, read_kind, pre_upgrade}
use pangaea.Server.Handshake.Identity.{
  IsProven, Proves, Completes, pre_upgrade-Proves, complete_jwt-Completes,
}
use pangaea.Server.Handshake.Serving.{
  Served, refused, not_upgraded, closed, rejected, unwelcome, attached, new_session, greet, admit,
  admit_hello, admit_message, serve_as, serve_deferred, serve_conn, upgrade, handle_ws,
}

module _ (a : Authenticator) (lib : Library) (read : Reader) (env : Setup) (version : String)
    (h : Hub) (name : String) (p : Peer) where
  -- What a connection may leave behind. A session that is attached has the identity that the
  -- handshake proves for this profile as its node id, and the hub admitted it.
  abbrev pub Attaches : Hub × Served → Type 0
  Attaches (g, refused status reason) = g ≡ h
  Attaches (g, not_upgraded) = g ≡ h
  Attaches (g, closed code reason) = g ≡ h
  Attaches (g, rejected e) = Untouched h g
  Attaches (g, unwelcome s effects more) =
      is_current s (lookup s.node_id (sessions_of g name)) ≡ false
  Attaches (g, attached s w effects) =
      (hs : HandshakeAuth) × IsProven a lib p name hs
      × (s.node_id ≡ hs.identity)
      × (s.identity ≡ hs.identity)
      × (s.profile ≡ name)
      × Admitted hs s name g

  gate :
      (b : Bool) (x y : Hub × Served)
      → (b ≡ true → Attaches x)
      → (b ≡ false → Attaches y)
      → Attaches (if b then x else y)
  gate true x y hx hy = hx refl
  gate false x y hx hy = hy refl

  greet-Attaches :
      (hs : HandshakeAuth) (node : String) (r : Hub × Result HubError (List HubEffect))
      → IsProven a lib p name hs
      → node ≡ hs.identity
      → Registers h hs (new_session a lib read env version h name p hs node) name r
      → Attaches (
          greet a lib read env version h name p
            (new_session a lib read env version h name p hs node)
            r)
  unfolding greet
  greet-Attaches hs node (g, failed e) proven same r = r
  greet-Attaches hs node (g, done effects) proven same r =
      gate p.takes_welcome _ _ (λ t. (hs, proven, same, refl, refl, r.1))
        (λ f.
          unregister_leaves env g (new_session a lib read env version h name p hs node) name r.1.2)

  named :
      (node identity : String)
      → (identity == "") ≡ false
      → (not (identity == "") && not (node == identity)) ≡ false
      → node ≡ identity
  named node identity e m = ground (arith, eq_iff node identity)

  admit-Attaches :
      (hs : HandshakeAuth) (node : String)
      → IsProven a lib p name hs
      → Attaches (admit a lib read env version h name p hs node)
  unfolding admit
  admit-Attaches hs node proven =
      gate (node == "") _ _ (λ e. refl)
        (λ e.
          gate (not (hs.identity == "") && not (node == hs.identity)) _ _ (λ m. refl)
            (λ m. greet-Attaches hs node _ proven (named node hs.identity proven.1 m) (
              register-Registers env h name hs
                (new_session a lib read env version h name p hs node))))

  admit_hello-Attaches :
      (hs : HandshakeAuth) (m : Option Hello)
      → IsProven a lib p name hs
      → Attaches (admit_hello a lib read env version h name p hs m)
  unfolding admit_hello
  admit_hello-Attaches hs none proven = refl
  admit_hello-Attaches hs (some m) proven = admit-Attaches hs m.node_id proven

  admit_message-Attaches :
      (hs : HandshakeAuth) (e : Option Envelope)
      → IsProven a lib p name hs
      → Attaches (admit_message a lib read env version h name p hs e)
  unfolding admit_message
  admit_message-Attaches hs none proven = refl
  admit_message-Attaches hs (some e) proven =
      admit_hello-Attaches hs (read.hello_of e.payload) proven

  serve_as-Attaches :
      (incoming : List Envelope) (r : Result (ℕ × String) HandshakeAuth)
      → Completes a lib p name r
      → Attaches (serve_as a lib read env version h name p incoming r)
  unfolding serve_as
  serve_as-Attaches incoming (failed (code, reason)) proven = refl
  serve_as-Attaches incoming (done hs) proven =
      admit_message-Attaches hs (read_kind hello incoming).0 proven

  module _ (laws : Laws lib)
      (configured : a.mode ≡ jwt
        → ((a.jwt_issuer == "") ≡ false) × ((a.jwt_audience == "") ≡ false)) where
    serve_deferred-Attaches :
        (first : Option Envelope × List Envelope)
        → a.mode ≡ jwt
        → Attaches (serve_deferred a lib read env version h name p first)
    unfolding serve_deferred
    serve_deferred-Attaches (first, rest) m =
        serve_as-Attaches rest _ (complete_jwt-Completes a lib laws p name configured read first m)

    serve_conn-Attaches :
        (hs : HandshakeAuth)
        → Proves a lib p name (done hs)
        → Attaches (serve_conn a lib read env version h name p hs)
    unfolding serve_conn
    serve_conn-Attaches hs (inl (needs, m)) =
        gate hs.needs_jwt _ _ (λ n. serve_deferred-Attaches (read_kind auth_jwt p.incoming) m)
          (λ n. cc)
    serve_conn-Attaches hs (inr (needs, proven)) =
        gate hs.needs_jwt _ _ (λ n. cc) (λ n. serve_as-Attaches p.incoming (done hs) proven)

    upgrade-Attaches :
        (r : Result (ℕ × String) HandshakeAuth)
        → Proves a lib p name r
        → Attaches (upgrade a lib read env version h name p r)
    unfolding upgrade
    upgrade-Attaches (failed (status, reason)) proves = refl
    upgrade-Attaches (done hs) proves =
        gate p.upgrades _ _ (λ u. serve_conn-Attaches hs proves) (λ n. refl)

    -- Where golang-jwt keeps its laws and an issuer and an audience are set in jwt mode, a connection attaches
    -- a session only under the common name of its verified certificate in mtls mode, or under the
    -- subject of a token that the secret signed, that is accepted at that time and that names the
    -- profile in jwt mode. Its node id is that identity, and the hub admitted it. Any refusal
    -- leaves the sessions and identities of the hub as they were, and a session whose welcome
    -- fails is not the current one of its node.
    pub handle_ws-Attaches : Attaches (handle_ws a lib read env version h name p)
    unfolding handle_ws
    handle_ws-Attaches =
        gate (is_some (lookup name env.profiles)) _ _
          (λ known.
            upgrade-Attaches (pre_upgrade a lib p name)
              (pre_upgrade-Proves a lib laws p name configured))
          (λ unknown. refl)
