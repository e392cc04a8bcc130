-- ===== src/Server/Handshake/Serving.antt =====
-- internal/server/router.go: what handleWS does with a connection, up to the welcome. The read loop
-- and the Unregister after it are Dispatch and Hub. A timeout is a read that brings nothing.
use pangaea.Prelude.{
  ℕ, String, not, ◌&&◌, Option, none, some, List, lookup, Result, failed, done, is_some, ◌==◌,
  if◌then◌else◌,
}
use pangaea.JwtAuth.{Library}
use pangaea.Transport.{Envelope, Hello, Welcome, auth_jwt, hello}
use pangaea.Server.Mediator.State.{Session}
use pangaea.Server.Hub.{Setup, Hub, HubError, HubEffect, HandshakeAuth, register, unregister}
use pangaea.Server.Handshake.{Authenticator, Peer, Reader, read_kind, complete_jwt, pre_upgrade}

-- What handleWS leaves: an HTTP status, an upgrade that fails, a close with its code, a registration
-- that the hub rejects, a session that a failed welcome takes away, or one that is attached.
pub data Served : Type 0 where
  refused : ℕ → String → Served
  not_upgraded : Served
  closed : ℕ → String → Served
  rejected : HubError → Served
  unwelcome : Session → List HubEffect → List HubEffect → Served
  attached : Session → Welcome → List HubEffect → Served

module _ (a : Authenticator) (lib : Library) (read : Reader) (env : Setup) (version : String)
    (h : Hub) (name : String) (p : Peer) where
  -- newSession
  abbrev pub new_session : HandshakeAuth → String → Session
  new_session hs node = record {
    pointer = p.pointer;
    node_id = node;
    identity = hs.identity;
    peer_cn = hs.peer_cn;
    auth_mode = hs.mode;
    profile = name;
  }

  -- sendWelcome after Register. currentTruthMeta has no truth to tell.
  unfoldable pub greet : Session → Hub × Result HubError (List HubEffect) → Hub × Served
  greet s (g, failed e) = (g, rejected e)
  greet s (g, done effects) =
      if p.takes_welcome
      then (g, attached s (record { server_version = version; known_truth = none }) effects)
      else let (left, more) = unregister env g s in (left, unwelcome s effects more)

  unfoldable pub admit : HandshakeAuth → String → Hub × Served
  unfolding greet
  admit hs node =
      if node == ""
      then (h, closed 1002 "hello payload invalid")
      else if not (hs.identity == "") && not (node == hs.identity)
      then (h, closed 1008 "hello.node_id must match authenticated identity")
      else greet (new_session hs node) (register env h name hs (new_session hs node))

  unfoldable pub admit_hello : HandshakeAuth → Option Hello → Hub × Served
  unfolding admit
  admit_hello hs none = (h, closed 1002 "hello payload invalid")
  admit_hello hs (some m) = admit hs m.node_id

  unfoldable pub admit_message : HandshakeAuth → Option Envelope → Hub × Served
  unfolding admit_hello
  admit_message hs none = (h, closed 1002 "hello required")
  admit_message hs (some e) = admit_hello hs (read.hello_of e.payload)

  -- serveConn once the handshake is complete, with the messages that are left.
  unfoldable pub serve_as : List Envelope → Result (ℕ × String) HandshakeAuth → Hub × Served
  unfolding admit_message
  serve_as incoming (failed (code, reason)) = (h, closed code reason)
  serve_as incoming (done hs) = admit_message hs (read_kind hello incoming).0

  -- completeJWT with the first message, then the rest.
  unfoldable pub serve_deferred : Option Envelope × List Envelope → Hub × Served
  unfolding serve_as
  serve_deferred (first, rest) = serve_as rest (complete_jwt a lib read name p.frame_at first)

  -- serveConn
  unfoldable pub serve_conn : HandshakeAuth → Hub × Served
  unfolding serve_as serve_deferred
  serve_conn hs =
      if hs.needs_jwt
      then serve_deferred (read_kind auth_jwt p.incoming)
      else serve_as p.incoming (done hs)

  unfoldable pub upgrade : Result (ℕ × String) HandshakeAuth → Hub × Served
  unfolding serve_conn
  upgrade (failed (status, reason)) = (h, refused status reason)
  upgrade (done hs) = if p.upgrades then serve_conn hs else (h, not_upgraded)

  -- handleWS
  unfoldable pub handle_ws : Hub × Served
  unfolding upgrade
  handle_ws =
      if is_some (lookup name env.profiles)
      then upgrade (pre_upgrade a lib p name)
      else (h, refused 404 "unknown profile")
