-- ===== src/Examples/Serving.antt =====
-- A connection to a server that was configured, at a concrete request with a token.
use Prim.Native.String.{◌++◌}
use pangaea.Prelude.{◌≡◌, refl, true, [], ◌∷◌, none, some, done}
use pangaea.Strings.{trim_space, trim_left, trim_right}
use pangaea.Config.{jwt}
use pangaea.Transport.{Kind}
use pangaea.JwtAuth.Secrets.{load_secret_file}
use pangaea.Server.Handshake.{Authenticator, Peer, Reader}
use pangaea.Server.Handshake.Serving.{handle_ws}
use pangaea.Server.Handshake.Attaching.{Attaches}
use pangaea.Server.Handshake.Configured.{new_authenticator, configured-Attaches}
use pangaea.Examples.{encode, decode}
use pangaea.Examples.Handshake.{library, library-Laws, raw_url}
use pangaea.Examples.Settings.{system, written, loaded, server_read}
use pangaea.Examples.Sessions.{setup, empty_hub}

abbrev authenticator : Authenticator
authenticator = record {
  mode = jwt;
  jwt_secret = 7 ∷ [];
  jwt_issuer = "pangaea";
  jwt_audience = "agents";
  allow_first_frame_fallback = true;
}

made : new_authenticator raw_url loaded (done (encode (7 ∷ []) ++ "\n")) ≡ done authenticator
unfolding new_authenticator load_secret_file trim_space trim_left trim_right encode decode
made = refl

abbrev peer : Peer
peer = record {
  tls = some [];
  authorization = "bearer h.c.s";
  incoming = record { kind = Kind.hello; v = 1; id = "i"; ts = 0; payload = "{}" } ∷ [];
  upgrades = true;
  takes_welcome = true;
  header_at = 200;
  frame_at = 200;
  pointer = 1;
}

abbrev reader : Reader
reader = record {
  auth_jwt_of = λ s. none;
  hello_of =
      λ s. some (record { node_id = "n1"; agent_version = "1"; os = "linux"; capabilities = [] });
}

configured-Attaches_example :
    Attaches authenticator library reader setup "v" empty_hub "p" peer
      (handle_ws authenticator library reader setup "v" empty_hub "p" peer)
configured-Attaches_example =
    configured-Attaches system (λ b. some written) [] loaded raw_url
      (done (encode (7 ∷ []) ++ "\n")) authenticator library reader setup "v" empty_hub "p" peer
      library-Laws server_read made
