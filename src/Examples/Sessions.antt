-- ===== src/Examples/Sessions.antt =====
-- The hub and the dispatch of a session at concrete inputs.
use pangaea.Prelude.{
  inl, inr, failed, ◌≡◌, refl, false, true, none, some, [], ◌∷◌, lookup, insert, arith, ℕ, List,
  done, ◌==◌,
}
use pangaea.Config.{mtls}
use pangaea.Transport.{Kind, Envelope}
use pangaea.Server.Mediator.State.{Session}
use pangaea.Server.Hub.{
  Hub, ProfileHub, Setup, HandshakeAuth, register, shutdown, shut_down, request_snapshot, set_home,
  close,
}
use pangaea.Server.Hub.Members.{sessions_of}
use pangaea.Server.Hub.Registering.{Registers, register-Registers, register_ignores_reload}
use pangaea.Server.Hub.Leaving.{gone, unregister_spares}
use pangaea.Server.Hub.Closing.{Closed, shut_down-Closed}
use pangaea.Server.Hub.Asking.{Asked, request_snapshot-Asked}
use pangaea.Server.Dispatch.{Decoder, IsOwn, handle_message, handle_message-IsOwn}
use pangaea.Examples.{alice, bob, profile}
use pangaea.Examples.Runs.{report_of}

abbrev pub setup : Setup
setup = record {
  profiles = ("p", profile) ∷ [];
  formats =
      (
        profile.format,
        record {
          name = profile.format;
          resolve_credential_path = λ dir. some "/home/.claude/.credentials.json";
        },
      )
      ∷ [];
  notifies = false;
}

abbrev reloaded : Setup
reloaded = record setup { profiles = [] }

abbrev pub auth : HandshakeAuth
auth = record {
  mode = mtls;
  identity = "alice";
  peer_cn = "alice";
  jwt_profiles = [];
  needs_jwt = false;
}

abbrev running : ProfileHub
running = record {
  profile = profile;
  format_name = profile.format;
  target_path = "/home/.claude/.credentials.json";
  sessions = ("n2", bob) ∷ ("n1", alice) ∷ [];
  by_identity = ("bob", bob) ∷ ("alice", alice) ∷ [];
}

abbrev pub hub : Hub
hub = record { by_profile = ("p", running) ∷ []; homes = λ p. some "p"; shutting_down = false }

abbrev pub empty_hub : Hub
empty_hub = record { by_profile = []; homes = λ p. none; shutting_down = false }

found : (lookup "p" hub.by_profile ≡ some running) × (lookup "n2" (sessions_of hub "p") ≡ some bob)
unfolding lookup
found = (refl, refl)

register-Registers_example :
    Registers empty_hub auth alice "p" (register setup empty_hub "p" auth alice)
register-Registers_example = register-Registers setup empty_hub "p" auth alice

register_ignores_reload_example :
    register setup hub "p" auth alice ≡ register reloaded hub "p" auth alice
register_ignores_reload_example =
    register_ignores_reload setup reloaded hub "p" auth alice running found.0 refl

unregister_spares_example : lookup "n2" (sessions_of (gone setup hub alice) "p") ≡ some bob
unregister_spares_example =
    unregister_spares setup hub alice "p" "n2" bob found.1 (λ e. omega arith)

abbrev decoder : Decoder
decoder = record {
  snapshot_report_of = λ s. some (report_of 3);
  snapshot_absent_of = λ s. none;
  truth_ack_of = λ s. none;
}

abbrev message : Envelope
message = record { kind = Kind.snapshot_report; v = 1; id = "i"; ts = 0; payload = "{}" }

handle_message-IsOwn_example : IsOwn alice true (handle_message alice true decoder message)
handle_message-IsOwn_example = handle_message-IsOwn alice true decoder message

shut_down-Closed_example :
    Closed "p" alice (shut_down hub).1
    × (register setup (shut_down hub).0 "p" auth bob ≡ ((shut_down hub).0, failed shutdown))
shut_down-Closed_example =
    shut_down-Closed setup hub "p" "n1" running alice bob "p" auth (inl refl) (inr (inl refl))

abbrev joined : Hub
joined = record hub { homes = set_home alice.pointer "p" hub.homes }

registered :
    register setup hub "p" auth alice
    ≡ (joined, done (close alice "session displaced by newer connection" ∷ []))
unfolding register lookup insert
registered = refl

-- Only the node of alice can be reached.
request_snapshot-Asked_example :
    (asked : List Session) × (sent : ℕ) × (request_snapshot setup joined
        (λ s. s.node_id == "n1")
        "p"
      ≡ done (asked, sent))
    × Asked setup hub joined "p" auth alice
        (close alice "session displaced by newer connection" ∷ [])
        (λ s. s.node_id == "n1")
        asked
        sent
request_snapshot-Asked_example =
    request_snapshot-Asked setup hub joined "p" auth alice
      (close alice "session displaced by newer connection" ∷ []) (λ s. s.node_id == "n1") registered
