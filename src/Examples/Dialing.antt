-- ===== src/Examples/Dialing.antt =====
-- A client's file and the waits of its reconnects at concrete inputs.
use pangaea.Prelude.{
  ◌≡◌, refl, true, false, List, [], ◌∷◌, none, some, done, arith, ◌-◌, ◌<◌, ℕ, zero, suc,
}
use pangaea.Config.Paths.{expand_path, expand_path_from_dir, clean, keep_part}
use pangaea.Config.ClientFile.{RawClientConfig, ClientConfig, load_client}
use pangaea.Config.ClientFile.Accepted.{IsClient}
use pangaea.Config.ClientFile.Connects.{load_client-IsClient}
use pangaea.Client.Reconnect.{Round, dial_failed, session_ended, reconnect_loop}
use pangaea.Client.Reconnect.Delays.{Waits, loaded-Waits}
use pangaea.Examples.Settings.{system}

abbrev written : RawClientConfig
written = record {
  server = "wss://hub:8443";
  auth_mode = "";
  jwt = record { token_env = ""; token_file = ""; send_via = "" };
  reverse = record {
    listen = "";
    pki = record { ca_cert = ""; server_cert = ""; server_key = "" };
    allowed_peers = [];
  };
  node_id = "n1";
  profiles =
      record {
        name = "p";
        format = "f";
        dir = "~/.codex";
        watch_files = "auth.json" ∷ [];
        account_meta_path = "";
      }
      ∷ [];
  pki = record { ca_cert = "/ca.crt"; client_cert = "/c.crt"; client_key = "/c.key" };
  reconnect = record { initial_delay = ""; jitter = ""; max_delay = "" };
  cli_upgrade = record { enabled = none; initial_delay = ""; interval = "5ns" };
}

abbrev loaded : ClientConfig
loaded = record {
  server = "wss://hub:8443";
  auth_mode = "mtls";
  jwt = record { token_env = ""; token_file = ""; send_via = "auto" };
  reverse = written.reverse;
  node_id = "n1";
  profiles =
      record {
        name = "p";
        format = "f";
        dir = "/home/u/.codex";
        watch_files = "/home/u/.codex/auth.json" ∷ [];
        account_meta_path = "";
      }
      ∷ [];
  pki = written.pki;
  reconnect = record { initial_delay = 5000000000; jitter = 1000000000; max_delay = 60000000000 };
  cli_upgrade = record { enabled = true; initial_delay = 600000000000; interval = 5 };
}

client_read : load_client system (λ b. some written) (done []) ≡ done loaded
unfolding load_client expand_path expand_path_from_dir clean keep_part
client_read = refl

load_client-IsClient_example : IsClient loaded
load_client-IsClient_example = load_client-IsClient system (λ b. some written) [] loaded client_read

-- Two failed dials, a session, and a dial that fails in its handshake.
abbrev rounds : List Round
rounds = dial_failed false ∷ dial_failed false ∷ session_ended false ∷ dial_failed true ∷ []

-- The first draws are the greatest, the later ones zero.
abbrev draw : ℕ → ℕ → ℕ
draw zero n = n - 1
draw (suc zero) n = n - 1
draw (suc (suc round)) n = 0

draw_lt : (round n : ℕ) → 0 < n → draw round n < n
draw_lt zero n h = omega arith
draw_lt (suc zero) n h = omega arith
draw_lt (suc (suc round)) n h = h

loaded-Waits_example :
    Waits loaded.reconnect 0 rounds (reconnect_loop draw loaded.reconnect 0 0 rounds)
loaded-Waits_example =
    loaded-Waits system (λ b. some written) [] loaded client_read (omega arith) (omega arith)
      (omega arith) draw draw_lt rounds

waits_run :
    reconnect_loop draw loaded.reconnect 0 0 rounds
    ≡ some 5999999999 ∷ some 10999999999 ∷ some 4000000000 ∷ some 60000000000 ∷ []
unfolding reconnect_loop
waits_run = refl
