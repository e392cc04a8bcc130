-- ===== src/Examples/Settings.antt =====
-- The configuration at concrete inputs: profiles, the store and a server's file.
use pangaea.Prelude.{
  ◌≡◌, refl, true, false, List, [], ◌∷◌, none, some, failed, done, All, is_nil, pos,
}
use pangaea.Config.{Profile}
use pangaea.Config.Paths.{Env, expand_path, expand_path_from_dir, clean, keep_part}
use pangaea.Config.Profiles.{RawProfile, parse_profiles}
use pangaea.Config.Profiles.Valid.{IsProfile, FreshProfiles, parse_profiles-IsProfile}
use pangaea.Config.Store.{new_profile_store, reloading, subscribing, receiving, run, Step}
use pangaea.Config.Store.Reloads.{AreUpToDate, latest, run-AreUpToDate}
use pangaea.Config.ServerFile.{ServerConfig, load_server}
use pangaea.Config.ServerFile.Sinks.{SinkConfig, NotifierConfig, post_process_notifier}
use pangaea.Config.ServerFile.Accepted.{IsServer}
use pangaea.Config.ServerFile.Loaded.{AreSinks, load_server-IsServer}
use pangaea.Examples.{profile}

abbrev pub system : Env
system = record {
  lookup_env = λ name. none;
  user_home_dir = done "/home/u";
  parse_duration = λ s. done (pos 5);
}

abbrev raw_profile : RawProfile
raw_profile = record {
  name = "p";
  format = "f";
  dir = "~/.claude";
  watch_files = "a/../b" ∷ [];
  allowed_clients = "n1" ∷ [];
  reverse_targets = record { node_id = "n2"; transport = ""; url = "wss://n2" } ∷ [];
  strategy = "";
  live_check = false;
  live_check_timeout = "";
  mode = "";
  cooldown = "5ns";
}

abbrev read_profile : Profile
read_profile = record {
  name = "p";
  format = "f";
  dir = "/home/u/.claude";
  watch_files = "/home/u/.claude/b" ∷ [];
  allowed_clients = "n1" ∷ [];
  reverse_targets = record { node_id = "n2"; transport = "direct"; url = "wss://n2" } ∷ [];
  strategy = "";
  live_check = false;
  live_check_timeout = 0;
  mode = "to_stale_only";
  cooldown = 5;
}

profiles_read : parse_profiles system (λ b. some (raw_profile ∷ [])) [] ≡ done (read_profile ∷ [])
unfolding parse_profiles expand_path expand_path_from_dir clean keep_part
profiles_read = refl

parse_profiles-IsProfile_example :
    All IsProfile (read_profile ∷ [])
    × FreshProfiles [] (read_profile ∷ [])
    × (is_nil (read_profile ∷ []) ≡ false)
parse_profiles-IsProfile_example =
    parse_profiles-IsProfile system (λ b. some (raw_profile ∷ [])) [] (read_profile ∷ [])
      profiles_read

abbrev steps : List Step
steps =
    subscribing
    ∷ reloading (done (read_profile ∷ []))
    ∷ reloading (failed "bad yaml")
    ∷ reloading (done (profile ∷ []))
    ∷ receiving 0
    ∷ []

run-AreUpToDate_example :
    ((run (new_profile_store none) steps).profiles ≡ latest (new_profile_store none).profiles steps)
    × AreUpToDate (run (new_profile_store none) steps)
run-AreUpToDate_example =
    run-AreUpToDate (new_profile_store none) steps (unfold new_profile_store in tt)

abbrev sink : SinkConfig
sink = record {
  enabled = false;
  default_url_env = "";
  interval = pos 0;
  interval_raw = "";
  probe_timeout = pos 0;
  probe_timeout_raw = "";
  routes = [];
}

abbrev notifier : NotifierConfig
notifier = record {
  telegram = record {
    enabled = true;
    bot_token_env = "TOKEN";
    default_chat_id = "1";
    interval = pos 0;
    interval_raw = "";
    probe_timeout = pos 0;
    probe_timeout_raw = "";
    routes = [];
  };
  slack = record sink { enabled = true; default_url_env = "HOOK" };
  discord = sink;
  mattermost = sink;
  ntfy = record { sink = sink; priority = pos 0 };
  teams = sink;
}

abbrev pub written : ServerConfig
written = record {
  listen = ":8443";
  auth_mode = "jwt";
  pki = record { ca_cert = ""; server_cert = "/s.crt"; server_key = "/s.key" };
  jwt = record {
    secret_key_file = "/secret";
    issuer = "pangaea";
    audience = "agents";
    allow_first_frame_fallback = none;
    auth_timeout = 0;
    auth_timeout_raw = "5ns";
  };
  ssh_nodes = [];
  profiles_file = "/profiles.yaml";
  self_node = record { enabled = false; client_cert = ""; client_key = "" };
  notifier = notifier;
}

abbrev pub loaded : ServerConfig
loaded = record written { jwt = record written.jwt { auth_timeout = 5 } }

pub server_read : load_server system (λ b. some written) (done []) ≡ done loaded
unfolding load_server expand_path post_process_notifier clean keep_part
server_read = refl

load_server-IsServer_example : IsServer loaded × AreSinks loaded.notifier
load_server-IsServer_example = load_server-IsServer system (λ b. some written) [] loaded server_read
