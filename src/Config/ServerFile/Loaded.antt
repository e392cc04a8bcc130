-- ===== src/Config/ServerFile/Loaded.antt =====
-- LoadServer (server.go) as a whole: the expansion of paths and the notifier keep what was checked.
use pangaea.Prelude.{ℕ, ◌≡◌, subst, String, true, List, Option, none, some, done, arith}
use pangaea.Config.Paths.{Env, expand_path}
use pangaea.Config.Paths.Filled.{IsFilled, expand_path-IsFilled}
use pangaea.Config.Profiles.Parts.{then_do-inv}
use pangaea.Config.ServerFile.{
  ServerConfig, validate_server, expand_set, with_paths, expand_server_paths, post_process,
  load_decoded, load_server,
}
use pangaea.Config.ServerFile.Accepted.{IsGiven, IsSink, IsServer, validate_server-IsServer}
use pangaea.Config.ServerFile.Sinks.{
  SinkConfig, NotifierConfig, NtfyConfig, check_sink, parse_dur, post_process_sink, check_priority,
  post_process_ntfy, post_process_telegram, post_process_notifier, is_priority,
}

-- Every sink that is on has somewhere to send, and ntfy's priority is in its range.
pub record AreSinks (n : NotifierConfig) : Type 0 where
  pub slack : IsSink n.slack
  pub discord : IsSink n.discord
  pub mattermost : IsSink n.mattermost
  pub teams : IsSink n.teams
  pub ntfy : IsSink n.ntfy.sink
  pub priority : n.ntfy.sink.enabled ≡ true → is_priority n.ntfy.priority ≡ true

pub expand_set_keeps :
    (env : Env) (p v : String) → expand_set env p ≡ done v → IsGiven p → IsGiven v
unfolding expand_set
expand_set_keeps env p v h set =
    let g : expand_path env p ≡ done v = rw set at h in
    subst IsFilled g (expand_path-IsFilled env p set)

expand-IsServer :
    (env : Env) (c d : ServerConfig) → expand_server_paths env c ≡ done d → IsServer c → IsServer d
unfolding expand_server_paths
expand-IsServer env c d h s =
    let (ca, e1, h1) = then_do-inv (expand_set env c.pki.ca_cert) _ d h in
    let (cert, e2, h2) = then_do-inv (expand_set env c.pki.server_cert) _ d h1 in
    let (key, e3, h3) = then_do-inv (expand_set env c.pki.server_key) _ d h2 in
    let (secret, e4, h4) = then_do-inv (expand_set env c.jwt.secret_key_file) _ d h3 in
    let (file, e5, h5) = then_do-inv (expand_set env c.profiles_file) _ d h4 in
    let (own_cert, e6, h6) = then_do-inv (expand_set env c.self_node.client_cert) _ d h5 in
    let (own_key, e7, h7) = then_do-inv (expand_set env c.self_node.client_key) _ d h6 in
    let built : with_paths c ca cert key secret file own_cert own_key ≡ d = cc in
    subst IsServer built (record {
      modes = s.modes;
      jwt_set = λ m.
          let set = s.jwt_set m in
          (expand_set_keeps env c.jwt.secret_key_file secret e4 set.0, set.1, set.2);
      ca_set = λ m. expand_set_keeps env c.pki.ca_cert ca e1 (s.ca_set m);
      keys = (
        s.keys.0,
        expand_set_keeps env c.pki.server_cert cert e2 s.keys.1,
        expand_set_keeps env c.pki.server_key key e3 s.keys.2,
        expand_set_keeps env c.profiles_file file e5 s.keys.3,
      );
      self_set = λ on.
          let set = s.self_set on in
          (
            expand_set_keeps env c.self_node.client_cert own_cert e6 set.0,
            expand_set_keeps env c.self_node.client_key own_key e7 set.1,
          );
      nodes = s.nodes;
      waits = s.waits;
    })

check_sink-IsSink : (s t : SinkConfig) → check_sink s ≡ done t → IsSink t
unfolding check_sink
check_sink-IsSink s t h on = ground (arith)

post_process_sink-IsSink :
    (env : Env) (s t : SinkConfig) → post_process_sink env s ≡ done t → IsSink t
unfolding post_process_sink
post_process_sink-IsSink env s t h =
    let (i, ei, h1) = then_do-inv (parse_dur env s.interval s.interval_raw) _ t h in
    let (q, eq, h2) = then_do-inv (parse_dur env s.probe_timeout s.probe_timeout_raw) _ t h1 in
    check_sink-IsSink (record s { interval = i; probe_timeout = q }) t h2

check_priority-inv :
    (n m : NtfyConfig)
    → check_priority n ≡ done m
    → (n ≡ m) × (m.sink.enabled ≡ true → is_priority m.priority ≡ true)
unfolding check_priority
check_priority-inv n m h = (ground (arith), λ on. ground (arith))

post_process_ntfy-inv :
    (env : Env) (n m : NtfyConfig)
    → post_process_ntfy env n ≡ done m
    → IsSink m.sink × (m.sink.enabled ≡ true → is_priority m.priority ≡ true)
unfolding post_process_ntfy
post_process_ntfy-inv env n m h =
    let (s, es, h1) = then_do-inv (post_process_sink env n.sink) _ m h in
    let (same, ranged) = check_priority-inv (record n { sink = s }) m h1 in
    (
      subst (λ (x : NtfyConfig). IsSink x.sink) same (post_process_sink-IsSink env n.sink s es),
      ranged,
    )

post_process_notifier-AreSinks :
    (env : Env) (n m : NotifierConfig) → post_process_notifier env n ≡ done m → AreSinks m
unfolding post_process_notifier
post_process_notifier-AreSinks env n m h =
    let (telegram, e1, h1) = then_do-inv (post_process_telegram env n.telegram) _ m h in
    let (slack, e2, h2) = then_do-inv (post_process_sink env n.slack) _ m h1 in
    let (discord, e3, h3) = then_do-inv (post_process_sink env n.discord) _ m h2 in
    let (mattermost, e4, h4) = then_do-inv (post_process_sink env n.mattermost) _ m h3 in
    let (ntfy, e5, h5) = then_do-inv (post_process_ntfy env n.ntfy) _ m h4 in
    let (teams, e6, h6) = then_do-inv (post_process_sink env n.teams) _ m h5 in
    let whole : NotifierConfig = record {
      telegram = telegram;
      slack = slack;
      discord = discord;
      mattermost = mattermost;
      ntfy = ntfy;
      teams = teams;
    } in
    let built : whole ≡ m = cc in
    subst AreSinks built (record {
      slack = post_process_sink-IsSink env n.slack slack e2;
      discord = post_process_sink-IsSink env n.discord discord e3;
      mattermost = post_process_sink-IsSink env n.mattermost mattermost e4;
      teams = post_process_sink-IsSink env n.teams teams e6;
      ntfy = (post_process_ntfy-inv env n.ntfy ntfy e5).0;
      priority = (post_process_ntfy-inv env n.ntfy ntfy e5).1;
    })

post_process-IsServer :
    (env : Env) (c d : ServerConfig)
    → post_process env c ≡ done d
    → IsServer c
    → IsServer d × AreSinks d.notifier
unfolding post_process
post_process-IsServer env c d h s =
    let (n, en, h1) = then_do-inv (post_process_notifier env c.notifier) _ d h in
    let built : record c { notifier = n } ≡ d = cc in
    subst (λ (x : ServerConfig). IsServer x × AreSinks x.notifier) built
      (
        record {
          modes = s.modes;
          jwt_set = s.jwt_set;
          ca_set = s.ca_set;
          keys = s.keys;
          self_set = s.self_set;
          nodes = s.nodes;
          waits = s.waits;
        },
        post_process_notifier-AreSinks env c.notifier n en,
      )

load_decoded-IsServer :
    (env : Env) (o : Option ServerConfig) (d : ServerConfig)
    → load_decoded env o ≡ done d
    → IsServer d × AreSinks d.notifier
unfolding load_decoded
load_decoded-IsServer env none d h = cc
load_decoded-IsServer env (some c) d h =
    let (checked, e1, h1) = then_do-inv (validate_server env c) _ d h in
    let (placed, e2, h2) = then_do-inv (expand_server_paths env checked) _ d h1 in
    post_process-IsServer env placed d h2
      (expand-IsServer env checked placed e2 (validate_server-IsServer env c checked e1))

-- A server.yaml that LoadServer accepts has one of the two modes with what that mode needs, none of
-- it empty after the expansion of paths: a CA for mtls, a secret file, an issuer and an audience
-- for jwt. It has a listen address, a server key pair, a profiles file, a positive authentication
-- timeout, SSH nodes with distinct names and ports in range, and every webhook or ntfy sink that is
-- on has somewhere to send.
pub load_server-IsServer :
    (env : Env) (decode : List ℕ → Option ServerConfig) (raw : List ℕ) (d : ServerConfig)
    → load_server env decode (done raw) ≡ done d
    → IsServer d × AreSinks d.notifier
unfolding load_server
load_server-IsServer env decode raw d h = load_decoded-IsServer env (decode raw) d h
