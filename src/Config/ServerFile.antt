-- ===== src/Config/ServerFile.antt =====
-- internal/config/server.go and auth.go: how server.yaml is checked. Decoding the YAML is a parameter,
-- and the messages of the errors are kept short.
pub mod Sinks
pub mod Accepted
pub mod Loaded
use pangaea.Prelude.{
  ℕ, ◌+◌, String, Bool, true, false, not, ◌&&◌, ◌||◌, List, [], ◌∷◌, contains, Option, none, some,
  Result, failed, done, leb, ◌==◌, if◌then◌else◌, ℤ, pos, is_negative, is_nonpositive, magnitude,
}
use pangaea.Config.Paths.{Env, expand_path}
use pangaea.Config.Profiles.{◌then_do◌}
use pangaea.Config.ServerFile.Sinks.{NotifierConfig, post_process_notifier}

pub record PkiPaths : Type 0 where
  pub ca_cert : String
  pub server_cert : String
  pub server_key : String

pub record JwtServerConfig : Type 0 where
  pub secret_key_file : String
  pub issuer : String
  pub audience : String
  pub allow_first_frame_fallback : Option Bool
  pub auth_timeout : ℕ
  pub auth_timeout_raw : String

pub record SshNodeConfig : Type 0 where
  pub node_id : String
  pub target : String
  pub port : ℤ
  pub use_ssh_config : Bool
  pub reverse_addr : String
  pub command : String
  pub config_path : String

pub record SelfNodeConfig : Type 0 where
  pub enabled : Bool
  pub client_cert : String
  pub client_key : String

pub record ServerConfig : Type 0 where
  pub listen : String
  pub auth_mode : String
  pub pki : PkiPaths
  pub jwt : JwtServerConfig
  pub ssh_nodes : List SshNodeConfig
  pub profiles_file : String
  pub self_node : SelfNodeConfig
  pub notifier : NotifierConfig

-- UnmarshalYAML of an SSH node: use_ssh_config is true where it is not given.
abbrev pub use_ssh_config_or_default : Option Bool → Bool
use_ssh_config_or_default none = true
use_ssh_config_or_default (some b) = b

-- common.ReadTimeout, in nanoseconds
abbrev pub read_timeout : ℕ
read_timeout = 45000000000

unfoldable pub normalize_auth_mode : String → Result String String
normalize_auth_mode mode =
    if mode == ""
    then done "mtls"
    else if mode == "mtls" || mode == "jwt"
    then done mode
    else failed "auth_mode must be mtls or jwt"

unfoldable pub positive_auth_timeout : ℤ → Result String ℕ
positive_auth_timeout d =
    if is_nonpositive d
    then failed "server.jwt.auth_timeout must be positive"
    else done (magnitude d)

unfoldable pub auth_timeout_of : Env → String → Result String ℕ
unfolding positive_auth_timeout
auth_timeout_of env raw =
    if raw == "" then done read_timeout else env.parse_duration raw then_do positive_auth_timeout

-- node.Port < 0 || node.Port > 65535
abbrev pub is_port : ℤ → Bool
is_port p = not (is_negative p) && leb (magnitude p) 65535

unfoldable pub check_ssh_node : List String → SshNodeConfig → Option String
check_ssh_node seen n =
    if n.node_id == ""
    then some "ssh_nodes.node_id is required"
    else if n.target == ""
    then some "ssh_nodes.target is required"
    else if not (is_port n.port)
    then some "ssh_nodes.port must be 0 or between 1 and 65535"
    else if contains seen n.node_id
    then some "duplicate ssh_nodes.node_id"
    else none

-- if err := ...; err != nil { return err }
abbrev pub or_else : Option String → Option String → Option String
or_else none next = next
or_else (some e) next = some e

-- validateSSHNodes, with the names seen
unfoldable pub validate_ssh_nodes : List String → List SshNodeConfig → Option String
unfolding check_ssh_node
validate_ssh_nodes seen [] = none
validate_ssh_nodes seen (n ∷ ns) =
    or_else (check_ssh_node seen n) (validate_ssh_nodes (n.node_id ∷ seen) ns)

unfoldable pub check_self_node : SelfNodeConfig → Option String
check_self_node n =
    if n.enabled && (n.client_cert == "" || n.client_key == "")
    then some "self_node.client_cert and self_node.client_key are required when enabled"
    else none

unfoldable pub check_jwt : String → JwtServerConfig → Option String
check_jwt mode j =
    if not (mode == "jwt")
    then none
    else if j.secret_key_file == ""
    then some "server.jwt.secret_key_file is required when auth_mode=jwt"
    else if j.issuer == ""
    then some "server.jwt.issuer is required when auth_mode=jwt"
    else if j.audience == ""
    then some "server.jwt.audience is required when auth_mode=jwt"
    else none

unfoldable pub check_listen : ServerConfig → Option String
check_listen c =
    if c.listen == ""
    then some "server.listen is required"
    else if c.pki.server_cert == "" || c.pki.server_key == ""
    then some "server.pki.{server_cert,server_key} are required"
    else if c.auth_mode == "mtls" && c.pki.ca_cert == ""
    then some "server.pki.ca_cert is required when auth_mode=mtls"
    else if c.profiles_file == ""
    then some "server.profiles_file is required"
    else none

abbrev pub result_of : ServerConfig → Option String → Result String ServerConfig
result_of c none = done c
result_of c (some e) = failed e

-- The checks of validateServer that follow the mode and the timeout.
unfoldable pub check_server : ServerConfig → Result String ServerConfig
unfolding check_listen validate_ssh_nodes check_self_node check_jwt
check_server c = result_of c (
    or_else (check_listen c) (
      or_else (validate_ssh_nodes [] c.ssh_nodes)
        (or_else (check_self_node c.self_node) (check_jwt c.auth_mode c.jwt))))

abbrev pub with_mode : ServerConfig → String → ℕ → ServerConfig
with_mode c mode timeout = record c {
  auth_mode = mode;
  jwt = record c.jwt { auth_timeout = timeout };
}

-- validateServer
unfoldable pub validate_server : Env → ServerConfig → Result String ServerConfig
unfolding normalize_auth_mode auth_timeout_of check_server
validate_server env c = normalize_auth_mode c.auth_mode then_do λ mode.
    auth_timeout_of env c.jwt.auth_timeout_raw then_do λ timeout.
    check_server (with_mode c mode timeout)

-- One path of expandServerPaths
unfoldable pub expand_set : Env → String → Result String String
expand_set env p = if p == "" then done "" else expand_path env p

abbrev pub with_paths :
    ServerConfig → String → String → String → String → String → String → String → ServerConfig
with_paths c ca cert key secret profiles client_cert client_key = record c {
  pki = record { ca_cert = ca; server_cert = cert; server_key = key };
  jwt = record c.jwt { secret_key_file = secret };
  profiles_file = profiles;
  self_node = record c.self_node { client_cert = client_cert; client_key = client_key };
}

-- expandServerPaths
unfoldable pub expand_server_paths : Env → ServerConfig → Result String ServerConfig
unfolding expand_set
expand_server_paths env c = expand_set env c.pki.ca_cert then_do λ ca.
    expand_set env c.pki.server_cert then_do λ cert. expand_set env c.pki.server_key then_do λ key.
    expand_set env c.jwt.secret_key_file then_do λ secret.
    expand_set env c.profiles_file then_do λ profiles.
    expand_set env c.self_node.client_cert then_do λ client_cert.
    expand_set env c.self_node.client_key then_do λ client_key.
    done (with_paths c ca cert key secret profiles client_cert client_key)

-- postProcessNotifier, on the configuration
unfoldable pub post_process : Env → ServerConfig → Result String ServerConfig
post_process env c =
    post_process_notifier env c.notifier then_do λ n. done (record c { notifier = n })

unfoldable pub load_decoded : Env → Option ServerConfig → Result String ServerConfig
unfolding validate_server expand_server_paths post_process
load_decoded env none = failed "parse server.yaml"
load_decoded env (some c) = validate_server env c then_do λ checked.
    expand_server_paths env checked then_do λ placed. post_process env placed

-- LoadServer, with the result of the read of the file and the YAML decoder.
unfoldable pub load_server :
    Env → (List ℕ → Option ServerConfig) → Result String (List ℕ) → Result String ServerConfig
unfolding load_decoded
load_server env decode (failed e) = failed e
load_server env decode (done raw) = load_decoded env (decode raw)
