-- ===== src/Config/ClientFile.antt =====
-- internal/config/client.go: how client.yaml is checked. Decoding the YAML is a parameter, the
-- messages of the errors are kept short, and the settings of the log are left out.
pub mod Durations
pub mod Accepted
pub mod Connects
use text.Mathlib.Text.{starts_with}
use pangaea.Prelude.{
  ℕ, String, Bool, true, false, not, ◌&&◌, ◌||◌, List, [], ◌∷◌, contains, is_nil, Option, none,
  some, Result, failed, done, ◌==◌, if◌then◌else◌,
}
use pangaea.Config.Paths.{Env, clean, expand_path, expand_path_from_dir}
use pangaea.Config.Profiles.{◌then_do◌}
use pangaea.Config.ClientFile.Durations.{
  ReconnectConfig, RawReconnectConfig, CliUpgradeConfig, RawCliUpgradeConfig, convert_reconnect,
  convert_cli_upgrade,
}
use pangaea.Config.ServerFile.{PkiPaths, normalize_auth_mode, or_else, expand_set}

pub record JwtClientConfig : Type 0 where
  pub token_env : String
  pub token_file : String
  pub send_via : String

pub record ProfileBinding : Type 0 where
  pub name : String
  pub format : String
  pub dir : String
  pub watch_files : List String
  pub account_meta_path : String

pub record ClientPkiPaths : Type 0 where
  pub ca_cert : String
  pub client_cert : String
  pub client_key : String

-- Its pki is a ReversePKIPaths, which has the fields of the server's paths.
pub record ReverseConfig : Type 0 where
  pub listen : String
  pub pki : PkiPaths
  pub allowed_peers : List String

pub record ClientConfig : Type 0 where
  pub server : String
  pub auth_mode : String
  pub jwt : JwtClientConfig
  pub reverse : ReverseConfig
  pub node_id : String
  pub profiles : List ProfileBinding
  pub pki : ClientPkiPaths
  pub reconnect : ReconnectConfig
  pub cli_upgrade : CliUpgradeConfig

pub record RawClientConfig : Type 0 where
  pub server : String
  pub auth_mode : String
  pub jwt : JwtClientConfig
  pub reverse : ReverseConfig
  pub node_id : String
  pub profiles : List ProfileBinding
  pub pki : ClientPkiPaths
  pub reconnect : RawReconnectConfig
  pub cli_upgrade : RawCliUpgradeConfig

unfoldable pub normalize_jwt_send_via : String → Result String String
normalize_jwt_send_via v =
    if v == ""
    then done "auto"
    else if v == "auto" || v == "header" || v == "first_frame"
    then done v
    else failed "jwt.send_via must be auto, header or first_frame"

unfoldable pub check_binding : List String → ProfileBinding → Option String
check_binding seen p =
    if p.name == ""
    then some "client.profiles.name is required"
    else if contains seen p.name
    then some "client.profiles: duplicate name"
    else if p.dir == ""
    then some "client.profiles: dir must not be empty"
    else none

-- The loop of validateClient, with the names seen.
unfoldable pub check_bindings : List String → List ProfileBinding → Option String
unfolding check_binding
check_bindings seen [] = none
check_bindings seen (p ∷ ps) = or_else (check_binding seen p) (check_bindings (p.name ∷ seen) ps)

unfoldable pub check_server_and_node : ClientConfig → Option String
check_server_and_node c =
    if c.server == "" || not (starts_with c.server "wss://")
    then some "client.server must start with wss://"
    else if c.node_id == ""
    then some "client.node_id is required"
    else if is_nil c.profiles
    then some "client.profiles must list at least one binding"
    else none

unfoldable pub check_proof : ClientConfig → Option String
check_proof c =
    if c.pki.ca_cert == ""
    then some "client.pki.ca_cert is required"
    else if c.auth_mode == "mtls" && (c.pki.client_cert == "" || c.pki.client_key == "")
    then some "client.pki.{client_cert,client_key} are required when auth_mode=mtls"
    else if c.auth_mode == "jwt" && (c.jwt.token_env == "" && c.jwt.token_file == "")
    then some "client.jwt.token_env or client.jwt.token_file is required when auth_mode=jwt"
    else none

abbrev pub unless_failed : ClientConfig → Option String → Result String ClientConfig
unless_failed c none = done c
unless_failed c (some e) = failed e

-- The checks of validateClient that follow the two modes.
unfoldable pub check_client : ClientConfig → Result String ClientConfig
unfolding check_server_and_node check_bindings check_proof
check_client c =
    unless_failed c
      (or_else (check_server_and_node c) (or_else (check_bindings [] c.profiles) (check_proof c)))

abbrev pub with_modes : ClientConfig → String → String → ClientConfig
with_modes c mode via = record c { auth_mode = mode; jwt = record c.jwt { send_via = via } }

-- validateClient
unfoldable pub validate_client : ClientConfig → Result String ClientConfig
unfolding normalize_auth_mode normalize_jwt_send_via check_client
validate_client c = normalize_auth_mode c.auth_mode then_do λ mode.
    normalize_jwt_send_via c.jwt.send_via then_do λ via. check_client (with_modes c mode via)

unfoldable pub expand_meta_path : Env → String → String → Result String String
expand_meta_path env dir p =
    if p == "" then done "" else expand_path_from_dir env dir p then_do λ v. done (clean v)

unfoldable pub expand_files : Env → String → List String → Result String (List String)
expand_files env dir [] = done []
expand_files env dir (f ∷ fs) =
    let rest = expand_files env dir fs in
    expand_path_from_dir env dir f then_do λ v. rest then_do λ vs. done (clean v ∷ vs)

abbrev pub with_dir : ProfileBinding → String → String → List String → ProfileBinding
with_dir p dir meta files = record p { dir = dir; account_meta_path = meta; watch_files = files }

unfoldable pub expand_binding : Env → ProfileBinding → Result String ProfileBinding
unfolding expand_meta_path expand_files
expand_binding env p = expand_path env p.dir then_do λ dir.
    expand_meta_path env dir p.account_meta_path then_do λ meta.
    expand_files env dir p.watch_files then_do λ files. done (with_dir p dir meta files)

unfoldable pub expand_bindings : Env → List ProfileBinding → Result String (List ProfileBinding)
unfolding expand_binding
expand_bindings env [] = done []
expand_bindings env (p ∷ ps) =
    let rest = expand_bindings env ps in
    expand_binding env p then_do λ q. rest then_do λ qs. done (q ∷ qs)

abbrev pub with_client_paths :
    ClientConfig → ClientPkiPaths → String → PkiPaths → List ProfileBinding → ClientConfig
with_client_paths c pki token reverse profiles = record c {
  pki = pki;
  jwt = record c.jwt { token_file = token };
  reverse = record c.reverse { pki = reverse };
  profiles = profiles;
}

-- expandClientPaths
unfoldable pub expand_client_paths : Env → ClientConfig → Result String ClientConfig
unfolding expand_set expand_bindings
expand_client_paths env c = expand_set env c.pki.ca_cert then_do λ ca.
    expand_set env c.pki.client_cert then_do λ cert. expand_set env c.pki.client_key then_do λ key.
    expand_set env c.jwt.token_file then_do λ token.
    expand_set env c.reverse.pki.ca_cert then_do λ reverse_ca.
    expand_set env c.reverse.pki.server_cert then_do λ server_cert.
    expand_set env c.reverse.pki.server_key then_do λ server_key.
    expand_bindings env c.profiles then_do λ profiles. done (
      with_client_paths c (record { ca_cert = ca; client_cert = cert; client_key = key }) token
        (record { ca_cert = reverse_ca; server_cert = server_cert; server_key = server_key })
        profiles)

abbrev pub client_of : RawClientConfig → ReconnectConfig → CliUpgradeConfig → ClientConfig
client_of rc reconnect upgrade = record {
  server = rc.server;
  auth_mode = rc.auth_mode;
  jwt = rc.jwt;
  reverse = rc.reverse;
  node_id = rc.node_id;
  profiles = rc.profiles;
  pki = rc.pki;
  reconnect = reconnect;
  cli_upgrade = upgrade;
}

unfoldable pub convert_client : Env → Option RawClientConfig → Result String ClientConfig
unfolding convert_reconnect convert_cli_upgrade validate_client expand_client_paths
convert_client env none = failed "parse client.yaml"
convert_client env (some rc) = convert_reconnect env rc.reconnect then_do λ reconnect.
    convert_cli_upgrade env rc.cli_upgrade then_do λ upgrade.
    validate_client (client_of rc reconnect upgrade) then_do λ checked.
    expand_client_paths env checked

-- LoadClient, with the result of the read of the file and the YAML decoder.
unfoldable pub load_client :
    Env → (List ℕ → Option RawClientConfig) → Result String (List ℕ) → Result String ClientConfig
unfolding convert_client
load_client env decode (failed e) = failed e
load_client env decode (done raw) = convert_client env (decode raw)
