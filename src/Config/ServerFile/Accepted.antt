-- ===== src/Config/ServerFile/Accepted.antt =====
-- What LoadServer (server.go) accepts.
use pangaea.Prelude.{
  ℕ, ◌≡◌, ◌<◌, refl, subst, String, true, false, ◌&&◌, List, [], ◌∷◌, contains, is_nil, Option,
  none, some, done, ◌⊎◌, inl, inr, ◌==◌, arith, eq_iff, Bool-cases, ℤ, pos, negsuc, suc, zero,
}
use pangaea.Config.Paths.{Env}
use pangaea.Config.Profiles.Parts.{then_do-inv}
use pangaea.Config.ServerFile.{
  ServerConfig, SshNodeConfig, JwtServerConfig, is_port, normalize_auth_mode, positive_auth_timeout,
  auth_timeout_of, check_ssh_node, or_else, validate_ssh_nodes, check_self_node, check_jwt,
  check_listen, result_of, check_server, with_mode, validate_server, read_timeout,
}
use pangaea.Config.ServerFile.Sinks.{SinkConfig, has_unset_route}

abbrev pub IsGiven : String → Type 0
IsGiven s = (s == "") ≡ false

abbrev pub FreshNodes : List String → List SshNodeConfig → Type 0
FreshNodes seen [] = Unit
FreshNodes seen (n ∷ ns) =
    IsGiven n.node_id
    × IsGiven n.target
    × (is_port n.port ≡ true)
    × (contains seen n.node_id ≡ false)
    × FreshNodes (n.node_id ∷ seen) ns

-- A sink that is on has somewhere to send, and every route of it names its variable.
abbrev pub IsSink : SinkConfig → Type 0
IsSink s =
    s.enabled ≡ true
    → ((s.default_url_env == "" && is_nil s.routes) ≡ false) × (has_unset_route s.routes ≡ false)

-- A server configuration that can be served.
pub record IsServer (c : ServerConfig) : Type 0 where
  pub modes : (c.auth_mode ≡ "mtls") ⊎ (c.auth_mode ≡ "jwt")
  pub jwt_set :
      c.auth_mode ≡ "jwt"
      → IsGiven c.jwt.secret_key_file × IsGiven c.jwt.issuer × IsGiven c.jwt.audience
  pub ca_set : c.auth_mode ≡ "mtls" → IsGiven c.pki.ca_cert
  pub keys :
      IsGiven c.listen
      × IsGiven c.pki.server_cert
      × IsGiven c.pki.server_key
      × IsGiven c.profiles_file
  pub self_set :
      c.self_node.enabled ≡ true → IsGiven c.self_node.client_cert × IsGiven c.self_node.client_key
  pub nodes : FreshNodes [] c.ssh_nodes
  pub waits : 0 < c.jwt.auth_timeout

pub or_else-inv : (a b : Option String) → or_else a b ≡ none → (a ≡ none) × (b ≡ none)
or_else-inv none b h = (refl, h)
or_else-inv (some e) b h = cc

check_ssh_node-inv :
    (seen : List String) (n : SshNodeConfig)
    → check_ssh_node seen n ≡ none
    → IsGiven n.node_id
      × IsGiven n.target
      × (is_port n.port ≡ true)
      × (contains seen n.node_id ≡ false)
unfolding check_ssh_node
check_ssh_node-inv seen n h = ground (arith)

nodes_fresh :
    (seen : List String) (ns : List SshNodeConfig)
    → validate_ssh_nodes seen ns ≡ none
    → FreshNodes seen ns
unfolding validate_ssh_nodes
nodes_fresh seen [] h = tt
nodes_fresh seen (n ∷ ns) h =
    let (now, later) = or_else-inv (check_ssh_node seen n) _ h in
    let (named, placed, port, fresh) = check_ssh_node-inv seen n now in
    (named, placed, port, fresh, nodes_fresh (n.node_id ∷ seen) ns later)

check_listen-inv :
    (c : ServerConfig)
    → check_listen c ≡ none
    → IsGiven c.listen
      × IsGiven c.pki.server_cert
      × IsGiven c.pki.server_key
      × IsGiven c.profiles_file
      × ((c.auth_mode == "mtls" && c.pki.ca_cert == "") ≡ false)
unfolding check_listen
check_listen-inv c h = ground (arith)

check_self_node-inv :
    (c : ServerConfig)
    → check_self_node c.self_node ≡ none
    → c.self_node.enabled ≡ true
    → IsGiven c.self_node.client_cert × IsGiven c.self_node.client_key
unfolding check_self_node
check_self_node-inv c h on = ground (arith)

check_jwt-inv :
    (mode : String) (j : JwtServerConfig)
    → check_jwt mode j ≡ none
    → mode ≡ "jwt"
    → IsGiven j.secret_key_file × IsGiven j.issuer × IsGiven j.audience
unfolding check_jwt
check_jwt-inv mode j h e = ground (arith, eq_iff mode "jwt")

pub normalize_auth_mode-inv :
    (mode out : String) → normalize_auth_mode mode ≡ done out → (out ≡ "mtls") ⊎ (out ≡ "jwt")
unfolding normalize_auth_mode
normalize_auth_mode-inv mode out h = ground (arith, eq_iff mode "mtls", eq_iff mode "jwt")

positive_auth_timeout-inv : (d : ℤ) (t : ℕ) → positive_auth_timeout d ≡ done t → 0 < t
unfolding positive_auth_timeout
positive_auth_timeout-inv (pos zero) t h = cc
positive_auth_timeout-inv (pos (suc n)) t h = let same : suc n ≡ t = cc in omega arith
positive_auth_timeout-inv (negsuc n) t h = cc

auth_timeout-inv : (env : Env) (raw : String) (t : ℕ) → auth_timeout_of env raw ≡ done t → 0 < t
unfolding auth_timeout_of
auth_timeout-inv env raw t h = elim (Bool-cases (raw == "")) [
  | inl e ↦ let g = rw e at h in let same : read_timeout ≡ t = cc in omega arith
  | inr e ↦
      let g = rw e at h in
      let (d, ed, ep) = then_do-inv (env.parse_duration raw) positive_auth_timeout t g in
      positive_auth_timeout-inv d t ep
]

result_of-inv :
    (c d : ServerConfig) (o : Option String) → result_of c o ≡ done d → (c ≡ d) × (o ≡ none)
result_of-inv c d none h = (cc, refl)
result_of-inv c d (some e) h = cc

check_server-IsServer :
    (c d : ServerConfig)
    → ((c.auth_mode ≡ "mtls") ⊎ (c.auth_mode ≡ "jwt"))
    → 0 < c.jwt.auth_timeout
    → check_server c ≡ done d
    → IsServer d
unfolding check_server
check_server-IsServer c d mode waits h =
    let (same, quiet) = result_of-inv c d _ h in
    let (listens, quiet1) = or_else-inv (check_listen c) _ quiet in
    let (nodes, quiet2) = or_else-inv (validate_ssh_nodes [] c.ssh_nodes) _ quiet1 in
    let (self, jwt) = or_else-inv (check_self_node c.self_node) _ quiet2 in
    let (listen, cert, key, profiles, ca) = check_listen-inv c listens in
    subst IsServer same (record {
      modes = mode;
      jwt_set = check_jwt-inv c.auth_mode c.jwt jwt;
      ca_set = λ e. ground (arith, eq_iff c.auth_mode "mtls");
      keys = (listen, cert, key, profiles);
      self_set = check_self_node-inv c self;
      nodes = nodes_fresh [] c.ssh_nodes nodes;
      waits = waits;
    })

pub validate_server-IsServer :
    (env : Env) (c d : ServerConfig) → validate_server env c ≡ done d → IsServer d
unfolding validate_server
validate_server-IsServer env c d h =
    let (mode, em, h1) = then_do-inv (normalize_auth_mode c.auth_mode) _ d h in
    let (timeout, et, h2) = then_do-inv (auth_timeout_of env c.jwt.auth_timeout_raw) _ d h1 in
    check_server-IsServer (with_mode c mode timeout) d (normalize_auth_mode-inv c.auth_mode mode em)
      (auth_timeout-inv env c.jwt.auth_timeout_raw timeout et) h2
