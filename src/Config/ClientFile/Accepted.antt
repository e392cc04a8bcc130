-- ===== src/Config/ClientFile/Accepted.antt =====
-- What validateClient and the conversions of LoadClient (client.go) accept.
use text.Mathlib.Text.{starts_with}
use pangaea.Prelude.{
  ℕ, ◌≡◌, ◌<◌, refl, subst, String, true, false, ◌&&◌, ◌||◌, List, [], ◌∷◌, contains, is_nil,
  Option, none, some, done, ◌⊎◌, ◌==◌, arith, eq_iff, suc, zero,
}
use pangaea.Config.Paths.{Env}
use pangaea.Config.Profiles.Parts.{then_do-inv}
use pangaea.Config.ServerFile.{normalize_auth_mode}
use pangaea.Config.ServerFile.Accepted.{IsGiven, or_else-inv, normalize_auth_mode-inv}
use pangaea.Config.ClientFile.Durations.{
  ReconnectConfig, RawReconnectConfig, CliUpgradeConfig, RawCliUpgradeConfig, or_default,
  parse_dur_or_zero, reconnect_initial, reconnect_jitter, reconnect_max, convert_reconnect,
  convert_cli_upgrade,
}
use pangaea.Config.ClientFile.{
  ProfileBinding, ClientConfig, normalize_jwt_send_via, check_binding, check_bindings,
  check_server_and_node, check_proof, unless_failed, check_client, with_modes, validate_client,
}

-- No profile is bound twice or is among those seen, and every binding has a directory.
abbrev pub FreshBindings : List String → List ProfileBinding → Type 0
FreshBindings seen [] = Unit
FreshBindings seen (p ∷ ps) =
    IsGiven p.name
    × (contains seen p.name ≡ false)
    × IsGiven p.dir
    × FreshBindings (p.name ∷ seen) ps

-- No wait is zero.
pub record AreWaits (r : ReconnectConfig) (u : CliUpgradeConfig) : Type 0 where
  pub initial : 0 < r.initial_delay
  pub jitter : 0 < r.jitter
  pub max : 0 < r.max_delay
  pub first : 0 < u.initial_delay
  pub interval : 0 < u.interval

-- A client configuration that can connect.
pub record IsClient (c : ClientConfig) : Type 0 where
  pub modes : (c.auth_mode ≡ "mtls") ⊎ (c.auth_mode ≡ "jwt")
  pub via :
      (c.jwt.send_via ≡ "auto") ⊎ ((c.jwt.send_via ≡ "header") ⊎ (c.jwt.send_via ≡ "first_frame"))
  pub scheme : starts_with c.server "wss://" ≡ true
  pub node : IsGiven c.node_id
  pub bound : is_nil c.profiles ≡ false
  pub bindings : FreshBindings [] c.profiles
  pub ca : IsGiven c.pki.ca_cert
  pub keys : c.auth_mode ≡ "mtls" → IsGiven c.pki.client_cert × IsGiven c.pki.client_key
  pub token : c.auth_mode ≡ "jwt" → IsGiven c.jwt.token_env ⊎ IsGiven c.jwt.token_file
  pub waits : AreWaits c.reconnect c.cli_upgrade

or_default_positive : (d n : ℕ) → 0 < d → 0 < or_default d n
unfolding or_default
or_default_positive d zero h = h
or_default_positive d (suc n) h = omega arith

pub convert_reconnect-inv :
    (env : Env) (rc : RawReconnectConfig) (r : ReconnectConfig)
    → convert_reconnect env rc ≡ done r
    → (0 < r.initial_delay) × (0 < r.jitter) × (0 < r.max_delay)
unfolding convert_reconnect
convert_reconnect-inv env rc r h =
    let (i, ei, h1) = then_do-inv (parse_dur_or_zero env rc.initial_delay) _ r h in
    let (j, ej, h2) = then_do-inv (parse_dur_or_zero env rc.jitter) _ r h1 in
    let (m, em, h3) = then_do-inv (parse_dur_or_zero env rc.max_delay) _ r h2 in
    let whole : ReconnectConfig = record {
      initial_delay = or_default reconnect_initial i;
      jitter = or_default reconnect_jitter j;
      max_delay = or_default reconnect_max m;
    } in
    let built : whole ≡ r = cc in
    subst (λ (x : ReconnectConfig). (0 < x.initial_delay) × (0 < x.jitter) × (0 < x.max_delay))
      built
      (
        or_default_positive reconnect_initial i (omega arith),
        or_default_positive reconnect_jitter j (omega arith),
        or_default_positive reconnect_max m (omega arith),
      )

pub convert_cli_upgrade-inv :
    (env : Env) (rc : RawCliUpgradeConfig) (u : CliUpgradeConfig)
    → convert_cli_upgrade env rc ≡ done u
    → (0 < u.initial_delay) × (0 < u.interval)
unfolding convert_cli_upgrade
convert_cli_upgrade-inv env rc u h =
    let (i, ei, h1) = then_do-inv (parse_dur_or_zero env rc.initial_delay) _ u h in
    let (t, et, h2) = then_do-inv (parse_dur_or_zero env rc.interval) _ u h1 in
    let first : or_default 600000000000 i ≡ u.initial_delay = cc in
    let again : or_default 86400000000000 t ≡ u.interval = cc in
    (
      subst (λ x. 0 < x) first (or_default_positive 600000000000 i (omega arith)),
      subst (λ x. 0 < x) again (or_default_positive 86400000000000 t (omega arith)),
    )

pub normalize_jwt_send_via-inv :
    (v out : String)
    → normalize_jwt_send_via v ≡ done out
    → (out ≡ "auto") ⊎ ((out ≡ "header") ⊎ (out ≡ "first_frame"))
unfolding normalize_jwt_send_via
normalize_jwt_send_via-inv v out h =
    ground (arith, eq_iff v "auto", eq_iff v "header", eq_iff v "first_frame")

check_binding-inv :
    (seen : List String) (p : ProfileBinding)
    → check_binding seen p ≡ none
    → IsGiven p.name × (contains seen p.name ≡ false) × IsGiven p.dir
unfolding check_binding
check_binding-inv seen p h = ground (arith)

check_bindings-inv :
    (seen : List String) (ps : List ProfileBinding)
    → check_bindings seen ps ≡ none
    → FreshBindings seen ps
unfolding check_bindings
check_bindings-inv seen [] h = tt
check_bindings-inv seen (p ∷ ps) h =
    let (now, later) = or_else-inv (check_binding seen p) _ h in
    let (named, fresh, placed) = check_binding-inv seen p now in
    (named, fresh, placed, check_bindings-inv (p.name ∷ seen) ps later)

check_server_and_node-inv :
    (c : ClientConfig)
    → check_server_and_node c ≡ none
    → (starts_with c.server "wss://" ≡ true) × IsGiven c.node_id × (is_nil c.profiles ≡ false)
unfolding check_server_and_node
check_server_and_node-inv c h = ground (arith)

check_proof-inv :
    (c : ClientConfig)
    → check_proof c ≡ none
    → IsGiven c.pki.ca_cert
      × ((c.auth_mode == "mtls" && (c.pki.client_cert == "" || c.pki.client_key == "")) ≡ false)
      × ((c.auth_mode == "jwt" && (c.jwt.token_env == "" && c.jwt.token_file == "")) ≡ false)
unfolding check_proof
check_proof-inv c h = ground (arith)

unless_failed-inv :
    (c d : ClientConfig) (o : Option String) → unless_failed c o ≡ done d → (c ≡ d) × (o ≡ none)
unless_failed-inv c d none h = (cc, refl)
unless_failed-inv c d (some e) h = cc

check_client-IsClient :
    (c d : ClientConfig)
    → ((c.auth_mode ≡ "mtls") ⊎ (c.auth_mode ≡ "jwt"))
    → ((c.jwt.send_via ≡ "auto") ⊎ ((c.jwt.send_via ≡ "header") ⊎ (c.jwt.send_via ≡ "first_frame")))
    → AreWaits c.reconnect c.cli_upgrade
    → check_client c ≡ done d
    → IsClient d
unfolding check_client
check_client-IsClient c d mode via waits h =
    let (same, quiet) = unless_failed-inv c d _ h in
    let (first, quiet1) = or_else-inv (check_server_and_node c) _ quiet in
    let (bound, proof) = or_else-inv (check_bindings [] c.profiles) _ quiet1 in
    let (scheme, node, some_bound) = check_server_and_node-inv c first in
    let (ca, keyed, tokened) = check_proof-inv c proof in
    subst IsClient same (record {
      modes = mode;
      via = via;
      scheme = scheme;
      node = node;
      bound = some_bound;
      bindings = check_bindings-inv [] c.profiles bound;
      ca = ca;
      keys = λ m. ground (arith, eq_iff c.auth_mode "mtls");
      token = λ m. ground (arith, eq_iff c.auth_mode "jwt");
      waits = waits;
    })

pub validate_client-IsClient :
    (c d : ClientConfig)
    → AreWaits c.reconnect c.cli_upgrade
    → validate_client c ≡ done d
    → IsClient d
unfolding validate_client
validate_client-IsClient c d waits h =
    let (mode, em, h1) = then_do-inv (normalize_auth_mode c.auth_mode) _ d h in
    let (via, ev, h2) = then_do-inv (normalize_jwt_send_via c.jwt.send_via) _ d h1 in
    check_client-IsClient (with_modes c mode via) d (normalize_auth_mode-inv c.auth_mode mode em)
      (normalize_jwt_send_via-inv c.jwt.send_via via ev) waits h2
