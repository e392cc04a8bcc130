-- ===== src/Config/ClientFile/Connects.antt =====
-- LoadClient (client.go) as a whole: the expansion of paths keeps what was checked.
use pangaea.Prelude.{
  ℕ, ◌≡◌, refl, sym, ◌∙◌, subst, String, true, false, List, [], ◌∷◌, contains, is_nil, Option, none,
  some, Result, done, ◌⊎◌, inl, inr,
}
use pangaea.Config.Paths.{Env, expand_path}
use pangaea.Config.Paths.Filled.{IsFilled, expand_path-IsFilled}
use pangaea.Config.Profiles.Parts.{then_do-inv, nil_result}
use pangaea.Config.ServerFile.{expand_set}
use pangaea.Config.ServerFile.Accepted.{IsGiven}
use pangaea.Config.ServerFile.Loaded.{expand_set_keeps}
use pangaea.Config.ClientFile.Durations.{convert_reconnect, convert_cli_upgrade}
use pangaea.Config.ClientFile.{
  ProfileBinding, ClientConfig, RawClientConfig, validate_client, with_dir, expand_meta_path,
  expand_files, expand_binding, expand_bindings, with_client_paths, expand_client_paths, client_of,
  convert_client, load_client,
}
use pangaea.Config.ClientFile.Accepted.{
  FreshBindings, AreWaits, IsClient, convert_reconnect-inv, convert_cli_upgrade-inv,
  validate_client-IsClient,
}

done_injective : {A : Type 0} {a b : A} → ◌≡◌ {A = Result String A} (done a) (done b) → a ≡ b
done_injective h = cc

expand_binding-inv :
    (env : Env) (p q : ProfileBinding)
    → expand_binding env p ≡ done q
    → IsGiven p.dir
    → (p.name ≡ q.name) × IsGiven q.dir
unfolding expand_binding
expand_binding-inv env p q h given =
    let (dir, e1, h1) = then_do-inv (expand_path env p.dir) _ q h in
    let (meta, e2, h2) = then_do-inv (expand_meta_path env dir p.account_meta_path) _ q h1 in
    let (files, e3, h3) = then_do-inv (expand_files env dir p.watch_files) _ q h2 in
    let built : with_dir p dir meta files ≡ q = cc in
    subst (λ (x : ProfileBinding). (p.name ≡ x.name) × IsGiven x.dir) built
      (refl, subst IsFilled e1 (expand_path-IsFilled env p.dir given))

expand_bindings-FreshBindings :
    (env : Env) (seen : List String) (ps qs : List ProfileBinding)
    → expand_bindings env ps ≡ done qs
    → FreshBindings seen ps
    → FreshBindings seen qs × (is_nil ps ≡ is_nil qs)
unfolding expand_bindings
expand_bindings-FreshBindings env seen [] qs h fresh =
    subst (λ (x : List ProfileBinding). FreshBindings seen x × (true ≡ is_nil x)) (nil_result h)
      (tt, refl)
expand_bindings-FreshBindings env seen (p ∷ ps) qs h (named, unseen, placed, rest) =
    let (q, eq, h1) = then_do-inv (expand_binding env p) _ qs h in
    let (others, eo, h2) = then_do-inv (expand_bindings env ps) _ qs h1 in
    let (same, dir) = expand_binding-inv env p q eq placed in
    let (later, _) = expand_bindings-FreshBindings env (p.name ∷ seen) ps others eo rest in
    let built : q ∷ others ≡ qs = cc in
    subst (λ (x : List ProfileBinding). FreshBindings seen x × (false ≡ is_nil x)) built
      (
        subst
            (λ n.
              IsGiven n
              × (contains seen n ≡ false)
              × IsGiven q.dir
              × FreshBindings (n ∷ seen) others)
            same (named, unseen, dir, later),
        refl,
      )

-- Of two paths one of which is given, one is given after the expansion.
expand_token :
    (env : Env) (name file v : String)
    → expand_set env file ≡ done v
    → IsGiven name ⊎ IsGiven file
    → IsGiven name ⊎ IsGiven v
expand_token env name file v e (inl n) = inl n
expand_token env name file v e (inr f) = inr (expand_set_keeps env file v e f)

expand-IsClient :
    (env : Env) (c d : ClientConfig) → expand_client_paths env c ≡ done d → IsClient c → IsClient d
unfolding expand_client_paths
expand-IsClient env c d h s =
    let (ca, e1, h1) = then_do-inv (expand_set env c.pki.ca_cert) _ d h in
    let (cert, e2, h2) = then_do-inv (expand_set env c.pki.client_cert) _ d h1 in
    let (key, e3, h3) = then_do-inv (expand_set env c.pki.client_key) _ d h2 in
    let (token, e4, h4) = then_do-inv (expand_set env c.jwt.token_file) _ d h3 in
    let (reverse_ca, e5, h5) = then_do-inv (expand_set env c.reverse.pki.ca_cert) _ d h4 in
    let (server_cert, e6, h6) = then_do-inv (expand_set env c.reverse.pki.server_cert) _ d h5 in
    let (server_key, e7, h7) = then_do-inv (expand_set env c.reverse.pki.server_key) _ d h6 in
    let (profiles, e8, h8) = then_do-inv (expand_bindings env c.profiles) _ d h7 in
    let (fresh, bound) = expand_bindings-FreshBindings env [] c.profiles profiles e8 s.bindings in
    let placed : ClientConfig =
      with_client_paths c (record { ca_cert = ca; client_cert = cert; client_key = key }) token
        (record { ca_cert = reverse_ca; server_cert = server_cert; server_key = server_key })
        profiles in
    let built : placed ≡ d = done_injective h8 in
    subst IsClient built (record {
      modes = s.modes;
      via = s.via;
      scheme = s.scheme;
      node = s.node;
      bound = sym bound ∙ s.bound;
      bindings = fresh;
      ca = expand_set_keeps env c.pki.ca_cert ca e1 s.ca;
      keys = λ m.
          let set = s.keys m in
          (
            expand_set_keeps env c.pki.client_cert cert e2 set.0,
            expand_set_keeps env c.pki.client_key key e3 set.1,
          );
      token = λ m. expand_token env c.jwt.token_env c.jwt.token_file token e4 (s.token m);
      waits = s.waits;
    })

convert_client-IsClient :
    (env : Env) (o : Option RawClientConfig) (d : ClientConfig)
    → convert_client env o ≡ done d
    → IsClient d
unfolding convert_client
convert_client-IsClient env none d h = cc
convert_client-IsClient env (some rc) d h =
    let (r, er, h1) = then_do-inv (convert_reconnect env rc.reconnect) _ d h in
    let (u, eu, h2) = then_do-inv (convert_cli_upgrade env rc.cli_upgrade) _ d h1 in
    let (checked, ec, h3) = then_do-inv (validate_client (client_of rc r u)) _ d h2 in
    let (initial, jitter, max) = convert_reconnect-inv env rc.reconnect r er in
    let (first, interval) = convert_cli_upgrade-inv env rc.cli_upgrade u eu in
    let waits : AreWaits r u = record {
      initial = initial;
      jitter = jitter;
      max = max;
      first = first;
      interval = interval;
    } in
    expand-IsClient env checked d h3 (validate_client-IsClient (client_of rc r u) checked waits ec)

-- A client.yaml that LoadClient accepts has a server that starts with wss://, a node id, a CA, and
-- one of the two modes with what that mode needs, none of it empty after the expansion of paths: a
-- key pair for mtls, a variable or a file of the token for jwt. It binds at least one profile, none
-- twice, each with a directory, and no wait of the reconnects and upgrades is zero.
pub load_client-IsClient :
    (env : Env) (decode : List ℕ → Option RawClientConfig) (raw : List ℕ) (d : ClientConfig)
    → load_client env decode (done raw) ≡ done d
    → IsClient d
unfolding load_client
load_client-IsClient env decode raw d h = convert_client-IsClient env (decode raw) d h
