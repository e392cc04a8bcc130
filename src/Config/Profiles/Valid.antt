-- ===== src/Config/Profiles/Valid.antt =====
-- What parseProfiles (profiles.go) accepts.
use pangaea.Prelude.{
  ℕ, ◌≡◌, refl, sym, ◌∙◌, ap, subst, String, true, false, List, [], ◌∷◌, All, contains, is_nil,
  Option, none, some, done, ◌⊎◌, inl, inr, ◌==◌, arith, Bool-cases,
}
use pangaea.Config.{Profile, propagate_mode_stale_only, propagate_mode_all}
use pangaea.Config.Paths.{Env, is_abs, expand_path}
use pangaea.Config.Profiles.{
  RawProfile, ◌then_do◌, convert_watch_files, convert_targets, check_clients, check_mode,
  default_mode, convert_timeout, convert_cooldown, convert_fields, profile_of, convert_profile,
  unless_seen, convert_profiles, convert_file, parse_profiles,
}
use pangaea.Config.Profiles.Parts.{
  IsTarget, FreshTargets, then_do-inv, nil_result, watch_files_absolute, targets_fresh,
  check_clients-inv, check_mode-inv,
}

-- No profile is named twice or among those seen.
abbrev pub FreshProfiles : List String → List Profile → Type 0
FreshProfiles seen [] = Unit
FreshProfiles seen (p ∷ ps) = (contains seen p.name ≡ false) × FreshProfiles (p.name ∷ seen) ps

-- A profile that the server can run.
pub record IsProfile (p : Profile) : Type 0 where
  pub named : (p.name == "") ≡ false
  pub typed : (p.format == "") ≡ false
  pub clients : is_nil p.allowed_clients ≡ false
  pub no_empty_client : contains p.allowed_clients "" ≡ false
  pub targets : All IsTarget p.reverse_targets
  pub distinct : FreshTargets [] p.reverse_targets
  pub modes : (p.mode ≡ propagate_mode_stale_only) ⊎ (p.mode ≡ propagate_mode_all)
  pub absolute : is_abs p.dir ≡ true → All (λ f. is_abs f ≡ true) p.watch_files

convert_fields-IsProfile :
    (env : Env) (rp : RawProfile) (p : Profile)
    → (rp.name == "") ≡ false
    → (rp.format == "") ≡ false
    → convert_fields env rp ≡ done p
    → IsProfile p × (p.name ≡ rp.name)
unfolding convert_fields
convert_fields-IsProfile env rp p named typed h =
    let (dir, ed, h1) = then_do-inv (expand_path env rp.dir) _ p h in
    let (files, ef, h2) = then_do-inv (convert_watch_files env dir rp.watch_files) _ p h1 in
    let (clients, ec, h3) = then_do-inv (check_clients rp.allowed_clients) _ p h2 in
    let (targets, et, h4) = then_do-inv (convert_targets [] rp.reverse_targets) _ p h3 in
    let (timeout, eo, h5) = then_do-inv (convert_timeout env rp.live_check_timeout) _ p h4 in
    let (mode, em, h6) = then_do-inv (check_mode (default_mode rp.mode)) _ p h5 in
    let (cooldown, ew, h7) = then_do-inv (convert_cooldown env rp.cooldown) _ p h6 in
    let admitted = check_clients-inv rp.allowed_clients clients ec in
    let fresh = targets_fresh [] rp.reverse_targets targets et in
    let built : profile_of rp dir files clients targets timeout mode cooldown ≡ p = cc in
    subst (λ (q : Profile). IsProfile q × (q.name ≡ rp.name)) built
      (
        record {
          named = named;
          typed = typed;
          clients = admitted.0;
          no_empty_client = admitted.1;
          targets = fresh.0;
          distinct = fresh.1;
          modes = check_mode-inv (default_mode rp.mode) mode em;
          absolute = λ rooted. watch_files_absolute env dir rooted rp.watch_files files ef;
        },
        refl,
      )

convert_profile-IsProfile :
    (env : Env) (rp : RawProfile) (p : Profile)
    → convert_profile env rp ≡ done p
    → IsProfile p × (p.name ≡ rp.name)
unfolding convert_profile
convert_profile-IsProfile env rp p h = elim (Bool-cases (rp.name == "")) [
  | inl e ↦ let g = rw e at h in cc
  | inr named ↦ elim (Bool-cases (rp.format == "")) [
    | inl e ↦ let g = rw (named, e) at h in cc
    | inr typed ↦ elim (Bool-cases (rp.dir == "")) [
      | inl e ↦ let g = rw (named, typed, e) at h in cc
      | inr there ↦ convert_fields-IsProfile env rp p named typed (rw (named, typed, there) at h)
    ]
  ]
]

unless_seen-inv :
    (seen : List String) (p q : Profile)
    → unless_seen seen p ≡ done q
    → (p ≡ q) × (contains seen p.name ≡ false)
unfolding unless_seen
unless_seen-inv seen p q h = ground (arith)

profiles_fresh :
    (env : Env) (seen : List String) (rps : List RawProfile) (ps : List Profile)
    → convert_profiles env seen rps ≡ done ps
    → All IsProfile ps × FreshProfiles seen ps
unfolding convert_profiles
profiles_fresh env seen [] ps h =
    subst (λ (l : List Profile). All IsProfile l × FreshProfiles seen l) {x = []} {y = ps}
      (nil_result h) (tt, tt)
profiles_fresh env seen (rp ∷ rps) ps h =
    let (p, ep, h1) = then_do-inv (convert_profile env rp then_do unless_seen seen) _ ps h in
    let (q, eq, h2) = then_do-inv (convert_profile env rp) _ p ep in
    let (rest, er, h3) = then_do-inv (convert_profiles env (rp.name ∷ seen) rps) _ ps h1 in
    let (same, fresh) = unless_seen-inv seen q p h2 in
    let (valid, name) = convert_profile-IsProfile env rp q eq in
    let (valids, others) = profiles_fresh env (rp.name ∷ seen) rps rest er in
    let called : rp.name ≡ p.name = sym name ∙ ap (λ (x : Profile). x.name) same in
    let built : p ∷ rest ≡ ps = cc in
    subst (λ (l : List Profile). All IsProfile l × FreshProfiles seen l) built
      (
        (subst IsProfile same valid, valids),
        (
          subst (λ (x : Profile). contains seen x.name ≡ false) same fresh,
          subst (λ i. FreshProfiles (i ∷ seen) rest) called others,
        ),
      )

some_profile :
    (env : Env) (rp : RawProfile) (rps : List RawProfile) (ps : List Profile)
    → convert_profiles env [] (rp ∷ rps) ≡ done ps
    → is_nil ps ≡ false
unfolding convert_profiles
some_profile env rp rps ps h =
    let (p, ep, h1) = then_do-inv (convert_profile env rp then_do unless_seen []) _ ps h in
    let (rest, er, h2) = then_do-inv (convert_profiles env (rp.name ∷ []) rps) _ ps h1 in
    let built : p ∷ rest ≡ ps = cc in subst (λ (l : List Profile). is_nil l ≡ false) built refl

convert_file-inv :
    (env : Env) (o : Option (List RawProfile)) (ps : List Profile)
    → convert_file env o ≡ done ps
    → All IsProfile ps × FreshProfiles [] ps × (is_nil ps ≡ false)
unfolding convert_file
convert_file-inv env none ps h = cc
convert_file-inv env (some []) ps h = cc
convert_file-inv env (some (rp ∷ rps)) ps h =
    let (valid, fresh) = profiles_fresh env [] (rp ∷ rps) ps h in
    (valid, fresh, some_profile env rp rps ps h)

-- A file that parseProfiles accepts has a profile, and no name twice. Each profile has a name, a
-- format, clients that are not empty texts, a mode of the two, reverse targets with distinct nodes
-- and a URL where the transport takes one, and only absolute watch files if its directory is
-- absolute.
pub parse_profiles-IsProfile :
    (env : Env) (decode : List ℕ → Option (List RawProfile)) (raw : List ℕ) (ps : List Profile)
    → parse_profiles env decode raw ≡ done ps
    → All IsProfile ps × FreshProfiles [] ps × (is_nil ps ≡ false)
unfolding parse_profiles
parse_profiles-IsProfile env decode raw ps h = convert_file-inv env (decode raw) ps h
