-- ===== src/Config/Profiles.antt =====
-- internal/config/profiles.go: how profiles.yaml becomes profiles. Decoding the YAML is a parameter.
-- The messages of the errors are kept short.
pub mod Parts
pub mod Valid
use pangaea.Prelude.{
  ℕ, String, Bool, true, false, not, ◌&&◌, List, [], ◌∷◌, ◌++◌, contains, is_nil, Option, none,
  some, Result, failed, done, ◌==◌, if◌then◌else◌, ℤ, is_negative, is_nonpositive, magnitude,
}
use pangaea.Config.{
  Profile, ReverseTarget, propagate_mode_stale_only, propagate_mode_all, default_propagate_cooldown,
}
use pangaea.Config.Paths.{Env, clean, expand_path, expand_path_from_dir}

-- rawProfile, with the fields of rawValidateSpec and rawPropagateSpec.
pub record RawProfile : Type 0 where
  pub name : String
  pub format : String
  pub dir : String
  pub watch_files : List String
  pub allowed_clients : List String
  pub reverse_targets : List ReverseTarget
  pub strategy : String
  pub live_check : Bool
  pub live_check_timeout : String
  pub mode : String
  pub cooldown : String

-- Go's if err != nil { return nil, err }
infixl 5 ◌then_do◌
abbrev pub ◌then_do◌ : {A B : Type 0} → Result String A → (A → Result String B) → Result String B
failed e then_do f = failed e
done a then_do f = f a

unfoldable pub convert_watch_file : Env → String → String → Result String String
convert_watch_file env dir f =
    if f == ""
    then failed "watch_files must not contain empty entries"
    else expand_path_from_dir env dir f then_do λ v. done (clean v)

unfoldable pub convert_watch_files : Env → String → List String → Result String (List String)
unfolding convert_watch_file
convert_watch_files env dir [] = done []
convert_watch_files env dir (f ∷ fs) =
    let rest = convert_watch_files env dir fs in
    convert_watch_file env dir f then_do λ v. rest then_do λ vs. done (v ∷ vs)

-- if target.Transport == "" { target.Transport = ReverseTransportDirect }
abbrev pub default_transport : ReverseTarget → ReverseTarget
default_transport t = if t.transport == "" then record t { transport = "direct" } else t

-- The checks of one reverse target, which come after the default.
unfoldable pub check_target : List String → ReverseTarget → Result String ReverseTarget
check_target seen t =
    if t.node_id == ""
    then failed "reverse_targets.node_id is required"
    else if not (t.transport == "direct") && not (t.transport == "ssh")
    then failed "reverse_targets.transport must be direct or ssh"
    else if t.transport == "direct" && t.url == ""
    then failed "reverse_targets.url is required when transport=direct"
    else if t.transport == "ssh" && not (t.url == "")
    then failed "reverse_targets.url must be empty when transport=ssh"
    else if contains seen t.node_id
    then failed "duplicate reverse target"
    else done t

unfoldable pub convert_targets :
    List String → List ReverseTarget → Result String (List ReverseTarget)
unfolding check_target
convert_targets seen [] = done []
convert_targets seen (t ∷ ts) =
    let rest = convert_targets (t.node_id ∷ seen) ts in
    check_target seen (default_transport t) then_do λ u. rest then_do λ us. done (u ∷ us)

unfoldable pub check_clients : List String → Result String (List String)
check_clients clients =
    if is_nil clients
    then failed "allowed_clients must not be empty"
    else if contains clients ""
    then failed "allowed_clients entry must not be empty"
    else done clients

unfoldable pub positive_timeout : ℤ → Result String ℕ
positive_timeout d =
    if is_nonpositive d
    then failed "validate.live_check_timeout must be positive"
    else done (magnitude d)

-- convertValidate, for the timeout
unfoldable pub convert_timeout : Env → String → Result String ℕ
unfolding positive_timeout
convert_timeout env s = if s == "" then done 0 else env.parse_duration s then_do positive_timeout

abbrev pub default_mode : String → String
default_mode mode = if mode == "" then propagate_mode_stale_only else mode

unfoldable pub check_mode : String → Result String String
check_mode mode =
    if not (mode == propagate_mode_stale_only) && not (mode == propagate_mode_all)
    then failed "propagate.mode must be to_stale_only or to_all"
    else done mode

unfoldable pub non_negative : ℤ → Result String ℕ
non_negative d =
    if is_negative d then failed "propagate.cooldown must be >= 0" else done (magnitude d)

unfoldable pub convert_cooldown : Env → String → Result String ℕ
unfolding non_negative
convert_cooldown env s =
    if s == "" then done default_propagate_cooldown else env.parse_duration s then_do non_negative

abbrev pub profile_of :
    RawProfile → String → List String → List String → List ReverseTarget → ℕ → String → ℕ → Profile
profile_of rp dir watch_files clients targets timeout mode cooldown = record {
  name = rp.name;
  format = rp.format;
  dir = dir;
  watch_files = watch_files;
  allowed_clients = clients;
  reverse_targets = targets;
  strategy = rp.strategy;
  live_check = rp.live_check;
  live_check_timeout = timeout;
  mode = mode;
  cooldown = cooldown;
}

-- convertProfile, once the texts that must not be empty are checked.
unfoldable pub convert_fields : Env → RawProfile → Result String Profile
unfolding convert_watch_files check_clients convert_targets convert_timeout check_mode
    convert_cooldown
convert_fields env rp = expand_path env rp.dir then_do λ dir.
    convert_watch_files env dir rp.watch_files then_do λ watch_files.
    check_clients rp.allowed_clients then_do λ clients.
    convert_targets [] rp.reverse_targets then_do λ targets.
    convert_timeout env rp.live_check_timeout then_do λ timeout.
    check_mode (default_mode rp.mode) then_do λ mode.
    convert_cooldown env rp.cooldown then_do λ cooldown.
    done (profile_of rp dir watch_files clients targets timeout mode cooldown)

unfoldable pub convert_profile : Env → RawProfile → Result String Profile
unfolding convert_fields
convert_profile env rp =
    if rp.name == ""
    then failed "profile has empty name"
    else if rp.format == ""
    then failed "profile: format is required"
    else if rp.dir == ""
    then failed "profile: dir must not be empty"
    else convert_fields env rp

unfoldable pub unless_seen : List String → Profile → Result String Profile
unless_seen seen p = if contains seen p.name then failed "duplicate profile name" else done p

unfoldable pub convert_profiles : Env → List String → List RawProfile → Result String (List Profile)
unfolding convert_profile unless_seen
convert_profiles env seen [] = done []
convert_profiles env seen (rp ∷ rps) =
    let rest = convert_profiles env (rp.name ∷ seen) rps in
    convert_profile env rp then_do unless_seen seen then_do λ p. rest then_do λ ps. done (p ∷ ps)

unfoldable pub convert_file : Env → Option (List RawProfile) → Result String (List Profile)
unfolding convert_profiles
convert_file env none = failed "parse profiles yaml"
convert_file env (some rps) =
    if is_nil rps then failed "profiles list is empty" else convert_profiles env [] rps

-- parseProfiles, with the YAML decoder.
unfoldable pub parse_profiles :
    Env → (List ℕ → Option (List RawProfile)) → List ℕ → Result String (List Profile)
unfolding convert_file
parse_profiles env decode raw = convert_file env (decode raw)

-- LoadProfiles, with the result of the read of the file.
unfoldable pub load_profiles :
    Env
    → (List ℕ → Option (List RawProfile))
    → Result String (List ℕ)
    → Result String (List Profile)
unfolding parse_profiles
load_profiles env decode (failed e) = failed e
load_profiles env decode (done raw) = parse_profiles env decode raw
