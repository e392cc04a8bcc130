-- ===== src/Config/Profiles/Parts.antt =====
-- The parts of a profile that convertProfile (profiles.go) accepts.
use pangaea.Prelude.{
  ◌≡◌, refl, sym, ◌∙◌, ap, subst, String, true, false, List, [], ◌∷◌, All, contains, is_nil, Result,
  failed, done, ◌⊎◌, inl, inr, ◌==◌, arith, eq_iff, Bool-cases,
}
use pangaea.Config.{ReverseTarget, propagate_mode_stale_only, propagate_mode_all}
use pangaea.Config.Paths.{Env, clean, is_abs, expand_path_from_dir}
use pangaea.Config.Paths.Filled.{IsFilled, expand_path_from_dir-IsFilled}
use pangaea.Config.Paths.Absolute.{
  GivesAbsolute, clean_stays_absolute, expand_path_from_dir-GivesAbsolute,
}
use pangaea.Config.Profiles.{
  ◌then_do◌, convert_watch_file, convert_watch_files, default_transport, check_target,
  convert_targets, check_clients, check_mode,
}

-- The endpoint of a reverse target: a URL for a direct one, none over ssh.
abbrev pub IsTarget : ReverseTarget → Type 0
IsTarget t =
    ((t.node_id == "") ≡ false)
    × ((t.transport ≡ "direct") × ((t.url == "") ≡ false) ⊎ (t.transport ≡ "ssh") × (t.url ≡ ""))

-- No node is named twice or among those seen.
abbrev pub FreshTargets : List String → List ReverseTarget → Type 0
FreshTargets seen [] = Unit
FreshTargets seen (t ∷ ts) = (contains seen t.node_id ≡ false) × FreshTargets (t.node_id ∷ seen) ts

pub then_do-inv :
    {A B : Type 0} (r : Result String A) (f : A → Result String B) (b : B)
    → (r then_do f) ≡ done b
    → (x : A) × (r ≡ done x) × (f x ≡ done b)
then_do-inv (failed e) f b h = cc
then_do-inv (done x) f b h = (x, refl, h)

pub nil_result :
    {A : Type 0} {xs : List A}
    → ◌≡◌ {A = Result String (List A)} (done []) (done xs)
    → ◌≡◌ {A = List A} [] xs
nil_result h = cc

module _ (env : Env) (dir : String) (rooted : is_abs dir ≡ true) where
  watch_file_absolute : (f v : String) → convert_watch_file env dir f ≡ done v → is_abs v ≡ true
  unfolding convert_watch_file
  watch_file_absolute f v h = elim (Bool-cases (f == "")) [
    | inl e ↦ let g = rw e at h in cc
    | inr e ↦
        resolved e (expand_path_from_dir env dir f) (expand_path_from_dir-IsFilled env dir f e)
          (expand_path_from_dir-GivesAbsolute env dir f rooted) (rw e at h)
  ]
    where
      resolved :
          (e : (f == "") ≡ false) (r : Result String String)
          → IsFilled r
          → GivesAbsolute r
          → (r then_do λ u. done (clean u)) ≡ done v
          → is_abs v ≡ true
      resolved e (failed x) filled absolute g = cc
      resolved e (done u) filled absolute g =
          let same : clean u ≡ v = cc in
          subst (λ x. is_abs x ≡ true) same (clean_stays_absolute u (absolute filled))

  pub watch_files_absolute :
      (fs vs : List String)
      → convert_watch_files env dir fs ≡ done vs
      → All (λ f. is_abs f ≡ true) vs
  unfolding convert_watch_files
  watch_files_absolute [] vs h = subst (λ l. All (λ f. is_abs f ≡ true) l) {x = []} {y = vs} (cc) tt
  watch_files_absolute (f ∷ fs) vs h =
      let (v, ev, h1) = then_do-inv (convert_watch_file env dir f) _ vs h in
      let (rest, er, h2) = then_do-inv (convert_watch_files env dir fs) _ vs h1 in
      subst (λ l. All (λ f. is_abs f ≡ true) l) {x = v ∷ rest} {y = vs} (cc)
        (watch_file_absolute f v ev, watch_files_absolute fs rest er)

check_target-inv :
    (seen : List String) (t u : ReverseTarget)
    → check_target seen t ≡ done u
    → (t ≡ u) × IsTarget t × (contains seen t.node_id ≡ false)
unfolding check_target
check_target-inv seen t u h =
    ground (arith, eq_iff t.transport "direct", eq_iff t.transport "ssh", eq_iff t.url "")

default_keeps_node : (t : ReverseTarget) → (default_transport t).node_id ≡ t.node_id
default_keeps_node t = elim (Bool-cases (t.transport == "")) [
  | inl e ↦ rw e refl
  | inr e ↦ rw e refl
]

pub targets_fresh :
    (seen : List String) (ts us : List ReverseTarget)
    → convert_targets seen ts ≡ done us
    → All IsTarget us × FreshTargets seen us
unfolding convert_targets
targets_fresh seen [] us h =
    subst (λ (l : List ReverseTarget). All IsTarget l × FreshTargets seen l) {x = []} {y = us}
      (nil_result h) (tt, tt)
targets_fresh seen (t ∷ ts) us h =
    let (u, eu, h1) = then_do-inv (check_target seen (default_transport t)) _ us h in
    let (rest, er, h2) = then_do-inv (convert_targets (t.node_id ∷ seen) ts) _ us h1 in
    let (same, target, fresh) = check_target-inv seen (default_transport t) u eu in
    let (targets, others) = targets_fresh (t.node_id ∷ seen) ts rest er in
    let node : t.node_id ≡ u.node_id =
      sym (default_keeps_node t) ∙ ap (λ (x : ReverseTarget). x.node_id) same in
    let built : u ∷ rest ≡ us = cc in
    subst (λ (l : List ReverseTarget). All IsTarget l × FreshTargets seen l) built
      (
        (subst IsTarget same target, targets),
        (
          subst (λ (x : ReverseTarget). contains seen x.node_id ≡ false) same fresh,
          subst (λ i. FreshTargets (i ∷ seen) rest) node others,
        ),
      )

pub check_clients-inv :
    (xs ys : List String)
    → check_clients xs ≡ done ys
    → (is_nil ys ≡ false) × (contains ys "" ≡ false)
unfolding check_clients
check_clients-inv xs ys h = ground (arith)

pub check_mode-inv :
    (mode out : String)
    → check_mode mode ≡ done out
    → (out ≡ propagate_mode_stale_only) ⊎ (out ≡ propagate_mode_all)
unfolding check_mode
check_mode-inv mode out h =
    ground (arith, eq_iff mode propagate_mode_stale_only, eq_iff mode propagate_mode_all)
