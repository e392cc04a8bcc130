-- ===== src/Config/Paths/Absolute.antt =====
-- ExpandPathFromDir (expand.go) keeps what is under an absolute directory absolute.
use Prim.Native.String.{◌++◌}
use text.Mathlib.TextLemmas.{cons-append, cons-ne-nil}
use pangaea.Prelude.{
  [], ◌≡◌, refl, subst, String, Bool, true, false, ◌||◌, Result, failed, done, ◌==◌, arith, eq_iff,
  Bool-cases, ==-false, inl, inr, if◌then◌else◌,
}
use pangaea.Config.Paths.{
  Env, is_abs, clean, join, relative_or_dot, resolve_from, expand_path, expand_path_from_dir,
  keep_parts, join_onto, split_slashes,
}

is_abs-append : (s t : String) → is_abs s ≡ true → is_abs (s ++ t) ≡ true
is_abs-append String.[] t h = cc
is_abs-append (String.◌∷◌ c s) t h = rw (cons-append c s t) h

pub clean_stays_absolute : (p : String) → is_abs p ≡ true → is_abs (clean p) ≡ true
unfolding clean
clean_stays_absolute p h =
    rw h (is_abs-append "/" (join_onto "" (keep_parts true [] (split_slashes p))) refl)

absolute_non_empty : (s : String) → is_abs s ≡ true → (s == "") ≡ false
absolute_non_empty String.[] h = cc
absolute_non_empty (String.◌∷◌ c s) h = ==-false (String.◌∷◌ c s) "" (λ e. cons-ne-nil c s e)

pub clean_non_empty : (p : String) → (clean p == "") ≡ false
unfolding clean relative_or_dot
clean_non_empty p =
    nothing_empty (is_abs p) (join_onto "" (keep_parts (is_abs p) [] (split_slashes p)))
  where
    nothing_empty :
        (rooted : Bool) (joined : String)
        → ((if rooted then "/" ++ joined else (if joined == "" then "." else joined)) == "") ≡ false
    nothing_empty true joined = absolute_non_empty ("/" ++ joined) (is_abs-append "/" joined refl)
    nothing_empty false joined = elim (Bool-cases (joined == "")) [
      | inl e ↦ rw e refl
      | inr e ↦ rw (e, e) refl
    ]

-- A path that is returned is empty or absolute.
abbrev pub GivesAbsolute : Result String String → Type 0
GivesAbsolute (failed e) = Unit
GivesAbsolute (done v) = (v == "") ≡ false → is_abs v ≡ true

gate :
    (b : Bool) (x y : Result String String)
    → (b ≡ true → GivesAbsolute x)
    → (b ≡ false → GivesAbsolute y)
    → GivesAbsolute (if b then x else y)
gate true x y hx hy = hx refl
gate false x y hx hy = hy refl

absolute_or_joined :
    (base u : String) → is_abs base ≡ true → (is_abs u || base == "") ≡ true → is_abs u ≡ true
absolute_or_joined base u b h = elim (Bool-cases (base == "")) [
  | inl e ↦ let g = subst (λ x. is_abs x ≡ true) ((eq_iff base "").0 e) b in cc
  | inr e ↦ ground (arith)
]

resolve_from-GivesAbsolute :
    (base : String) (r : Result String String)
    → is_abs base ≡ true
    → GivesAbsolute (resolve_from base r)
unfolding resolve_from
resolve_from-GivesAbsolute base (failed e) b = tt
resolve_from-GivesAbsolute base (done u) b =
    gate (u == "") _ _ (λ e ne. cc)
      (λ e.
        gate (is_abs u || base == "") _ _
          (λ a ne. clean_stays_absolute u (absolute_or_joined base u b a))
          (λ n ne.
            clean_stays_absolute (join base u)
              (clean_stays_absolute (base ++ ("/" ++ u)) (is_abs-append base ("/" ++ u) b))))

-- Under an absolute directory a path that is returned is empty or absolute.
pub expand_path_from_dir-GivesAbsolute :
    (env : Env) (base p : String)
    → is_abs base ≡ true
    → GivesAbsolute (expand_path_from_dir env base p)
unfolding expand_path_from_dir
expand_path_from_dir-GivesAbsolute env base p b =
    resolve_from-GivesAbsolute base (expand_path env p) b
