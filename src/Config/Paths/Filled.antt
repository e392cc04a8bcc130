-- ===== src/Config/Paths/Filled.antt =====
-- ExpandPath and ExpandPathFromDir (expand.go) return no empty path for a text that is not empty.
use Prim.Native.String.{slice, len, ◌++◌}
use text.Mathlib.Text.{starts_with}
use pangaea.Prelude.{
  ◌≡◌, String, Bool, true, false, ◌||◌, Option, none, some, Result, failed, done, ◌==◌,
  if◌then◌else◌, refl,
}
use pangaea.Config.Paths.{
  Env, is_abs, clean, join, claude_dir, get_env, clean_of, expand_home, expand_env_vars, has_dollar,
  expanded, expand_path, resolve_from, expand_path_from_dir,
}
use pangaea.Config.Paths.Absolute.{clean_non_empty}

abbrev pub IsFilled : Result String String → Type 0
IsFilled (failed e) = Unit
IsFilled (done v) = (v == "") ≡ false

gate :
    (b : Bool) (x y : Result String String)
    → (b ≡ true → IsFilled x)
    → (b ≡ false → IsFilled y)
    → IsFilled (if b then x else y)
gate true x y hx hy = hx refl
gate false x y hx hy = hy refl

clean_of-IsFilled : (r : Result String String) (rest : String) → IsFilled (clean_of r rest)
unfolding clean_of
clean_of-IsFilled (failed e) rest = tt
clean_of-IsFilled (done dir) rest = clean_non_empty (dir ++ rest)

expand_home-IsFilled : (env : Env) (p : String) → IsFilled (expand_home env p)
unfolding expand_home
expand_home-IsFilled env p =
    gate (p == "~") _ _ (λ e. clean_of-IsFilled env.user_home_dir "")
      (λ e.
        gate (starts_with p "~/") _ _ (λ e. clean_of-IsFilled env.user_home_dir (slice p 1 (len p)))
          (λ e.
            gate (has_dollar p) _ _ (λ e. clean_of-IsFilled (expand_env_vars env p) "")
              (λ e. clean_non_empty p)))

-- A path of claude_dir, if there is one, is not empty.
abbrev IsFilledOption : Option String → Type 0
IsFilledOption none = Unit
IsFilledOption (some v) = (v == "") ≡ false

pick :
    (b : Bool) (x y : Option String)
    → IsFilledOption x
    → IsFilledOption y
    → IsFilledOption (if b then x else y)
pick true x y hx hy = hx
pick false x y hx hy = hy

claude_dir-IsFilled : (dir p : String) → IsFilledOption (claude_dir dir p)
unfolding claude_dir
claude_dir-IsFilled dir p = pick (dir == "") _ _ tt (
    pick (p == "~/.claude") _ _ (clean_non_empty dir) (
      pick (starts_with p "~/.claude/") (some (clean (dir ++ slice p 9 (len p)))) none
        (clean_non_empty (dir ++ slice p 9 (len p))) tt))

expanded-IsFilled :
    (env : Env) (p : String) (o : Option String) → IsFilledOption o → IsFilled (expanded env p o)
unfolding expanded
expanded-IsFilled env p none h = expand_home-IsFilled env p
expanded-IsFilled env p (some v) h = h

pub expand_path-IsFilled :
    (env : Env) (p : String) → (p == "") ≡ false → IsFilled (expand_path env p)
unfolding expand_path
expand_path-IsFilled env p ne = rw ne (
    expanded-IsFilled env p (claude_dir (get_env env "CLAUDE_CONFIG_DIR") p)
      (claude_dir-IsFilled (get_env env "CLAUDE_CONFIG_DIR") p))

resolve_from-IsFilled :
    (base : String) (r : Result String String) → IsFilled r → IsFilled (resolve_from base r)
unfolding resolve_from
resolve_from-IsFilled base (failed e) h = tt
resolve_from-IsFilled base (done v) h =
    gate (v == "") _ _ (λ e. cc)
      (λ e.
        gate (is_abs v || base == "") _ _ (λ a. clean_non_empty v)
          (λ a. clean_non_empty (join base v)))

pub expand_path_from_dir-IsFilled :
    (env : Env) (base p : String) → (p == "") ≡ false → IsFilled (expand_path_from_dir env base p)
unfolding expand_path_from_dir
expand_path_from_dir-IsFilled env base p ne =
    resolve_from-IsFilled base (expand_path env p) (expand_path-IsFilled env p ne)
