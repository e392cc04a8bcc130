-- ===== src/Config/Paths.antt =====
-- internal/config/expand.go, with what it takes from os and path/filepath on Unix.
pub mod Absolute
pub mod Filled
use Prim.Native.Char.{Char, code}
use Prim.Native.String.{slice, len, ◌++◌}
use text.Mathlib.Text.{starts_with}
use pangaea.Prelude.{
  ℕ, zero, suc, ◌+◌, String, Bool, true, false, not, ◌&&◌, ◌||◌, Option, none, some, List, [], ◌∷◌,
  Result, failed, done, contains, is_nil, eqb, leb, ◌==◌, if◌then◌else◌, ℤ,
}

-- What the loading of a configuration asks of the system: os.LookupEnv and os.UserHomeDir, and
-- time.ParseDuration.
pub record Env : Type 0 where
  pub lookup_env : String → Option String
  pub user_home_dir : Result String String
  pub parse_duration : String → Result String ℤ

-- The components between the slashes, the empty ones included.
unfoldable pub push_char : Char → List String → List String
push_char c [] = String.◌∷◌ c "" ∷ []
push_char c (part ∷ parts) = String.◌∷◌ c part ∷ parts

unfoldable pub split_slashes : String → List String
unfolding push_char
split_slashes String.[] = "" ∷ []
split_slashes (String.◌∷◌ c s) =
    let rest = split_slashes s in if eqb (code c) b'/' then "" ∷ rest else push_char c rest

-- filepath.IsAbs
abbrev pub is_abs : String → Bool
is_abs String.[] = false
is_abs (String.◌∷◌ c s) = eqb (code c) b'/'

-- "..", over the components kept so far, the last first.
unfoldable pub go_up : Bool → List String → List String
go_up rooted [] = if rooted then [] else ".." ∷ []
go_up rooted (top ∷ below) = if top == ".." then ".." ∷ top ∷ below else below

unfoldable pub keep_part : Bool → List String → String → List String
unfolding go_up
keep_part rooted kept part =
    if part == "" || part == "."
    then kept
    else if part == ".."
    then go_up rooted kept
    else part ∷ kept

unfoldable pub keep_parts : Bool → List String → List String → List String
keep_parts rooted kept [] = kept
keep_parts rooted kept (part ∷ parts) = keep_parts rooted (keep_part rooted kept part) parts

-- The components that are kept, the last first, in front of a text.
unfoldable pub join_onto : String → List String → String
join_onto tail [] = tail
join_onto tail (part ∷ []) = part ++ tail
join_onto tail (part ∷ other ∷ below) = join_onto ("/" ++ (part ++ tail)) (other ∷ below)

unfoldable pub relative_or_dot : String → String
relative_or_dot s = if s == "" then "." else s

-- filepath.Clean
unfoldable pub clean : String → String
unfolding split_slashes keep_parts join_onto relative_or_dot
clean path =
    let joined = join_onto "" (keep_parts (is_abs path) [] (split_slashes path)) in
    if is_abs path then "/" ++ joined else relative_or_dot joined

-- filepath.Join of two texts that are not empty
abbrev pub join : String → String → String
join base path = clean (base ++ ("/" ++ path))

-- isShellSpecialVar and isAlphaNum of package os
abbrev pub is_shell_special : ℕ → Bool
is_shell_special c =
    eqb c b'*'
    || eqb c b'#'
    || eqb c b'$'
    || eqb c b'@'
    || eqb c b'!'
    || eqb c b'?'
    || eqb c b'-'
    || (leb b'0' c && leb c b'9')

abbrev pub is_alpha_num : ℕ → Bool
is_alpha_num c =
    eqb c b'_'
    || (leb b'0' c && leb c b'9')
    || (leb b'a' c && leb c b'z')
    || (leb b'A' c && leb c b'Z')

-- The name up to a closing brace, and its length, if there is a brace.
unfoldable pub brace_name : String → Option (String × ℕ)
brace_name String.[] = none
brace_name (String.◌∷◌ c s) =
    let rest = brace_name s in
    if eqb (code c) b'}'
    then some ("", 0)
    else elim rest [ none ↦ none | some found ↦ some (String.◌∷◌ c found.0, suc found.1) ]

unfoldable pub alpha_name : String → String × ℕ
alpha_name String.[] = ("", 0)
alpha_name (String.◌∷◌ c s) =
    let rest = alpha_name s in
    if is_alpha_num (code c) then (String.◌∷◌ c rest.0, suc rest.1) else ("", 0)

-- getShellName of package os: the name after a dollar sign, and the characters that it takes. A name
-- between braces that is empty is eaten with them, and so is a brace that is not closed.
unfoldable pub shell_name : String → String × ℕ
unfolding brace_name alpha_name
shell_name String.[] = ("", 0)
shell_name (String.◌∷◌ c s) =
    if eqb (code c) b'{'
    then elim (brace_name s) [ none ↦ ("", 1) | some found ↦ (found.0, found.1 + 2) ]
    else if is_shell_special (code c)
    then (String.◌∷◌ c "", 1)
    else alpha_name (String.◌∷◌ c s)

-- os.Expand with the mapping of expandEnvVars: the text, and the names that are not set. The number
-- is how many characters belong to a name.
unfoldable pub put_text : String → String × List String → String × List String
put_text t (rest, missing) = (t ++ rest, missing)

unfoldable pub put_value : Option String → String → String × List String → String × List String
put_value none name (rest, missing) = (rest, name ∷ missing)
put_value (some value) name (rest, missing) = (value ++ rest, missing)

unfoldable pub expand_from : Env → ℕ → String → String × List String
unfolding shell_name put_text put_value
expand_from env k String.[] = ("", [])
expand_from env (suc k) (String.◌∷◌ c s) = expand_from env k s
expand_from env zero (String.◌∷◌ c s) = elim (eqb (code c) b'$' && not (s == "")) [
  | false ↦ put_text (String.◌∷◌ c "") (expand_from env zero s)
  | true ↦ elim (shell_name s).0 [
    | String.[] ↦ elim (shell_name s).1 [
      | zero ↦ put_text "$" (expand_from env zero s)
      | suc w ↦ expand_from env (suc w) s
    ]
    | String.◌∷◌ d name ↦
        put_value (env.lookup_env (String.◌∷◌ d name)) (String.◌∷◌ d name)
          (expand_from env (shell_name s).1 s)
  ]
]

unfoldable pub expanded_or : String × List String → Result String String
expanded_or (text, missing) =
    if is_nil missing then done text else failed "undefined environment variable(s) in path"

-- expandEnvVars. The error lists the names; its text is kept short.
unfoldable pub expand_env_vars : Env → String → Result String String
unfolding expand_from expanded_or
expand_env_vars env p = expanded_or (expand_from env zero p)

unfoldable pub has_dollar : String → Bool
has_dollar String.[] = false
has_dollar (String.◌∷◌ c s) = eqb (code c) b'$' || has_dollar s

-- os.Getenv
unfoldable pub get_env : Env → String → String
get_env env name = elim (env.lookup_env name) [ none ↦ "" | some value ↦ value ]

-- ~/.claude under CLAUDE_CONFIG_DIR, where that is set.
unfoldable pub claude_dir : String → String → Option String
claude_dir dir p =
    if dir == ""
    then none
    else if p == "~/.claude"
    then some (clean dir)
    else if starts_with p "~/.claude/"
    then some (clean (dir ++ slice p 9 (len p)))
    else none

unfoldable pub clean_of : Result String String → String → Result String String
clean_of (failed e) rest = failed e
clean_of (done dir) rest = done (clean (dir ++ rest))

unfoldable pub expand_home : Env → String → Result String String
unfolding clean_of has_dollar expand_env_vars
expand_home env p =
    if p == "~"
    then clean_of env.user_home_dir ""
    else if starts_with p "~/"
    then clean_of env.user_home_dir (slice p 1 (len p))
    else if has_dollar p
    then clean_of (expand_env_vars env p) ""
    else done (clean p)

unfoldable pub expanded : Env → String → Option String → Result String String
unfolding expand_home
expanded env p (some path) = done path
expanded env p none = expand_home env p

-- ExpandPath
unfoldable pub expand_path : Env → String → Result String String
unfolding claude_dir get_env expanded
expand_path env p =
    if p == "" then done "" else expanded env p (claude_dir (get_env env "CLAUDE_CONFIG_DIR") p)

unfoldable pub resolve_from : String → Result String String → Result String String
resolve_from base (failed e) = failed e
resolve_from base (done v) =
    if v == ""
    then done ""
    else if is_abs v || base == ""
    then done (clean v)
    else done (clean (join base v))

-- ExpandPathFromDir
unfoldable pub expand_path_from_dir : Env → String → String → Result String String
unfolding expand_path resolve_from
expand_path_from_dir env base p = resolve_from base (expand_path env p)
