-- ===== src/JwtAuth/Profiles.antt =====
-- normalizeProfiles (jwtauth.go): what it keeps, and that once is enough.
use mathlib.Core.List.{append-nil, append_assoc}
use pangaea.Prelude.{
  ◌≡◌, refl, String, false, ◌&&◌, ◌||◌, not, List, [], ◌∷◌, ◌++◌, map, contains, ◌==◌, arith,
  eq_iff, Bool-cases, inl, inr, ◌∙◌, sym,
}
use pangaea.Strings.{trim_space}
use pangaea.Strings.Trimming.{trim_space_idem}
use pangaea.JwtAuth.{keep_profile, normalize_from, normalize_profiles}

-- Trimmed texts, not empty, of which none stands before.
abbrev IsFresh : List String → List String → Type 0
IsFresh before [] = Unit
IsFresh before (p ∷ rest) =
    (trim_space p ≡ p)
    × ((p == "") ≡ false)
    × (contains before p ≡ false)
    × IsFresh (before ++ (p ∷ [])) rest

IsFresh-append :
    (before out : List String) (p : String)
    → IsFresh before out
    → trim_space p ≡ p
    → (p == "") ≡ false
    → contains (before ++ out) p ≡ false
    → IsFresh before (out ++ (p ∷ []))
IsFresh-append before [] p f t e c = (t, e, rw append-nil at c, tt)
IsFresh-append before (q ∷ out) p f t e c =
    (f.0, f.1, f.2, IsFresh-append (before ++ (q ∷ [])) out p f.3 t e (rw append_assoc c))

keep_profile-IsFresh :
    (out : List String) (p : String)
    → IsFresh [] out
    → trim_space p ≡ p
    → IsFresh [] (keep_profile out p)
unfolding keep_profile
keep_profile-IsFresh out p f t = elim (Bool-cases (p == "" || contains out p)) [
  | inl e ↦ rw e f
  | inr e ↦ rw e (IsFresh-append [] out p f t (ground arith) (ground arith))
]

normalize_from-IsFresh :
    (out rest : List String) → IsFresh [] out → IsFresh [] (normalize_from out rest)
unfolding normalize_from
normalize_from-IsFresh out [] f = f
normalize_from-IsFresh out (p ∷ rest) f =
    normalize_from-IsFresh (keep_profile out (trim_space p)) rest
      (keep_profile-IsFresh out (trim_space p) f (trim_space_idem p))

normalize_from_idle :
    (out rest : List String) → IsFresh out rest → normalize_from out rest ≡ out ++ rest
unfolding normalize_from keep_profile
normalize_from_idle out [] f = sym (append-nil out)
normalize_from_idle out (p ∷ rest) f =
    rw (f.0, f.1, f.2)
      (normalize_from_idle (out ++ (p ∷ [])) rest f.3 ∙ append_assoc out (p ∷ []) rest)

pub normalize_profiles_idem :
    (profiles : List String)
    → normalize_profiles (normalize_profiles profiles) ≡ normalize_profiles profiles
normalize_profiles_idem profiles =
    normalize_from_idle [] (normalize_profiles profiles) (normalize_from-IsFresh [] profiles tt)

contains-append :
    (xs ys : List String) (q : String) → contains (xs ++ ys) q ≡ contains xs q || contains ys q
contains-append [] ys q = refl
contains-append (x ∷ xs) ys q = ground (arith, contains-append xs ys q)

contains-keep_profile :
    (out : List String) (p q : String)
    → contains (keep_profile out p) q ≡ contains out q || (p == q && not (q == ""))
unfolding keep_profile
contains-keep_profile out p q =
    ground (arith, contains-append out (p ∷ []) q, eq_iff p q, eq_iff p "", eq_iff q "")

contains-normalize_from :
    (out rest : List String) (q : String)
    → contains (normalize_from out rest) q
      ≡ contains out q || (contains (map trim_space rest) q && not (q == ""))
unfolding normalize_from
contains-normalize_from out [] q = ground arith
contains-normalize_from out (p ∷ rest) q = ground (
  arith,
  contains-normalize_from (keep_profile out (trim_space p)) rest q,
  contains-keep_profile out (trim_space p) q,
)

-- The profiles kept are the trimmed ones that are not empty.
pub contains-normalize_profiles :
    (profiles : List String) (q : String)
    → contains (normalize_profiles profiles) q
      ≡ (contains (map trim_space profiles) q && not (q == ""))
contains-normalize_profiles profiles q = contains-normalize_from [] profiles q
