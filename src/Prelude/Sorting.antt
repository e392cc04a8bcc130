-- ===== src/Prelude/Sorting.antt =====
-- sort.Strings and slices.Compact: texts in the order of their code points, which is Go's order of
-- the UTF-8 bytes.
use Prim.Native.String.{String, compare}
use Prim.Native.Nat.{Ordering}
use mathlib.Core.Path.{◌≡◌, refl, ◌∙◌}
use mathlib.Core.Logic.{inl, inr}
use mathlib.Core.Bool.{Bool, true, false, ◌||◌}
use mathlib.Core.List.{List, [], ◌∷◌}
use text.Mathlib.Text.{◌==◌}
use native.Mathlib.Omega.{arith}
use text.Mathlib.TextEquality.{eq_iff}
use pangaea.Prelude.Tests.{Bool-cases, if◌then◌else◌}
use pangaea.Prelude.Lists.{contains}

-- a <= b
abbrev pub text_le : String → String → Bool
text_le a b = elim (compare a b) [ Ordering.gt ↦ false | _ ↦ true ]

insert_sorted : String → List String → List String
insert_sorted s [] = s ∷ []
insert_sorted s (x ∷ xs) = if text_le s x then s ∷ x ∷ xs else x ∷ insert_sorted s xs

unfoldable pub sort : List String → List String
unfolding insert_sorted
sort [] = []
sort (x ∷ xs) = insert_sorted x (sort xs)

compact_from : String → List String → List String
compact_from s [] = s ∷ []
compact_from s (x ∷ xs) = let rest = compact_from x xs in if s == x then rest else s ∷ rest

unfoldable pub compact : List String → List String
unfolding compact_from
compact [] = []
compact (x ∷ xs) = compact_from x xs

contains-insert_sorted :
    (s a : String) (xs : List String) → contains (insert_sorted s xs) a ≡ (s == a || contains xs a)
unfolding insert_sorted
contains-insert_sorted s a [] = refl
contains-insert_sorted s a (x ∷ xs) = elim (Bool-cases (text_le s x)) [
  | inl e ↦ rw e
  | inr e ↦ rw e (rw (contains-insert_sorted s a xs) (or_swap (x == a) (s == a) (contains xs a)))
]
  where
    or_swap : (p q r : Bool) → (p || (q || r)) ≡ (q || (p || r))
    or_swap p q r = ground arith

-- Sorting keeps the members.
pub contains-sort : (xs : List String) (a : String) → contains (sort xs) a ≡ contains xs a
unfolding sort
contains-sort [] a = refl
contains-sort (x ∷ xs) a = rw (contains-insert_sorted x a (sort xs), contains-sort xs a)

-- No member stands twice.
abbrev pub Distinct : List String → Type 0
Distinct [] = Unit
Distinct (x ∷ xs) = (contains xs x ≡ false) × Distinct xs

insert_sorted-Distinct :
    (s : String) (xs : List String)
    → contains xs s ≡ false
    → Distinct xs
    → Distinct (insert_sorted s xs)
unfolding insert_sorted
insert_sorted-Distinct s [] n d = (refl, tt)
insert_sorted-Distinct s (x ∷ xs) n d = elim (Bool-cases (text_le s x)) [
  | inl e ↦ rw e (n, d)
  | inr e ↦ rw e (
    rw (contains-insert_sorted s x xs) (ground (arith, eq_iff s x, eq_iff x s)),
    insert_sorted-Distinct s xs (ground arith) d.1,
  )
]

pub sort-Distinct : (xs : List String) → Distinct xs → Distinct (sort xs)
unfolding sort
sort-Distinct [] d = tt
sort-Distinct (x ∷ xs) d =
    insert_sorted-Distinct x (sort xs) (contains-sort xs x ∙ d.0) (sort-Distinct xs d.1)
