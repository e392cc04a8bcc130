-- ===== src/Prelude/Maps.antt =====
-- Go's map[string]V as an association list, in some order of iteration.
use Prim.Native.String.{String}
use mathlib.Core.Path.{◌≡◌, refl, ap, subst}
use mathlib.Core.Logic.{inl, inr}
use mathlib.Core.Option.{Option, none, some}
use mathlib.Core.List.{List, [], ◌∷◌}
use native.Mathlib.Omega.{arith}
use text.Mathlib.Text.{◌==◌}
use text.Mathlib.TextEquality.{eq_iff}
use text.Mathlib.TextPositions.{eq_refl}
use pangaea.Prelude.Lists.{In}
use pangaea.Prelude.Tests.{Bool-cases, ==_flip, if◌then◌else◌}

abbrev pub Assoc {ℓ} : Type ℓ → Type ℓ
Assoc V = List (String × V)

module _ {ℓ} {V : Type ℓ} where
  -- v, ok := m[k]
  unfoldable pub lookup : String → Assoc V → Option V
  lookup key [] = none
  lookup key ((i, held) ∷ rest) = if i == key then some held else lookup key rest

  -- m[k] = v
  unfoldable pub insert : String → V → Assoc V → Assoc V
  insert key value [] = (key, value) ∷ []
  insert key value ((i, held) ∷ rest) =
      if i == key then (key, value) ∷ rest else (i, held) ∷ insert key value rest

  -- delete(m, k)
  unfoldable pub delete : String → Assoc V → Assoc V
  delete key [] = []
  delete key ((i, held) ∷ rest) =
      let others = delete key rest in if i == key then others else (i, held) ∷ others

  pub lookup-insert :
      (key other : String) (new : V) (m : Assoc V)
      → lookup other (insert key new m) ≡ (if key == other then some new else lookup other m)
  unfolding lookup insert
  lookup-insert key other new [] = refl
  lookup-insert key other new ((i, held) ∷ rest) =
      let below = lookup-insert key other new rest in
      ground (arith, below, eq_iff i other, eq_iff i key, eq_iff key other)

  pub lookup-delete :
      (k j : String) (m : Assoc V) → lookup j (delete k m) ≡ (if k == j then none else lookup j m)
  unfolding lookup delete
  lookup-delete k j [] = ground arith
  lookup-delete k j ((i, w) ∷ m) =
      ground (arith, eq_iff k j, eq_iff i k, eq_iff i j, lookup-delete k j m)

  pub lookup-insert_self : (k : String) (v : V) (m : Assoc V) → lookup k (insert k v m) ≡ some v
  lookup-insert_self k v m = simp (lookup-insert, eq_refl)

  -- No key stands twice, as in any Go map.
  abbrev pub Unique : Assoc V → Type ℓ
  Unique [] = Unit
  Unique ((k, v) ∷ m) = (lookup k m ≡ none) × Unique m

  pub insert-Unique : (k : String) (v : V) (m : Assoc V) → Unique m → Unique (insert k v m)
  unfolding lookup insert
  insert-Unique k v [] u = (refl, tt)
  insert-Unique k v ((j, w) ∷ m) u = elim (Bool-cases (j == k)) [
    | inl e ↦ rw e (subst (λ i. lookup i m ≡ none) ((eq_iff j k).0 e) u.0, u.1)
    | inr e ↦ rw e (rw (lookup-insert k j v m) (rw (==_flip k j e) u.0), insert-Unique k v m u.1)
  ]

  pub delete-Unique : (k : String) (m : Assoc V) → Unique m → Unique (delete k m)
  unfolding delete
  delete-Unique k [] u = tt
  delete-Unique k ((j, w) ∷ m) u = elim (Bool-cases (j == k)) [
    | inl e ↦ rw e (delete-Unique k m u.1)
    | inr e ↦ rw e (rw (lookup-delete k j m) (rw (==_flip k j e) u.0), delete-Unique k m u.1)
  ]

pub ruleset map_laws = (lookup-insert, lookup-delete)

module _ {V : Type 0} where
  -- In a map an entry is what a lookup of its key finds.
  pub lookup_of_In :
      (k : String) (v : V) (m : Assoc V) → Unique m → In (k, v) m → lookup k m ≡ some v
  unfolding lookup
  lookup_of_In k v [] u i = absurd i
  lookup_of_In k v ((j, w) ∷ m) u (inl e) =
      let f : j ≡ k = ap (λ p. p.0) e in
      let g : w ≡ v = ap (λ p. p.1) e in rw (f, g) (rw (eq_refl k))
  lookup_of_In k v ((j, w) ∷ m) u (inr i) =
      let found = lookup_of_In k v m u.1 i in
      elim (Bool-cases (j == k)) [
        | inl e ↦ cc (found, u.0, ap (λ x. lookup x m) ((eq_iff j k).0 e))
        | inr e ↦ rw e found
      ]

  pub In_of_lookup : (k : String) (v : V) (m : Assoc V) → lookup k m ≡ some v → In (k, v) m
  unfolding lookup
  In_of_lookup k v [] h = cc
  In_of_lookup k v ((j, w) ∷ m) h = elim (Bool-cases (j == k)) [
    | inl e ↦ let f = (eq_iff j k).0 e in let g : w ≡ v = ground (arith) in inl (λ i. (f i, g i))
    | inr e ↦ inr (In_of_lookup k v m (rw e at h))
  ]
