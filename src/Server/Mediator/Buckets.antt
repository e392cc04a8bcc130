-- ===== src/Server/Mediator/Buckets.antt =====
-- What `by_account` of reselect (mediator.go) holds: each account's viable candidates.
use pangaea.Prelude.{
  String, ◌≡◌, refl, inl, inr, true, ◌&&◌, Option, none, some, List, [], ◌∷◌, ◌++◌, Assoc, Unique,
  lookup, insert, lookup-insert, insert-Unique, Bool-cases, eq_iff, ◌==◌, if◌then◌else◌, In, All,
}
use mathlib.Core.List.{append_assoc}
use pangaea.Server.Mediator.State.{Candidate}
use pangaea.Server.Mediator.Select.{viable, bucket, file_candidate, file_all, by_account}

module _ {S : Type 0} where
  -- The viable candidates of an account, in the order of the map.
  unfoldable pub viable_in : String → Assoc (Candidate S) → List (Candidate S)
  viable_in a [] = []
  viable_in a ((n, c) ∷ cands) =
      let rest = viable_in a cands in if viable c && c.account == a then c ∷ rest else rest

  -- A bucket with more candidates behind it; none is made for no candidate.
  abbrev pub extended :
      Option (List (Candidate S)) → List (Candidate S) → Option (List (Candidate S))
  extended o [] = o
  extended o (c ∷ cs) = some (bucket o ++ c ∷ cs)

  extended_twice :
      (o : Option (List (Candidate S))) (c : Candidate S) (cs : List (Candidate S))
      → extended (some (bucket o ++ c ∷ [])) cs ≡ extended o (c ∷ cs)
  extended_twice o c [] = refl
  extended_twice o c (d ∷ ds) = rw append_assoc

  lookup-append_to :
      (k a : String) (c : Candidate S) (bs : Assoc (List (Candidate S)))
      → lookup a (insert k (bucket (lookup k bs) ++ c ∷ []) bs)
        ≡ (if k == a then some (bucket (lookup a bs) ++ c ∷ []) else lookup a bs)
  lookup-append_to k a c bs = elim (Bool-cases (k == a)) [
    | inr e ↦ rw (lookup-insert k a) (rw e)
    | inl e ↦ rw (lookup-insert k a) (rw e (rw ((eq_iff k a).0 e)))
  ]

  lookup-file_all :
      (a : String) (cands : Assoc (Candidate S)) (bs : Assoc (List (Candidate S)))
      → lookup a (file_all cands bs) ≡ extended (lookup a bs) (viable_in a cands)
  unfolding file_all file_candidate viable_in
  lookup-file_all a [] bs = refl
  lookup-file_all a ((n, c) ∷ cands) bs = elim (Bool-cases (viable c)) [
    | inr v ↦ rw v (lookup-file_all a cands bs)
    | inl v ↦ elim (Bool-cases (c.account == a)) [
      | inr e ↦
          rw (v, e) (rw (lookup-file_all a cands) (rw (lookup-append_to c.account a c bs) (rw e)))
      | inl e ↦
          rw (v, e)
            (rw (lookup-file_all a cands)
              (rw (lookup-append_to c.account a c bs) (rw e (extended_twice (lookup a bs) c _))))
    ]
  ]

  pub lookup-by_account :
      (a : String) (cands : Assoc (Candidate S))
      → lookup a (by_account cands) ≡ extended none (viable_in a cands)
  unfolding by_account lookup
  lookup-by_account a cands = lookup-file_all a cands []

  file_all-Unique :
      (cands : Assoc (Candidate S)) (bs : Assoc (List (Candidate S)))
      → Unique bs
      → Unique (file_all cands bs)
  unfolding file_all file_candidate
  file_all-Unique [] bs u = u
  file_all-Unique ((n, c) ∷ cands) bs u = elim (Bool-cases (viable c)) [
    | inr v ↦ rw v (file_all-Unique cands bs u)
    | inl v ↦ rw v (file_all-Unique cands _ (insert-Unique c.account _ bs u))
  ]

  pub by_account-Unique : (cands : Assoc (Candidate S)) → Unique (by_account cands)
  unfolding by_account
  by_account-Unique cands = file_all-Unique cands [] tt

  -- The members are viable candidates of the map and of the account.
  pub viable_in-All :
      (P : Candidate S → Type 0) (a : String) (cands : Assoc (Candidate S))
      → ((n : String) (c : Candidate S) → In (n, c) cands → viable c ≡ true → c.account ≡ a → P c)
      → All P (viable_in a cands)
  unfolding viable_in
  viable_in-All P a [] h = tt
  viable_in-All P a ((n, c) ∷ cands) h =
      let rest = viable_in-All P a cands (λ k d i. h k d (inr i)) in
      elim (Bool-cases (viable c)) [
        | inr v ↦ rw v rest
        | inl v ↦ elim (Bool-cases (c.account == a)) [
          | inr e ↦ rw (v, e) rest
          | inl e ↦ rw (v, e) (h n c (inl refl) v ((eq_iff c.account a).0 e), rest)
        ]
      ]
