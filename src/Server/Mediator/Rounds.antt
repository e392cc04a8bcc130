-- ===== src/Server/Mediator/Rounds.antt =====
-- The second half of reselect (mediator.go): the loop over the accounts with viable candidates.
use pangaea.Prelude.{
  String, ◌≡◌, refl, sym, ◌∙◌, ap, subst, inl, inr, false, Option, none, some, List, [], ◌∷◌, ◌++◌,
  Assoc, Unique, insert-Unique, lookup, lookup-insert, >>=-eq-some, Bool-cases, In, In-append,
  In-append_left, In-append_right, some_inj, All, arith, eq_iff, eq_refl, ◌==◌, if◌then◌else◌,
}
use pangaea.Formats.{Format}
use pangaea.Transport.{Base64}
use pangaea.Server.Mediator.State.{Candidate, TruthState, Mediator, World, Effect}
use pangaea.Server.Mediator.Reselect.{store, judge, select_account, select_all}

-- truths[account] after a round: what the round stores, or what was there.
abbrev pub settled : Option TruthState → Option TruthState → Option TruthState
settled none prev = prev
settled (some ts) prev = some ts

lookup-store :
    (k a : String) (o : Option TruthState) (truths : Assoc TruthState)
    → lookup a (store k o truths)
      ≡ (if k == a then settled o (lookup a truths) else lookup a truths)
lookup-store k a none truths = ground arith
lookup-store k a (some ts) truths = lookup-insert k a ts truths

store-Unique :
    (k : String) (o : Option TruthState) (truths : Assoc TruthState)
    → Unique truths
    → Unique (store k o truths)
store-Unique k none truths u = u
store-Unique k (some ts) truths u = insert-Unique k ts truths u

module _ (F : Format) (b64 : Base64) (m : Mediator) (w : World)
    (cands : Assoc (Candidate F.Snapshot)) (strategy format_name : String) where
  -- The round of an account, with the truth that it had.
  abbrev pub round :
      String
      → List (Candidate F.Snapshot)
      → Option TruthState
      → Option (Option TruthState × List Effect)
  round = judge F b64 m w cands strategy format_name

  abbrev rounds :
      Assoc (List (Candidate F.Snapshot))
      → Assoc TruthState
      → Option (Assoc TruthState × List Effect)
  rounds = select_all F b64 m w cands strategy format_name

  -- One round and the rest.
  rounds_inv :
      (k : String) (vs : List (Candidate F.Snapshot)) (bs : Assoc (List (Candidate F.Snapshot)))
      (truths : Assoc TruthState) (r : Assoc TruthState × List Effect)
      → rounds ((k, vs) ∷ bs) truths ≡ some r
      → (j : Option TruthState × List Effect) × (q : Assoc TruthState × List Effect) × (round k vs
            (lookup k truths)
          ≡ some j)
        × (rounds bs (store k j.0 truths) ≡ some q)
        × (r.0 ≡ q.0)
        × (r.1 ≡ j.1 ++ q.1)
  unfolding select_all select_account
  rounds_inv k vs bs truths r h =
      let (d, e, h') =
        >>=-eq-some (select_account F b64 m w cands strategy format_name k vs truths) _ h in
      let (q, e', h'') = >>=-eq-some (rounds bs d.0) _ h' in
      let (j, e₂, h₂) = >>=-eq-some (round k vs (lookup k truths)) _ e in (j, q, e₂, cc, cc, cc)

  -- What becomes of an account's truth, from its bucket, if it has one, and the truth before.
  abbrev pub Outcome :
      String → Option (List (Candidate F.Snapshot)) → Option TruthState → Option TruthState → Type 0
  Outcome a none prev next = next ≡ prev
  Outcome a (some vs) prev next =
      (j : Option TruthState × List Effect) × (round a vs prev ≡ some j) × (next ≡ settled j.0 prev)

  -- A round changes its own account, by its own candidates and truth.
  pub select_all-Outcome :
      (bs : Assoc (List (Candidate F.Snapshot))) (truths : Assoc TruthState)
      (r : Assoc TruthState × List Effect)
      → Unique bs
      → rounds bs truths ≡ some r
      → (a : String) → Outcome a (lookup a bs) (lookup a truths) (lookup a r.0)
  unfolding lookup select_all
  select_all-Outcome [] truths r u h a = cc
  select_all-Outcome ((k, vs) ∷ bs) truths r u h a =
      let (j, q, ej, eq, er, ex) = rounds_inv k vs bs truths r h in
      let rest = select_all-Outcome bs (store k j.0 truths) q u.1 eq a in
      elim (Bool-cases (k == a)) [
        | inr e ↦
            rw (e, er)
              (subst (λ o. Outcome a (lookup a bs) o (lookup a q.0))
                (lookup-store k a j.0 truths
                  ∙ ap (λ b. if b then settled j.0 (lookup a truths) else lookup a truths) e)
                rest)
        | inl e ↦
            let same = (eq_iff k a).0 e in
            let gone = subst (λ i. lookup i bs ≡ none) same u.0 in
            rw (e, er)
              (
                j,
                subst (λ i. round i vs (lookup i truths) ≡ some j) same ej,
                rw gone at rest
                    ∙ lookup-store k a j.0 truths
                    ∙ ap (λ b. if b then settled j.0 (lookup a truths) else lookup a truths) e,
              )
      ]

  pub select_all-Unique :
      (bs : Assoc (List (Candidate F.Snapshot))) (truths : Assoc TruthState)
      (r : Assoc TruthState × List Effect)
      → rounds bs truths ≡ some r
      → Unique truths
      → Unique r.0
  unfolding select_all
  select_all-Unique [] truths r h u = subst Unique (ground arith) u
  select_all-Unique ((k, vs) ∷ bs) truths r h u =
      let (j, q, ej, eq, er, ex) = rounds_inv k vs bs truths r h in
      rw er (select_all-Unique bs (store k j.0 truths) q eq (store-Unique k j.0 truths u))

  lookup_head :
      (k : String) (vs : List (Candidate F.Snapshot)) (bs : Assoc (List (Candidate F.Snapshot)))
      → lookup k ((k, vs) ∷ bs) ≡ some vs
  unfolding lookup
  lookup_head k vs bs = rw (eq_refl k)

  lookup_tail :
      (k a : String) (vs : List (Candidate F.Snapshot)) (bs : Assoc (List (Candidate F.Snapshot)))
      → (k == a) ≡ false
      → lookup a ((k, vs) ∷ bs) ≡ lookup a bs
  unfolding lookup
  lookup_tail k a vs bs e = rw e

  own_outcome :
      (k : String) (vs : List (Candidate F.Snapshot)) (bs : Assoc (List (Candidate F.Snapshot)))
      (truths : Assoc TruthState) (r : Assoc TruthState × List Effect)
      (j : Option TruthState × List Effect)
      → Unique {V = List (Candidate F.Snapshot)} ((k, vs) ∷ bs)
      → rounds ((k, vs) ∷ bs) truths ≡ some r
      → round k vs (lookup k truths) ≡ some j
      → lookup k r.0 ≡ settled j.0 (lookup k truths)
  own_outcome k vs bs truths r j u h ej =
      let (j', ej', e) =
        rw (lookup_head k vs bs) at (select_all-Outcome ((k, vs) ∷ bs) truths r u h k) in
      e ∙ ap (λ q. settled q.0 (lookup k truths)) (some_inj (sym ej' ∙ ej))

  -- The round that an effect of the loop comes from.
  abbrev pub Source :
      Assoc (List (Candidate F.Snapshot)) → Assoc TruthState → Assoc TruthState → Effect → Type 0
  Source bs truths after x =
      (a : String) × (vs : List (Candidate F.Snapshot)) × (j : Option TruthState × List Effect)
      × (lookup a bs ≡ some vs)
      × (round a vs (lookup a truths) ≡ some j)
      × In x j.1
      × (lookup a after ≡ settled j.0 (lookup a truths))

  other_key :
      (k a : String) (bs : Assoc (List (Candidate F.Snapshot))) (vs : List (Candidate F.Snapshot))
      → lookup k bs ≡ none
      → lookup a bs ≡ some vs
      → (k == a) ≡ false
  other_key k a bs vs gone here = elim (Bool-cases (k == a)) [
    | inl e ↦ cc (gone, here, ap (λ i. lookup i bs) ((eq_iff k a).0 e))
    | inr e ↦ e
  ]

  pub select_all-Source :
      (bs : Assoc (List (Candidate F.Snapshot))) (truths : Assoc TruthState)
      (r : Assoc TruthState × List Effect) (x : Effect)
      → Unique bs
      → rounds bs truths ≡ some r
      → In x r.1
      → Source bs truths r.0 x
  unfolding select_all
  select_all-Source [] truths r x u h i =
      let empty : r.1 ≡ [] = ground arith in absurd (rw empty at i)
  select_all-Source ((k, vs) ∷ bs) truths r x u h i =
      let (j, q, ej, eq, er, ex) = rounds_inv k vs bs truths r h in
      elim (In-append x j.1 q.1 (rw ex at i)) [
        | inl i' ↦ (k, vs, j, lookup_head k vs bs, ej, i', own_outcome k vs bs truths r j u h ej)
        | inr i' ↦
            let (a, vs', j', eb, ej', i'', ea) =
              select_all-Source bs (store k j.0 truths) q x u.1 eq i' in
            let apart = other_key k a bs vs' u.0 eb in
            let kept =
              lookup-store k a j.0 truths
              ∙ ap (λ b. if b then settled j.0 (lookup a truths) else lookup a truths) apart in
            (a, vs', j', lookup_tail k a vs bs apart ∙ eb, rw kept at ej', i'', rw (er, ← kept) ea)
      ]

  -- And the effects of every round are effects of the loop.
  pub select_all_includes :
      (bs : Assoc (List (Candidate F.Snapshot))) (truths : Assoc TruthState)
      (r : Assoc TruthState × List Effect) (x : Effect) (a : String)
      (vs : List (Candidate F.Snapshot)) (j : Option TruthState × List Effect)
      → Unique bs
      → rounds bs truths ≡ some r
      → lookup a bs ≡ some vs
      → round a vs (lookup a truths) ≡ some j
      → In x j.1
      → In x r.1
  unfolding select_all lookup
  select_all_includes [] truths r x a vs j u h e ej i = cc
  select_all_includes ((k, vs') ∷ bs) truths r x a vs j u h e ej i =
      let (j', q, ej', eq, er, ex) = rounds_inv k vs' bs truths r h in
      elim (Bool-cases (k == a)) [
        | inl same ↦
            let ka = (eq_iff k a).0 same in
            let v : vs' ≡ vs = some_inj (
              sym (lookup_head k vs' bs)
              ∙ subst (λ i. lookup i ((k, vs') ∷ bs) ≡ some vs) (sym ka) e) in
            let jj : j ≡ j' = some_inj (
              sym ej
              ∙ subst
                  (λ (z : String × List (Candidate F.Snapshot)).
                    round z.0 z.1 (lookup z.0 truths) ≡ some j')
                  {x = (k, vs')} {y = (a, vs)} (λ i. (ka i, v i)) ej') in
            rw ex (
              In-append_left x j'.1 q.1
                (subst (λ (z : Option TruthState × List Effect). In x z.1) jj i))
        | inr apart ↦
            let kept =
              lookup-store k a j'.0 truths
              ∙ ap (λ b. if b then settled j'.0 (lookup a truths) else lookup a truths) apart in
            rw ex (
              In-append_right x j'.1 q.1 (
                select_all_includes bs (store k j'.0 truths) q x a vs j u.1 eq
                  (sym (lookup_tail k a vs' bs apart) ∙ e) (rw kept ej) i))
      ]

  -- The loop ends if each round does.
  pub rounds_total :
      (bs : Assoc (List (Candidate F.Snapshot))) (truths : Assoc TruthState)
      → All
          (λ b.
            (prev : Option TruthState)
            → (j : Option TruthState × List Effect) × (round b.0 b.1 prev ≡ some j))
          bs
      → (r : Assoc TruthState × List Effect) × (rounds bs truths ≡ some r)
  unfolding select_all select_account
  rounds_total [] truths each = ((truths, []), refl)
  rounds_total ((k, vs) ∷ bs) truths each =
      let (j, ej) = each.0 (lookup k truths) in
      let (q, eq) = rounds_total bs (store k j.0 truths) each.1 in
      ((q.0, j.1 ++ q.1), simp (ej, eq))
