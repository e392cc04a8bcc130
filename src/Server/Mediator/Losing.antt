-- ===== src/Server/Mediator/Losing.antt =====
-- The first half of reselect (mediator.go): the truths whose account has no viable candidate go.
use pangaea.Prelude.{
  String, ◌≡◌, refl, ◌∙◌, ap, subst, inl, inr, true, false, not, ◌&&◌, none, some, List, [], ◌∷◌,
  ◌++◌, Assoc, Unique, delete-Unique, lookup, lookup-delete, delete, contains, Distinct, is_some,
  >>=-eq-some, Bool-cases, Option-cases, arith, eq_iff, eq_refl, ◌==◌, if◌then◌else◌,
}
use pangaea.Server.Mediator.State.{Candidate, TruthState, Mediator, Effect}
use pangaea.Server.Mediator.Reselect.{lost_accounts, lost_record, when_notified, lose}

module _ {S : Type 0} where
  -- Lost are the accounts that have a truth and no bucket.
  pub contains-lost_accounts :
      (buckets : Assoc (List (Candidate S))) (truths : Assoc TruthState) (a : String)
      → Unique truths
      → contains (lost_accounts buckets truths) a
        ≡ (is_some (lookup a truths) && not (is_some (lookup a buckets)))
  unfolding lost_accounts lookup
  contains-lost_accounts buckets [] a u = refl
  contains-lost_accounts buckets ((k, t) ∷ truths) a u =
      let rest = contains-lost_accounts buckets truths a u.1 in
      elim (Bool-cases (k == a)) [
        | inr e ↦ ground (arith, rest)
        | inl e ↦
            let none_left = subst (λ i. lookup i truths ≡ none) ((eq_iff k a).0 e) u.0 in
            let gone = rw none_left at rest in
            rw ((eq_iff k a).0 e) (ground (arith, gone, eq_refl a))
      ]

  pub lost_accounts-Distinct :
      (buckets : Assoc (List (Candidate S))) (truths : Assoc TruthState)
      → Unique truths
      → Distinct (lost_accounts buckets truths)
  unfolding lost_accounts
  lost_accounts-Distinct buckets [] u = tt
  lost_accounts-Distinct buckets ((k, t) ∷ truths) u =
      let rest = lost_accounts-Distinct buckets truths u.1 in
      elim (Bool-cases (is_some (lookup k buckets))) [
        | inl e ↦ rw e rest
        | inr e ↦ rw e (
          contains-lost_accounts buckets truths k u.1
              ∙ ap (λ o. is_some o && not (is_some (lookup k buckets))) u.0,
          rest,
        )
      ]

module _ {S : Type 0} (m : Mediator) (cands : Assoc (Candidate S)) where
  pub lookup-lose :
      (ks : List String) (truths : Assoc TruthState) (r : Assoc TruthState × List Effect)
      → lose m cands ks truths ≡ some r
      → (a : String) → lookup a r.0 ≡ (if contains ks a then none else lookup a truths)
  unfolding lose
  lookup-lose [] truths r h a = cc
  lookup-lose (k ∷ ks) truths r h a =
      let (prev, e, h') = >>=-eq-some (lookup k truths) _ h in
      let (q, e', h'') = >>=-eq-some (lose m cands ks (delete k truths)) _ h' in
      let rest = lookup-lose ks (delete k truths) q e' a in
      ground (arith, rest, lookup-delete k a truths)

  pub lose-Unique :
      (ks : List String) (truths : Assoc TruthState) (r : Assoc TruthState × List Effect)
      → lose m cands ks truths ≡ some r
      → Unique truths
      → Unique r.0
  unfolding lose
  lose-Unique [] truths r h u = subst Unique (ground arith) u
  lose-Unique (k ∷ ks) truths r h u =
      let (prev, e, h') = >>=-eq-some (lookup k truths) _ h in
      let (q, e', h'') = >>=-eq-some (lose m cands ks (delete k truths)) _ h' in
      subst Unique (ground arith) (lose-Unique ks (delete k truths) q e' (delete-Unique k truths u))

  kept_lookup :
      (k : String) (ks : List String) (truths : Assoc TruthState)
      → contains ks k ≡ false
      → ((a : String) → contains (k ∷ ks) a ≡ true → is_some (lookup a truths) ≡ true)
      → (a : String) → contains ks a ≡ true
      → is_some (lookup a (delete k truths)) ≡ true
  kept_lookup k ks truths out h a c = elim (Bool-cases (k == a)) [
    | inl e ↦ cc (c, out, ap (contains ks) ((eq_iff k a).0 e))
    | inr e ↦ rw (lookup-delete k a truths) (rw e (h a (rw (e, c))))
  ]

  -- Every lost account has a truth while its turn comes, so the loop does not panic.
  pub lose_total :
      (ks : List String) (truths : Assoc TruthState)
      → Distinct ks
      → ((a : String) → contains ks a ≡ true → is_some (lookup a truths) ≡ true)
      → (r : Assoc TruthState × List Effect) × (lose m cands ks truths ≡ some r)
  unfolding lose
  lose_total [] truths d h = ((truths, []), refl)
  lose_total (k ∷ ks) truths d h = elim (Option-cases (lookup k truths)) [
    | inl e ↦ cc (e, h k (rw (eq_refl k)))
    | inr (prev, e) ↦
        let (q, e') = lose_total ks (delete k truths) d.1 (kept_lookup k ks truths d.0 h) in
        ((q.0, when_notified m (lost_record m cands k prev) ++ q.1), simp (e, e'))
  ]
