-- ===== src/Server/Mediator/Choice.antt =====
-- The truths that reselect (mediator.go) chooses: for which accounts, which, and when they change.
use pangaea.Prelude.{
  ℕ, String, ◌≡◌, ◌≢◌, ◌↔◌, refl, sym, ◌∙◌, ap, subst, ◌⊎◌, inl, inr, true, false, Option, none,
  some, List, [], ◌∷◌, Assoc, Unique, lookup, is_some, contains, sort, contains-sort, sort-Distinct,
  lookup_of_In, All-of_In, some_inj, >>=-total, All, arith, eq_iff, ◌+◌, ◌<◌, ◌≤◌,
}
use pangaea.Formats.{Format, IsFormat}
use pangaea.Transport.{Base64}
use pangaea.Server.Mediator.State.{Candidate, TruthState, Mediator, World, Effect, State}
use pangaea.Server.Mediator.Select.{by_account, best_of}
use pangaea.Server.Mediator.Reselect.{lost_accounts, is_suppressed, truth_changed, judge, reselect}
use pangaea.Server.Mediator.Buckets.{viable_in, extended, lookup-by_account, by_account-Unique}
use pangaea.Server.Mediator.Best.{HasSnap, IsBest, best_of-IsBest, pick_strategy_known}
use pangaea.Server.Mediator.Losing.{contains-lost_accounts, lost_accounts-Distinct, lose_total}
use pangaea.Server.Mediator.Rounds.{settled, Outcome, rounds_total}
use pangaea.Server.Mediator.Judge.{judge_cases, judge_total}
use pangaea.Server.Mediator.Truths.{strategy_of, viable_in-HasSnap, reselect-Outcome}

pub suppressed_prev :
    {S : Type 0} (m : Mediator) (now : ℕ) (prev : Option TruthState) (best : Candidate S)
    → is_suppressed m now prev best ≡ true
    → (p : TruthState) × (prev ≡ some p) × (now < p.pushed_at + m.profile.cooldown)
unfolding is_suppressed
suppressed_prev m now none best h = cc
suppressed_prev m now (some p) best h = (p, refl, ground arith)

List-cases : {A : Type 0} (l : List A) → (l ≡ []) ⊎ ((x : A) × (xs : List A) × (l ≡ x ∷ xs))
List-cases [] = inl refl
List-cases (x ∷ xs) = inr (x, xs, refl)

free_change :
    {S : Type 0} (m : Mediator) (now : ℕ) (p : TruthState) (best : Candidate S)
    → is_suppressed m now (some p) best ≡ false
    → p.fingerprint ≢ best.fingerprint
    → (0 < m.profile.cooldown → p.pushed_at + m.profile.cooldown ≤ now)
      × (truth_changed (some p) best ≡ true)
unfolding is_suppressed
free_change m now p best h ne = (
  λ pos. ground (arith, eq_iff p.fingerprint best.fingerprint),
  ground (arith, eq_iff p.fingerprint best.fingerprint),
)

change_waits :
    (F : Format) (b64 : Base64) (m : Mediator) (w : World) (cands : Assoc (Candidate F.Snapshot))
    (strategy format_name a : String) (vs : List (Candidate F.Snapshot)) (p t : TruthState)
    → Outcome F b64 m w cands strategy format_name a (some vs) (some p) (some t)
    → p.fingerprint ≢ t.fingerprint
    → (0 < m.profile.cooldown → p.pushed_at + m.profile.cooldown ≤ w.now_at a)
      × (t.pushed_at ≡ w.now_at a)
change_waits F b64 m w cands strategy format_name a vs p t (j, ej, en) ne =
    let (best, eb, how) = judge_cases F b64 m w cands strategy format_name a vs (some p) j ej in
    elim how [
      | inl (held, ejj) ↦
          let same : some t ≡ some p = en ∙ ap (λ q. settled q.0 (some p)) ejj in
          absurd (ne (ap (λ x. x.fingerprint) (sym (some_inj same))))
      | inr (free, s) ↦
          let same : t ≡ s.truth = some_inj (en ∙ s.holds) in
          let facts =
            free_change m (w.now_at a) p best free
              (λ e. ne (e ∙ sym s.prints ∙ sym (ap (λ x. x.fingerprint) same))) in
          (facts.0, ap (λ x. x.pushed_at) same ∙ s.stamped facts.1)
    ]

module _ (F : Format) (law : IsFormat F) (b64 : Base64) (m : Mediator) (w : World)
    (st : State F.Snapshot) (format_name : String) (u : Unique st.truths) where
  -- The round of an account with candidates, from the outcome of the whole.
  abbrev pub Chosen : String → List (Candidate F.Snapshot) → Option TruthState → Type 0
  Chosen a vs next =
      (best : Candidate F.Snapshot) × IsBest F (strategy_of F m) vs best
      × ((ts : TruthState) × (next ≡ some ts)
          × ((ts.fingerprint ≡ best.fingerprint)
              ⊎ ((lookup a st.truths ≡ some ts)
                  × (w.now_at a < ts.pushed_at + m.profile.cooldown))))

  strategy_known : contains F.strategies (strategy_of F m) ≡ true
  strategy_known = pick_strategy_known F law m.profile.strategy

  Outcome-Chosen :
      (a : String) (c : Candidate F.Snapshot) (cs : List (Candidate F.Snapshot))
      (next : Option TruthState)
      → All HasSnap (c ∷ cs)
      → Outcome F b64 m w st.candidates
          (strategy_of F m)
          format_name
          a
          (some (c ∷ cs))
          (lookup a st.truths)
          next
      → Chosen a (c ∷ cs) next
  Outcome-Chosen a c cs next hs (j, ej, en) =
      let (best, eb, how) =
        judge_cases F b64 m w st.candidates (strategy_of F m) format_name a (c ∷ cs)
          (lookup a st.truths) j ej in
      let (b, eb', is_best) = best_of-IsBest F law (strategy_of F m) strategy_known c cs hs in
      let top = subst (IsBest F (strategy_of F m) (c ∷ cs)) (some_inj (sym eb' ∙ eb)) is_best in
      let truth : (ts : TruthState) × (next ≡ some ts)
          × ((ts.fingerprint ≡ best.fingerprint)
              ⊎ ((lookup a st.truths ≡ some ts)
                  × (w.now_at a < ts.pushed_at + m.profile.cooldown))) =
        elim how [
          | inl (held, ejj) ↦
              let (p, ep, late) = suppressed_prev m (w.now_at a) (lookup a st.truths) best held in
              (p, en ∙ ap (λ q. settled q.0 (lookup a st.truths)) ejj ∙ ep, inr (ep, late))
          | inr (free, s) ↦ (s.truth, en ∙ s.holds, inl s.prints)
        ] in
      (best, top, truth)

  lost_has_truth :
      (a : String)
      → contains (sort (lost_accounts (by_account st.candidates) st.truths)) a
        ≡ contains (lost_accounts (by_account st.candidates) st.truths) a
      → contains (sort (lost_accounts (by_account st.candidates) st.truths)) a ≡ true
      → is_some (lookup a st.truths) ≡ true
  lost_has_truth a e h =
      ground (arith, contains-lost_accounts (by_account st.candidates) st.truths a u)

  bucket_total :
      (a : String) (vs : List (Candidate F.Snapshot))
      → lookup a (by_account st.candidates) ≡ some vs
      → (prev : Option TruthState)
      → (j : Option TruthState × List Effect) × (judge F b64 m w st.candidates
            (strategy_of F m)
            format_name
            a
            vs
            prev
          ≡ some j)
  bucket_total a vs e prev = elim (List-cases (viable_in a st.candidates)) [
    | inl ev ↦ cc (e, lookup-by_account a st.candidates, ap (extended none) ev)
    | inr (c, cs, ev) ↦
        let same : c ∷ cs ≡ vs =
          some_inj (sym (lookup-by_account a st.candidates ∙ ap (extended none) ev) ∙ e) in
        let (best, eb, top) =
          best_of-IsBest F law (strategy_of F m) strategy_known c cs
            (subst (All HasSnap) ev (viable_in-HasSnap a st.candidates)) in
        judge_total F b64 m w st.candidates (strategy_of F m) format_name a vs prev best
          (subst (λ l. best_of F (strategy_of F m) l ≡ some best) same eb) top.1
  ]

  module _ (r : State F.Snapshot × List Effect)
      (ran : reselect F b64 m w st format_name ≡ some r) where
    -- For a format that keeps the contract of Compare and truths with distinct keys: in an account
    -- with a viable candidate, the truth after a reselection has the fingerprint of a best viable
    -- candidate under the strategy in use, or it is the truth before, within its cooldown.
    pub truth_is_best :
        (a : String) (c : Candidate F.Snapshot) (cs : List (Candidate F.Snapshot))
        → viable_in a st.candidates ≡ c ∷ cs
        → Chosen a (c ∷ cs) (lookup a r.0.truths)
    truth_is_best a c cs e =
        Outcome-Chosen a c cs (lookup a r.0.truths)
          (subst (All HasSnap) e (viable_in-HasSnap a st.candidates))
          (rw e at (reselect-Outcome F b64 m w st format_name r ran u a))

    -- For a format that keeps the contract of Compare and truths with distinct keys: after a
    -- reselection an account has no truth exactly when it has no viable candidate.
    pub truth_iff_viable :
        (a : String) → (lookup a r.0.truths ≡ none) ↔ (viable_in a st.candidates ≡ [])
    truth_iff_viable a = (
      (λ gone. elim (List-cases (viable_in a st.candidates)) [
        | inl e ↦ e
        | inr (c, cs, e) ↦ let (best, top, (ts, et, why)) = truth_is_best a c cs e in cc (gone, et)
      ]),
      (λ e. rw e at (reselect-Outcome F b64 m w st format_name r ran u a)),
    )

    -- For a format that keeps the contract of Compare and truths with distinct keys: a truth that
    -- a reselection replaces by another file had its cooldown run out, when there is one; its
    -- successor is stamped with the time of the change.
    pub truth_change_waits :
        (a : String) (p t : TruthState)
        → lookup a st.truths ≡ some p
        → lookup a r.0.truths ≡ some t
        → p.fingerprint ≢ t.fingerprint
        → (0 < m.profile.cooldown → p.pushed_at + m.profile.cooldown ≤ w.now_at a)
          × (t.pushed_at ≡ w.now_at a)
    truth_change_waits a p t ep et ne = elim (List-cases (viable_in a st.candidates)) [
      | inl e ↦ cc (et, (truth_iff_viable a).1 e)
      | inr (c, cs, e) ↦
          change_waits F b64 m w st.candidates (strategy_of F m) format_name a (c ∷ cs) p t
            (rw (e, ep, et) at (reselect-Outcome F b64 m w st format_name r ran u a)) ne
    ]

  -- For a format that keeps the contract of Compare: a reselection from truths with distinct keys
  -- ends without a panic.
  pub reselect_total :
      (r : State F.Snapshot × List Effect) × (reselect F b64 m w st format_name ≡ some r)
  unfolding reselect
  reselect_total =
      let buckets = by_account st.candidates in
      let lost = lost_accounts buckets st.truths in
      let (kept, ek) =
        lose_total m st.candidates (sort lost) st.truths
          (sort-Distinct lost (lost_accounts-Distinct buckets st.truths u))
          (λ a e. lost_has_truth a (contains-sort lost a) e) in
      let (chosen, ec) =
        rounds_total F b64 m w st.candidates (strategy_of F m) format_name buckets kept.0 (
          All-of_In _ buckets (λ b i.
            bucket_total b.0 b.1
              (lookup_of_In b.0 b.1 buckets (by_account-Unique st.candidates) i))) in
      >>=-total _ _ kept ek (>>=-total _ _ chosen ec (_, refl))
