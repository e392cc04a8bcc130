-- ===== src/Server/Mediator/Judge.antt =====
-- One round of the loop of reselect (mediator.go): the cooldown gate, the new truth, the pushes.
use pangaea.Prelude.{
  String, ◌≡◌, refl, sym, ap, subst, ◌⊎◌, inl, inr, true, false, Option, none, some, List, [], ◌++◌,
  Assoc, >>=-eq-some, >>=-total, some_inj, Bool-cases, All, arith, eq_iff, if◌then◌else◌,
}
use pangaea.Formats.{Format}
use pangaea.Transport.{Base64}
use pangaea.Notifier.{TruthRecord}
use pangaea.Server.Mediator.State.{Candidate, TruthState, Mediator, World, Effect, send, notify}
use pangaea.Server.Mediator.Select.{best_of}
use pangaea.Server.Mediator.Best.{HasSnap}
use pangaea.Server.Mediator.Reselect.{
  truth_changed, is_suppressed, fresh_truth, settle_truth, push_effects, judge, when_notified,
  restored_record,
}
use pangaea.Server.Mediator.Rounds.{settled}

-- The truth, if there is one, is of the account.
abbrev pub IsOf : String → Option TruthState → Type 0
IsOf a o = (t : TruthState) → o ≡ some t → t.account ≡ a

-- An effect that sends nothing.
abbrev pub Quiet : Effect → Type 0
Quiet (send nid s p d) = ⊥
Quiet (notify r) = Unit

pub when_notified-Quiet : (m : Mediator) (r : TruthRecord) → All Quiet (when_notified m r)
when_notified-Quiet m r = elim (Bool-cases m.notifies) [ inl e ↦ rw e (tt, tt) | inr e ↦ rw e tt ]

same_print :
    {S : Type 0} (prev : TruthState) (best : Candidate S)
    → truth_changed (some prev) best ≡ false
    → prev.fingerprint ≡ best.fingerprint
unfolding truth_changed
same_print prev best h = ground (arith, eq_iff prev.fingerprint best.fingerprint)

module _ (F : Format) (b64 : Base64) (m : Mediator) (w : World)
    (cands : Assoc (Candidate F.Snapshot)) (strategy format_name a : String) where
  -- The truth carries the candidate's own file.
  abbrev pub FileOf : Candidate F.Snapshot → TruthState → Type 0
  FileOf best t = (x : F.Snapshot) × (best.snap ≡ some x) × (t.raw_b64 ≡ b64.encode (F.raw x))

  -- The round of a truth that is not held back, and what it settles.
  pub record Settles (best : Candidate F.Snapshot) (prev : Option TruthState)
      (j : Option TruthState × List Effect) : Type 0 where
    pub truth : TruthState
    pub notices : List Effect
    pub holds : settled j.0 prev ≡ some truth
    pub effects : j.1 ≡ notices ++ push_effects F b64 m w cands prev truth best
    pub prints : truth.fingerprint ≡ best.fingerprint
    pub mine : IsOf a prev → truth.account ≡ a
    pub silent : All Quiet notices
    pub carries : FileOf best truth ⊎ (prev ≡ some truth)
    pub stamped : truth_changed prev best ≡ true → truth.pushed_at ≡ w.now_at a

  fresh_truth_inv :
      (best : Candidate F.Snapshot) (ts : TruthState)
      → fresh_truth F b64 m w format_name a best ≡ some ts
      → (ts.account ≡ a)
        × (ts.fingerprint ≡ best.fingerprint)
        × (ts.issued_at ≡ w.now_at a)
        × (ts.pushed_at ≡ w.now_at a)
  unfolding fresh_truth
  fresh_truth_inv best ts h =
      let (snap, e, h') = >>=-eq-some best.snap _ h in
      (ground arith, ground arith, ground arith, ground arith)

  fresh_truth-FileOf :
      (best : Candidate F.Snapshot) (ts : TruthState)
      → fresh_truth F b64 m w format_name a best ≡ some ts
      → FileOf best ts
  unfolding fresh_truth
  fresh_truth-FileOf best ts h =
      let (snap, e, h') = >>=-eq-some best.snap _ h in (snap, e, ground arith)

  settle_Settles :
      (best : Candidate F.Snapshot) (prev : Option TruthState) (s : TruthState × List Effect)
      → settle_truth F b64 m w cands format_name a best prev ≡ some s
      → Settles best prev (
        (if truth_changed prev best then some s.0 else none),
        s.1 ++ push_effects F b64 m w cands prev s.0 best,
      )
  unfolding settle_truth
  settle_Settles best none s h =
      let (ts, e, h') = >>=-eq-some (fresh_truth F b64 m w format_name a best) _ h in
      let facts = fresh_truth_inv best ts e in
      record {
        truth = s.0;
        notices = s.1;
        holds = refl;
        effects = refl;
        prints = ground (arith, facts);
        mine = λ _. ground (arith, facts);
        carries =
            inl (subst (FileOf best) (ap (λ x. x.0) (some_inj h')) (fresh_truth-FileOf best ts e));
        stamped = λ _. ground (arith, facts);
        silent =
            let quiet : s.1 ≡ when_notified m (restored_record m cands ts best) = ground arith in
            rw quiet (when_notified-Quiet m (restored_record m cands ts best));
      }
  settle_Settles best (some prev) s h = elim (Bool-cases (truth_changed (some prev) best)) [
    | inl e ↦
        let (ts, e', h') = >>=-eq-some (fresh_truth F b64 m w format_name a best) _ (rw e at h) in
        let facts = fresh_truth_inv best ts e' in
        rw e (record {
          truth = s.0;
          notices = s.1;
          holds = refl;
          effects = refl;
          prints = ground (arith, facts);
          mine = λ _. ground (arith, facts);
          carries =
              inl
                (subst (FileOf best) (ap (λ x. x.0) (some_inj h')) (fresh_truth-FileOf best ts e'));
          stamped = λ _. ground (arith, facts);
          silent = let quiet : s.1 ≡ [] = ground arith in rw quiet tt;
        })
    | inr e ↦
        let same : some (prev, []) ≡ some s = rw e at h in
        rw e (record {
          truth = s.0;
          notices = s.1;
          holds = ground arith;
          effects = refl;
          prints = ground (arith, same_print prev best e);
          mine = λ k. ground (arith, k prev refl);
          carries = inr (ap (λ (x : TruthState × List Effect). some x.0) (some_inj same));
          stamped = λ e'. cc (e, e');
          silent = let quiet : s.1 ≡ [] = ground arith in rw quiet tt;
        })
  ]

  fresh_total :
      (best : Candidate F.Snapshot)
      → HasSnap best
      → (ts : TruthState) × (fresh_truth F b64 m w format_name a best ≡ some ts)
  unfolding fresh_truth
  fresh_total best (x, e) = >>=-total best.snap _ x e (_, refl)

  settle_total :
      (best : Candidate F.Snapshot) (prev : Option TruthState)
      → HasSnap best
      → (s : TruthState × List Effect) × (settle_truth F b64 m w cands format_name a best prev
          ≡ some s)
  unfolding settle_truth
  settle_total best none hs = let (ts, e) = fresh_total best hs in >>=-total _ _ ts e (_, refl)
  settle_total best (some prev) hs = elim (Bool-cases (truth_changed (some prev) best)) [
    | inl c ↦ let (ts, e) = fresh_total best hs in rw c (>>=-total _ _ ts e (_, refl))
    | inr c ↦ rw c (_, refl)
  ]

  -- A round is held back by the cooldown, or settles the truth of its best candidate.
  pub judge_cases :
      (vs : List (Candidate F.Snapshot)) (prev : Option TruthState)
      (j : Option TruthState × List Effect)
      → judge F b64 m w cands strategy format_name a vs prev ≡ some j
      → (best : Candidate F.Snapshot) × (best_of F strategy vs ≡ some best)
        × (((is_suppressed m (w.now_at a) prev best ≡ true) × (j ≡ (none, [])))
            ⊎ ((is_suppressed m (w.now_at a) prev best ≡ false) × Settles best prev j))
  unfolding judge
  judge_cases vs prev j h =
      let (best, eb, h') = >>=-eq-some (best_of F strategy vs) _ h in
      (
        best,
        eb,
        elim (Bool-cases (is_suppressed m (w.now_at a) prev best)) [
          | inl e ↦ inl (e, some_inj (sym (rw e at h')))
          | inr e ↦
              let (s, es, h'') =
                >>=-eq-some (settle_truth F b64 m w cands format_name a best prev) _ (rw e at h') in
              inr (e, subst (Settles best prev) (some_inj h'') (settle_Settles best prev s es))
        ],
      )

  -- A round whose best candidate has a snapshot does not panic.
  pub judge_total :
      (vs : List (Candidate F.Snapshot)) (prev : Option TruthState) (best : Candidate F.Snapshot)
      → best_of F strategy vs ≡ some best
      → HasSnap best
      → (j : Option TruthState × List Effect) × (judge F b64 m w cands strategy format_name a vs
            prev
          ≡ some j)
  unfolding judge
  judge_total vs prev best eb hs =
      >>=-total (best_of F strategy vs) _ best eb
        (elim (Bool-cases (is_suppressed m (w.now_at a) prev best)) [
          | inl e ↦ rw e ((none, []), refl)
          | inr e ↦ let (s, es) = settle_total best prev hs in rw e (>>=-total _ _ s es (_, refl))
        ])
