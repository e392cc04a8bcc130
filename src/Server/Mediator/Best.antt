-- ===== src/Server/Mediator/Best.antt =====
-- The loop of reselect (mediator.go) that chooses the best of an account's viable candidates.
use pangaea.Prelude.{
  String, ◌≡◌, refl, sym, subst, inl, inr, true, Option, some, List, [], ◌∷◌, Option-cases,
  Bool-cases, In, All, contains, eq_refl, if◌then◌else◌,
}
use pangaea.Formats.{Format, IsFormat, IsLe, Order}
use pangaea.Server.Mediator.State.{Candidate}
use pangaea.Server.Mediator.Select.{is_newer, best_from, best_of, pick_strategy}

abbrev pub HasSnap : {S : Type 0} → Candidate S → Type 0
HasSnap {S} c = (x : S) × (c.snap ≡ some x)

module _ (F : Format) (strategy : String) where
  -- `d` is not above `b`.
  abbrev pub AtMost : Candidate F.Snapshot → Candidate F.Snapshot → Type 0
  AtMost b d =
      (x y : F.Snapshot) → d.snap ≡ some x → b.snap ≡ some y → IsLe (F.compare strategy x y)

  -- The result is a member, and no member is above it.
  abbrev pub IsBest : List (Candidate F.Snapshot) → Candidate F.Snapshot → Type 0
  IsBest cs b = In b cs × HasSnap b × All (AtMost b) cs

module _ (F : Format) (law : IsFormat F) (strategy : String)
    (known : contains F.strategies strategy ≡ true) where
  AtMost-trans :
      (b c d : Candidate F.Snapshot)
      → HasSnap c
      → AtMost F strategy c d
      → AtMost F strategy b c
      → AtMost F strategy b d
  AtMost-trans b c d (y, ey) h k x z ex ez =
      law.compare_trans strategy x y z known (h x y ex ey) (k y z ey ez)

  -- One comparison of the loop.
  abbrev Step : Candidate F.Snapshot → Candidate F.Snapshot → Type 0
  Step best c =
      (x y : F.Snapshot) (o : Order)
      → c.snap ≡ some x
      → best.snap ≡ some y
      → F.compare strategy x y ≡ some o
      → AtMost F strategy (if is_newer o then c else best) c
        × AtMost F strategy (if is_newer o then c else best) best

  same_snap :
      (c : Candidate F.Snapshot) (x y : F.Snapshot) → c.snap ≡ some x → c.snap ≡ some y → x ≡ y
  same_snap c x y e f = cc

  AtMost-of_le :
      (b d : Candidate F.Snapshot) (x y : F.Snapshot)
      → d.snap ≡ some x
      → b.snap ≡ some y
      → IsLe (F.compare strategy x y)
      → AtMost F strategy b d
  AtMost-of_le b d x y ex ey h x' y' ex' ey' =
      subst (λ u. IsLe (F.compare strategy u y')) (same_snap d x x' ex ex')
        (subst (λ v. IsLe (F.compare strategy x v)) (same_snap b y y' ey ey') h)

  Step-AtMost : (best c : Candidate F.Snapshot) → Step best c
  Step-AtMost best c x y Order.newer ex ey eo = (
    AtMost-of_le c c x x ex ex (law.compare_refl strategy x known),
    AtMost-of_le c best y x ey ex (law.compare_flip strategy x y known eo),
  )
  Step-AtMost best c x y Order.older ex ey eo = (
    AtMost-of_le best c x y ex ey (subst IsLe (sym eo) tt),
    AtMost-of_le best best y y ey ey (law.compare_refl strategy y known),
  )
  Step-AtMost best c x y Order.same ex ey eo = (
    AtMost-of_le best c x y ex ey (subst IsLe (sym eo) tt),
    AtMost-of_le best best y y ey ey (law.compare_refl strategy y known),
  )

  abbrev Ends : List (Candidate F.Snapshot) → Option (Candidate F.Snapshot) → Type 0
  Ends cs r = (b : Candidate F.Snapshot) × (r ≡ some b) × IsBest F strategy cs b

  chosen_In :
      (o : Order) (best c b : Candidate F.Snapshot) (rest : List (Candidate F.Snapshot))
      → In b ((if is_newer o then c else best) ∷ rest)
      → In b (best ∷ c ∷ rest)
  chosen_In Order.newer best c b rest m = inr m
  chosen_In Order.same best c b rest (inl e) = inl e
  chosen_In Order.same best c b rest (inr m) = inr (inr m)
  chosen_In Order.older best c b rest (inl e) = inl e
  chosen_In Order.older best c b rest (inr m) = inr (inr m)

  chosen_HasSnap :
      (o : Order) (best c : Candidate F.Snapshot)
      → HasSnap best
      → HasSnap c
      → HasSnap (if is_newer o then c else best)
  chosen_HasSnap Order.newer best c hb hc = hc
  chosen_HasSnap Order.same best c hb hc = hb
  chosen_HasSnap Order.older best c hb hc = hb

  Ends-step :
      (o : Order) (best c : Candidate F.Snapshot) (rest : List (Candidate F.Snapshot))
      (r : Option (Candidate F.Snapshot))
      → HasSnap (if is_newer o then c else best)
      → AtMost F strategy (if is_newer o then c else best) c
      → AtMost F strategy (if is_newer o then c else best) best
      → Ends ((if is_newer o then c else best) ∷ rest) r
      → Ends (best ∷ c ∷ rest) r
  Ends-step o best c rest r next above_c above_best (b, eb, (m, hb, (top, all))) = (
    b,
    eb,
    (
      chosen_In o best c b rest m,
      hb,
      (
        AtMost-trans b (if is_newer o then c else best) best next above_best top,
        (AtMost-trans b (if is_newer o then c else best) c next above_c top, all),
      ),
    ),
  )

  best_from_step :
      (best c : Candidate F.Snapshot) (rest : List (Candidate F.Snapshot)) (x y : F.Snapshot)
      (o : Order)
      → c.snap ≡ some x
      → best.snap ≡ some y
      → F.compare strategy x y ≡ some o
      → best_from F strategy best (c ∷ rest)
        ≡ best_from F strategy (if is_newer o then c else best) rest
  unfolding best_from
  best_from_step best c rest x y o ex ey e = simp (ex, ey, e)

  -- The loop ends without a panic, at a best candidate.
  best_from-IsBest :
      (cs : List (Candidate F.Snapshot)) (best : Candidate F.Snapshot)
      → HasSnap best
      → All HasSnap cs
      → Ends (best ∷ cs) (best_from F strategy best cs)
  unfolding best_from
  best_from-IsBest [] best (y, ey) hs = (
    best,
    refl,
    (inl refl, (y, ey), (AtMost-of_le best best y y ey ey (law.compare_refl strategy y known), tt)),
  )
  best_from-IsBest (c ∷ rest) best hb hs =
      let (x, ex) = hs.0 in
      let (y, ey) = hb in
      elim (Option-cases (F.compare strategy x y)) [
        | inl e ↦ absurd (law.compare_total strategy x y known e)
        | inr (o, e) ↦
            let next = chosen_HasSnap o best c hb hs.0 in
            let above = Step-AtMost best c x y o ex ey e in
            rw (best_from_step best c rest x y o ex ey e) (
              Ends-step o best c rest _ next above.0 above.1
                (best_from-IsBest rest (if is_newer o then c else best) next hs.1))
      ]

  -- So is the whole choice from a bucket, which is not empty.
  pub best_of-IsBest :
      (c : Candidate F.Snapshot) (cs : List (Candidate F.Snapshot))
      → All HasSnap (c ∷ cs)
      → Ends (c ∷ cs) (best_of F strategy (c ∷ cs))
  unfolding best_of
  best_of-IsBest c cs hs = best_from-IsBest cs c hs.0 hs.1

-- The strategy that reselect uses is one that the format lists.
pub pick_strategy_known :
    (F : Format) (law : IsFormat F) (s : String)
    → contains F.strategies (pick_strategy F.strategies s) ≡ true
unfolding pick_strategy
pick_strategy_known F law s = go F.strategies law.strategies_some
  where
    go :
        (xs : List String)
        → (t : String) × (contains xs t ≡ true)
        → contains xs (pick_strategy xs s) ≡ true
    go [] (t, e) = cc
    go (x ∷ xs) h = elim (Bool-cases (contains (x ∷ xs) s)) [
      | inl e ↦ rw e e
      | inr e ↦ rw e (rw (eq_refl x))
    ]
