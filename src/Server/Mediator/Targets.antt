-- ===== src/Server/Mediator/Targets.antt =====
-- Whom `pushTruth` (mediator.go) pushes to.
use pangaea.Prelude.{
  String, ◌≡◌, ◌≢◌, ◌↔◌, ◌⊎◌, refl, sym, ap, subst, inl, inr, Bool, true, false, not, ◌&&◌, ◌||◌,
  Option, none, some, List, [], ◌∷◌, Assoc, Unique, lookup, contains, Bool-cases, Option-cases, In,
  arith, eq_iff, eq_refl, ◌==◌, if◌then◌else◌,
}
use pangaea.Config.{propagate_mode_all}
use pangaea.Transport.{TruthPush}
use pangaea.Server.Mediator.State.{Candidate, Session, TruthState, Mediator, World, send}
use pangaea.Server.Mediator.Push.{
  in_account, lags, stale_nodes, targets, push_message, send_all, push_truth,
}

lookup_same {ℓ} :
    {V : Type ℓ} (k j : String) (m : Assoc V)
    → (k == j) ≡ true
    → lookup k m ≡ none
    → lookup j m ≡ none
lookup_same k j m e h = subst (λ i. lookup i m ≡ none) ((eq_iff k j).0 e) h

-- A test of the candidate of a node, false where there is none.
abbrev pub test {ℓ} : {A : Type ℓ} → (A → Bool) → Option A → Bool
test p none = false
test p (some a) = p a

module _ {S : Type 0} where
  abbrev pub holds : String → Candidate S → Bool
  holds account c = c.account == account

  pub contains-in_account :
      (account nid : String) (cands : Assoc (Candidate S))
      → Unique cands
      → contains (in_account account cands) nid ≡ test (holds account) (lookup nid cands)
  unfolding in_account lookup
  contains-in_account account nid [] u = refl
  contains-in_account account nid ((k, c) ∷ cands) u =
      let rest = contains-in_account account nid cands u.1 in
      elim (Bool-cases (k == nid)) [
        | inr e ↦ ground (arith, rest)
        | inl e ↦ let gone = rw (lookup_same k nid cands e u.0) at rest in ground (arith, gone)
      ]

  pub contains-stale_nodes :
      (ts : TruthState) (source nid : String) (cands : Assoc (Candidate S))
      → Unique cands
      → contains (stale_nodes ts source cands) nid ≡ test (lags ts source nid) (lookup nid cands)
  unfolding stale_nodes lookup
  contains-stale_nodes ts source nid [] u = refl
  contains-stale_nodes ts source nid ((k, c) ∷ cands) u =
      let rest = contains-stale_nodes ts source nid cands u.1 in
      elim (Bool-cases (k == nid)) [
        | inr e ↦ ground (arith, rest)
        | inl e ↦
            let gone = rw (lookup_same k nid cands e u.0) at rest in
            rw ((eq_iff k nid).0 e) (ground (arith, gone, eq_refl nid))
      ]

-- The tests of pushTruth on a node, in the order of the code.
abbrev chosen : Bool → String → List String → List String → String → Bool
chosen stale_only source inside stale nid =
    not (nid == source) && contains inside nid && (not stale_only || contains stale nid)

module _ (stale_only : Bool) (source : String) (inside stale : List String) where
  targets_step :
      (k : String) (t : Session) (sessions : Assoc Session)
      → targets stale_only source inside stale ((k, t) ∷ sessions) ≡ (
          if chosen stale_only source inside stale k
          then (k, t) ∷ targets stale_only source inside stale sessions
          else targets stale_only source inside stale sessions)
  unfolding targets
  targets_step k t sessions = ground arith

  chosen_key :
      (k nid : String) (t s : Session)
      → ◌≡◌ {A = String × Session} (k, t) (nid, s)
      → chosen stale_only source inside stale k ≡ true
      → chosen stale_only source inside stale nid ≡ true
  chosen_key k nid t s e h =
      subst (λ i. chosen stale_only source inside stale i ≡ true) (ap (λ p. p.0) e) h

  targets_sound :
      (sessions : Assoc Session) (nid : String) (s : Session)
      → In (nid, s) (targets stale_only source inside stale sessions)
      → In (nid, s) sessions × (chosen stale_only source inside stale nid ≡ true)
  targets_sound [] nid s m = unfold targets in absurd m
  targets_sound ((k, t) ∷ sessions) nid s m =
      elim (Bool-cases (chosen stale_only source inside stale k)) [
        | inr e ↦
            let r = targets_sound sessions nid s (rw (targets_step k t sessions, e) at m) in
            (inr r.0, r.1)
        | inl e ↦ elim (rw (targets_step k t sessions, e) at m) [
          | inl q ↦ (inl q, chosen_key k nid t s q e)
          | inr n ↦ let r = targets_sound sessions nid s n in (inr r.0, r.1)
        ]
      ]

  targets_complete :
      (sessions : Assoc Session) (nid : String) (s : Session)
      → In (nid, s) sessions
      → chosen stale_only source inside stale nid ≡ true
      → In (nid, s) (targets stale_only source inside stale sessions)
  targets_complete [] nid s m h = absurd m
  targets_complete ((k, t) ∷ sessions) nid s (inr m) h =
      let r = targets_complete sessions nid s m h in
      rw (targets_step k t sessions) (elim (Bool-cases (chosen stale_only source inside stale k)) [
        | inr e ↦ rw e r
        | inl e ↦ rw e (inr r)
      ])
  targets_complete ((k, t) ∷ sessions) nid s (inl q) h =
      rw
        (
          targets_step k t sessions,
          subst (λ i. chosen stale_only source inside stale i ≡ true) (ap (λ p. p.0) (sym q)) h,
        )
        (inl q)

module _ {S : Type 0} (m : Mediator) (w : World) (cands : Assoc (Candidate S)) (u : Unique cands)
    (ts : TruthState) (source : String) where
  -- The node is not the source, takes part in the account, and lacks the truth or gets all pushes.
  abbrev pub Due : String → Type 0
  Due nid =
      (nid ≢ source)
      × (c : Candidate S) × (lookup nid cands ≡ some c)
      × (c.account ≡ ts.account)
      × ((m.profile.mode ≡ propagate_mode_all)
          ⊎ ((c.absent ≡ true) ⊎ (c.fingerprint ≢ ts.fingerprint)))

  abbrev is_chosen : String → Bool
  is_chosen =
      chosen (not (m.profile.mode == propagate_mode_all)) source (in_account ts.account cands)
        (stale_nodes ts source cands)

  chosen-some :
      (nid : String) (c : Candidate S)
      → lookup nid cands ≡ some c
      → is_chosen nid ≡ (
          not (nid == source)
          && (c.account == ts.account)
          && (not (not (m.profile.mode == propagate_mode_all)) || lags ts source nid c))
  chosen-some nid c e =
      rw (contains-in_account ts.account nid cands u, contains-stale_nodes ts source nid cands u)
        (simp e)

  chosen_Due : (nid : String) → is_chosen nid ≡ true → Due nid
  unfolding lags
  chosen_Due nid h = elim (Option-cases (lookup nid cands)) [
    | inl e ↦ absurd (
        ground (
          arith,
          contains-in_account ts.account nid cands u,
          ap (test (holds {S = S} ts.account)) e,
        ))
    | inr (c, e) ↦
        let h' = rw (chosen-some nid c e) at h in
        (
          ground (arith, eq_iff nid source),
          c,
          e,
          ground (arith, eq_iff c.account ts.account),
          ground (
            arith,
            eq_iff c.fingerprint ts.fingerprint,
            eq_iff m.profile.mode propagate_mode_all,
          ),
        )
  ]

  Due-chosen : (nid : String) → Due nid → is_chosen nid ≡ true
  unfolding lags
  Due-chosen nid (ne, c, e, a, r) = rw (chosen-some nid c e) (
      ground (
        arith,
        eq_iff nid source,
        eq_iff c.account ts.account,
        eq_iff c.fingerprint ts.fingerprint,
        eq_iff m.profile.mode propagate_mode_all,
      ))

  sends_sound :
      (push : TruthPush) (l : Assoc Session) (nid : String) (s : Session) (p : TruthPush) (d : Bool)
      → In (send nid s p d) (send_all w push l)
      → In (nid, s) l × (p ≡ push) × (d ≡ w.delivers s push)
  unfolding send_all
  sends_sound push [] nid s p d h = absurd h
  sends_sound push ((k, t) ∷ l) nid s p d (inl e) = (inl (cc), cc, cc)
  sends_sound push ((k, t) ∷ l) nid s p d (inr h) =
      let r = sends_sound push l nid s p d h in (inr r.0, r.1, r.2)

  sends_complete :
      (push : TruthPush) (l : Assoc Session) (nid : String) (s : Session)
      → In (nid, s) l
      → In (send nid s push (w.delivers s push)) (send_all w push l)
  unfolding send_all
  sends_complete push [] nid s h = absurd h
  sends_complete push ((k, t) ∷ l) nid s (inl e) = inl (cc)
  sends_complete push ((k, t) ∷ l) nid s (inr h) = inr (sends_complete push l nid s h)

  -- Where the candidates have distinct keys, pushTruth sends to exactly the connected sessions
  -- whose node is due, and sends the truth.
  pub push_truth_exact :
      (nid : String) (s : Session) (p : TruthPush) (d : Bool)
      → In (send nid s p d) (push_truth m w cands ts source).1 ↔ (
          In (nid, s) (w.sessions_at ts.account)
          × Due nid
          × (p ≡ push_message m ts)
          × (d ≡ w.delivers s (push_message m ts)))
  unfolding push_truth
  push_truth_exact nid s p d = (
    (λ h.
        let r = sends_sound (push_message m ts) _ nid s p d h in
        let t = targets_sound _ _ _ _ (w.sessions_at ts.account) nid s r.0 in
        (t.0, chosen_Due nid t.1, r.1, r.2)),
    (λ h.
        let t =
          targets_complete _ _ _ _ (w.sessions_at ts.account) nid s h.0 (Due-chosen nid h.1) in
        rw (h.2, h.3) (sends_complete (push_message m ts) _ nid s t)),
  )
