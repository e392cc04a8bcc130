-- ===== src/Server/Mediator/Genuine.antt =====
-- What the truths and the pushes of reselect (mediator.go) carry: a file and its own digest.
use pangaea.Prelude.{
  ℕ, String, ◌≡◌, sym, ◌∙◌, ap, subst, inl, inr, Bool, Option, none, some, List, [], ◌∷◌, Assoc,
  Unique, lookup, some_inj, is_some, In, All, All-In, if◌then◌else◌,
}
use pangaea.Formats.{Format, IsFormat}
use pangaea.Transport.{Base64, TruthPush}
use pangaea.Server.Mediator.State.{
  Candidate, Session, TruthState, Mediator, World, Effect, State, send,
}
use pangaea.Server.Mediator.Push.{push_message}
use pangaea.Server.Mediator.Reselect.{reselect}
use pangaea.Server.Mediator.Buckets.{viable_in, extended, viable_in-All}
use pangaea.Server.Mediator.Best.{HasSnap, best_of-IsBest, pick_strategy_known}
use pangaea.Server.Mediator.Rounds.{settled, Outcome}
use pangaea.Server.Mediator.Judge.{IsOf, judge_cases, Settles}
use pangaea.Server.Mediator.Truths.{strategy_of, viable_in-HasSnap, reselect-Outcome}
use pangaea.Server.Mediator.Partition.{push_stays_in_account}

module _ (F : Format) (law : IsFormat F) (b64 : Base64) (sha256 : List ℕ → String) where
  -- The fingerprint of a candidate is the digest of its file.
  abbrev pub Digested : Candidate F.Snapshot → Type 0
  Digested c = (x : F.Snapshot) → c.snap ≡ some x → c.fingerprint ≡ sha256 (F.raw x)

  -- The text is the encoding of a file, and the fingerprint the file's digest.
  abbrev pub FilePrint : String → String → Type 0
  FilePrint raw_b64 fingerprint =
      (file : List ℕ) × (raw_b64 ≡ b64.encode file) × (fingerprint ≡ sha256 file)

  abbrev pub FilePrintTruth : Option TruthState → Type 0
  FilePrintTruth o = (t : TruthState) → o ≡ some t → FilePrint t.raw_b64 t.fingerprint

  module _ (m : Mediator) (w : World) (cands : Assoc (Candidate F.Snapshot))
      (format_name a : String) where
    Settles-FilePrintTruth :
        (best : Candidate F.Snapshot) (prev : Option TruthState)
        (j : Option TruthState × List Effect)
        → Digested best
        → FilePrintTruth prev
        → Settles F b64 m w cands (strategy_of F m) format_name a best prev j
        → FilePrintTruth (settled j.0 prev)
    Settles-FilePrintTruth best prev j d g s t e =
        let same : s.truth ≡ t = some_inj (sym s.holds ∙ e) in
        subst (λ (t : TruthState). FilePrint t.raw_b64 t.fingerprint) same
          (elim s.carries [
            | inl (x, ex, er) ↦ (F.raw x, er, s.prints ∙ d x ex)
            | inr kept ↦ g s.truth kept
          ])

    Outcome-FilePrintTruth :
        (c : Candidate F.Snapshot) (cs : List (Candidate F.Snapshot))
        (prev next : Option TruthState)
        → All HasSnap (c ∷ cs)
        → All Digested (c ∷ cs)
        → FilePrintTruth prev
        → Outcome F b64 m w cands (strategy_of F m) format_name a (some (c ∷ cs)) prev next
        → FilePrintTruth next
    Outcome-FilePrintTruth c cs prev next hs ds g (j, ej, en) =
        let (best, eb, how) =
          judge_cases F b64 m w cands (strategy_of F m) format_name a (c ∷ cs) prev j ej in
        let (b, eb', top) =
          best_of-IsBest F law (strategy_of F m) (pick_strategy_known F law m.profile.strategy) c cs
            hs in
        let mine : Digested best =
          subst Digested (some_inj (sym eb' ∙ eb)) (All-In Digested (c ∷ cs) b ds top.0) in
        subst FilePrintTruth (sym en) (elim how [
          | inl (held, ejj) ↦ subst FilePrintTruth (sym (ap (λ q. settled q.0 prev) ejj)) g
          | inr (free, s) ↦ Settles-FilePrintTruth best prev j mine g s
        ])

  module _ (m : Mediator) (w : World) (st : State F.Snapshot) (format_name : String)
      (digested : (nid : String) (c : Candidate F.Snapshot)
        → In (nid, c) st.candidates
        → Digested c)
      (genuine : (a : String) → FilePrintTruth (lookup a st.truths)) (ut : Unique st.truths)
      (r : State F.Snapshot × List Effect) (ran : reselect F b64 m w st format_name ≡ some r) where
    from_outcome :
        (a : String) (vs : List (Candidate F.Snapshot))
        → All HasSnap vs
        → All Digested vs
        → Outcome F b64 m w st.candidates
            (strategy_of F m)
            format_name
            a
            (extended none vs)
            (if is_some (extended none vs) then lookup a st.truths else none)
            (lookup a r.0.truths)
        → FilePrintTruth (lookup a r.0.truths)
    from_outcome a [] hs ds o = λ t e. cc
    from_outcome a (c ∷ cs) hs ds o =
        Outcome-FilePrintTruth m w st.candidates format_name a c cs (lookup a st.truths)
          (lookup a r.0.truths) hs ds (genuine a) o

    -- For a format that keeps the contract of Compare and truths with distinct keys: where each
    -- candidate's fingerprint is the digest of its file and each truth is the encoding of a file
    -- under the file's digest, each truth after a reselection is so too.
    pub truths_stay_genuine :
        (a : String) (t : TruthState)
        → lookup a r.0.truths ≡ some t
        → FilePrint t.raw_b64 t.fingerprint
    truths_stay_genuine a =
        from_outcome a (viable_in a st.candidates) (viable_in-HasSnap a st.candidates)
          (viable_in-All Digested a st.candidates (λ n c i v e. digested n c i))
          (reselect-Outcome F b64 m w st format_name r ran ut a)

    module _ (uc : Unique st.candidates) (keyed : (a : String) → IsOf a (lookup a st.truths)) where
      -- For a format that keeps the contract of Compare: where keys are distinct, each candidate's
      -- fingerprint is the digest of its file, and each truth, filed under its account, is the
      -- encoding of a file under the file's digest, what a push of a reselection carries decodes
      -- to a file whose digest is the push's fingerprint.
      pub pushes_are_genuine :
          (nid : String) (s : Session) (p : TruthPush) (d : Bool)
          → In (send nid s p d) r.1
          → (file : List ℕ) × (b64.decode p.raw_b64 ≡ some file) × (p.fingerprint ≡ sha256 file)
      unfolding push_message
      pushes_are_genuine nid s p d i =
          let (on, holder, (ts, et, ep)) =
            push_stays_in_account F b64 m w st format_name uc ut keyed r ran nid s p d i in
          let (file, er, ef) = truths_stay_genuine p.account ts et in
          (
            file,
            ap (λ x. b64.decode x.raw_b64) ep ∙ ap b64.decode er ∙ b64.decode-encode file,
            ap (λ x. x.fingerprint) ep ∙ ef,
          )
