-- ===== src/Server/Mediator/Invariant.antt =====
-- What every event of a mediator (mediator.go) keeps.
use pangaea.Prelude.{
  String, ◌≡◌, refl, sym, ◌∙◌, ap, subst, inl, inr, Bool, true, false, Option, none, some, List, [],
  ◌∷◌, Assoc, Unique, insert, insert-Unique, delete, delete-Unique, lookup, lookup-insert,
  lookup-delete, is_some, some_inj, Bool-cases, Option-cases, arith, eq_iff, ◌==◌, if◌then◌else◌,
}
use pangaea.Formats.{Format}
use pangaea.Transport.{Base64, SnapshotReport, TruthAck}
use pangaea.Server.Mediator.State.{
  Candidate, Session, TruthState, MirrorTruth, Mediator, World, Effect, State,
}
use pangaea.Server.Mediator.Reselect.{mirror_of, update_mirror, reselect}
use pangaea.Server.Mediator.Events.{
  Event, report, absent, ack, disconnect, on_ack, on_report, on_parsed, handle, init, base64_decode,
  reported_candidate, absent_candidate, broken_candidate,
}
use pangaea.Server.Mediator.Buckets.{viable_in, extended}
use pangaea.Server.Mediator.Rounds.{settled, Outcome}
use pangaea.Server.Mediator.Judge.{IsOf, judge_cases}
use pangaea.Server.Mediator.Truths.{strategy_of, reselect-Outcome, reselect-Unique, reselect-Halves}

-- An entry of the mirror is the truth of its account, with some nodes; there is no other entry.
abbrev pub Mirrors : Option TruthState → Option MirrorTruth → Type 0
Mirrors none none = Unit
Mirrors (some t) (some e) = e ≡ mirror_of e.nodes t
Mirrors none (some e) = ⊥
Mirrors (some t) none = ⊥

abbrev pub IsNode : {S : Type 0} → String → Option (Candidate S) → Type 0
IsNode nid o = (c : Candidate _) → o ≡ some c → c.node_id ≡ nid

-- The candidates are keyed by node id and the truths by account, each key once, and the mirror
-- shows the truths.
pub record IsSound {S : Type 0} (st : State S) : Type 0 where
  pub candidates_unique : Unique st.candidates
  pub truths_unique : Unique st.truths
  pub nodes : (nid : String) → IsNode nid (lookup nid st.candidates)
  pub accounts : (a : String) → IsOf a (lookup a st.truths)
  pub mirrored : (a : String) → Mirrors (lookup a st.truths) (lookup a st.mirror)

update_mirror-Mirrors :
    {S : Type 0} (cands : Assoc (Candidate S)) (truths : Assoc TruthState) (a : String)
    → Mirrors (lookup a truths) (lookup a (update_mirror cands truths))
unfolding lookup update_mirror
update_mirror-Mirrors cands [] a = tt
update_mirror-Mirrors cands ((k, t) ∷ truths) a = elim (Bool-cases (k == a)) [
  | inl e ↦ rw e refl
  | inr e ↦ rw e (update_mirror-Mirrors cands truths a)
]

module _ {S : Type 0} (st : State S) (v : IsSound st) where
  pub put_candidate-IsSound :
      (nid : String) (c : Candidate S)
      → c.node_id ≡ nid
      → IsSound (record st { candidates = insert nid c st.candidates })
  put_candidate-IsSound nid c e = record {
    candidates_unique = insert-Unique nid c st.candidates v.candidates_unique;
    truths_unique = v.truths_unique;
    nodes = λ k c' ec. elim (Bool-cases (nid == k)) [
      | inl same ↦
          let here : some c ≡ some c' =
            rw same at (rw (lookup-insert nid k c st.candidates) at ec) in
          ap (λ x. x.node_id) (sym (some_inj here)) ∙ e ∙ (eq_iff nid k).0 same
      | inr apart ↦ v.nodes k c' (rw apart at (rw (lookup-insert nid k c st.candidates) at ec))
    ];
    accounts = v.accounts;
    mirrored = v.mirrored;
  }

  pub drop_candidate-IsSound :
      (nid : String) → IsSound (record st { candidates = delete nid st.candidates })
  drop_candidate-IsSound nid = record {
    candidates_unique = delete-Unique nid st.candidates v.candidates_unique;
    truths_unique = v.truths_unique;
    nodes = λ k c' ec. elim (Bool-cases (nid == k)) [
      | inl same ↦ cc (ec, rw same at (lookup-delete nid k st.candidates))
      | inr apart ↦ v.nodes k c' (rw apart at (rw (lookup-delete nid k st.candidates) at ec))
    ];
    accounts = v.accounts;
    mirrored = v.mirrored;
  }

  on_ack-IsSound : (s : Session) (a : TruthAck) → IsSound (on_ack st s a)
  unfolding on_ack
  on_ack-IsSound s a =
      put_candidate-IsSound s.node_id _ (elim (Option-cases (lookup s.node_id st.candidates)) [
        | inl e ↦ rw e (ground arith)
        | inr (c, e) ↦ rw e (ground (arith, v.nodes s.node_id c e))
      ])

outcome-IsOf :
    (F : Format) (b64 : Base64) (m : Mediator) (w : World) (cands : Assoc (Candidate F.Snapshot))
    (strategy format_name a : String) (vs : Option (List (Candidate F.Snapshot)))
    (prev next : Option TruthState)
    → Outcome F b64 m w cands strategy format_name a vs prev next
    → IsOf a prev
    → IsOf a next
outcome-IsOf F b64 m w cands strategy format_name a none prev next e mine t et = mine t (sym e ∙ et)
outcome-IsOf F b64 m w cands strategy format_name a (some vs) prev next (j, ej, en) mine t et =
    let (best, eb, how) = judge_cases F b64 m w cands strategy format_name a vs prev j ej in
    elim how [
      | inl (held, ejj) ↦ mine t (sym (ap (λ q. settled q.0 prev) ejj) ∙ sym en ∙ et)
      | inr (free, s) ↦ ap (λ x. x.account) (some_inj (sym et ∙ en ∙ s.holds)) ∙ s.mine mine
    ]

module _ (F : Format) (b64 : Base64) (m : Mediator) (w : World) where
  reselect-IsSound :
      (st : State F.Snapshot) (format_name : String) (r : State F.Snapshot × List Effect)
      → reselect F b64 m w st format_name ≡ some r
      → IsSound st
      → IsSound r.0
  reselect-IsSound st format_name r h v =
      let hs = reselect-Halves F b64 m w st format_name r h in
      record {
        candidates_unique = rw hs.same_candidates v.candidates_unique;
        truths_unique = reselect-Unique F b64 m w st format_name r h v.truths_unique;
        nodes = λ nid. rw hs.same_candidates (v.nodes nid);
        accounts = λ a.
            outcome-IsOf F b64 m w st.candidates (strategy_of F m) format_name a _ _ _
              (reselect-Outcome F b64 m w st format_name r h v.truths_unique a)
              (kept_accounts (is_some (extended none (viable_in a st.candidates))) a
                (lookup a st.truths) (v.accounts a));
        mirrored = λ a.
            rw (hs.new_mirror, hs.new_truths) (update_mirror-Mirrors st.candidates hs.chosen.0 a);
      }
    where
      kept_accounts :
          (b : Bool) (a : String) (o : Option TruthState)
          → IsOf a o
          → IsOf a (if b then o else none)
      kept_accounts true a o h = h
      kept_accounts false a o h = λ t e. cc

  on_parsed-IsSound :
      (st : State F.Snapshot) (s : Session) (p : SnapshotReport) (o : Option F.Snapshot)
      (r : State F.Snapshot × List Effect)
      → on_parsed F b64 m w st s p o ≡ some r
      → IsSound st
      → IsSound r.0
  unfolding on_parsed broken_candidate reported_candidate
  on_parsed-IsSound st s p none r h v =
      subst (λ (q : State F.Snapshot × List Effect). IsSound q.0)
        {x = (
          record st { candidates = insert s.node_id (broken_candidate w.now s p) st.candidates },
          [],
        )}
        {y = r} (some_inj h)
        (put_candidate-IsSound st v s.node_id (broken_candidate w.now s p) refl)
  on_parsed-IsSound st s p (some snap) r h v =
      reselect-IsSound _ p.format r h
        (put_candidate-IsSound st v s.node_id (reported_candidate F b64 m w s p snap) refl)

  on_report-IsSound :
      (st : State F.Snapshot) (s : Session) (p : SnapshotReport)
      (r : State F.Snapshot × List Effect)
      → on_report F b64 m w st s p ≡ some r
      → IsSound st
      → IsSound r.0
  unfolding on_report
  on_report-IsSound st s p r h v = elim (Option-cases (base64_decode b64 p.raw_b64)) [
    | inl e ↦
        let same : some (st, []) ≡ some r = rw (e, on_report) at h in
        subst (λ (q : State F.Snapshot × List Effect). IsSound q.0) {x = (st, [])} {y = r}
          (some_inj same) v
    | inr (raw, e) ↦ on_parsed-IsSound st s p (F.parse raw) r (rw (e, on_report) at h) v
  ]

  -- An event that is handled without a panic keeps a sound state sound, whatever it carries and
  -- whatever the world does.
  pub handle-IsSound :
      (st : State F.Snapshot) (ev : Event) (r : State F.Snapshot × List Effect)
      → handle F b64 m w st ev ≡ some r
      → IsSound st
      → IsSound r.0
  unfolding handle
  handle-IsSound st (report s p) r h v = on_report-IsSound st s p r h v
  handle-IsSound st (absent s p) r h v = reselect-IsSound _ m.profile.format r h (
      put_candidate-IsSound st v s.node_id (absent_candidate w.now s p)
        (unfold absent_candidate in refl))
  handle-IsSound st (ack s p) r h v =
      subst (λ (q : State F.Snapshot × List Effect). IsSound q.0) {x = (on_ack st s p, [])} {y = r}
        (some_inj h) (on_ack-IsSound st v s p)
  handle-IsSound st (disconnect nid) r h v =
      reselect-IsSound _ m.profile.format r h (drop_candidate-IsSound st v nid)

pub init-IsSound : {S : Type 0} → IsSound (init {S = S})
unfolding lookup
init-IsSound = record {
  candidates_unique = tt;
  truths_unique = tt;
  nodes = λ nid c e. cc;
  accounts = λ a t e. cc;
  mirrored = λ a. tt;
}
