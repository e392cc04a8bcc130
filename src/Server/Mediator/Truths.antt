-- ===== src/Server/Mediator/Truths.antt =====
-- What reselect (mediator.go) leaves as the truth of each account.
use pangaea.Prelude.{
  String, ◌≡◌, ◌∙◌, subst, true, none, some, List, ◌++◌, Assoc, Unique, lookup, is_some, sort,
  contains-sort, >>=-eq-some, All, arith, if◌then◌else◌,
}
use pangaea.Formats.{Format}
use pangaea.Transport.{Base64}
use pangaea.Server.Mediator.State.{Candidate, TruthState, Mediator, World, Effect, State}
use pangaea.Server.Mediator.Select.{viable, by_account, pick_strategy}
use pangaea.Server.Mediator.Reselect.{lost_accounts, lose, update_mirror, select_all, reselect}
use pangaea.Server.Mediator.Buckets.{
  viable_in, extended, lookup-by_account, by_account-Unique, viable_in-All,
}
use pangaea.Server.Mediator.Best.{HasSnap}
use pangaea.Server.Mediator.Losing.{contains-lost_accounts, lookup-lose, lose-Unique}
use pangaea.Server.Mediator.Rounds.{Outcome, select_all-Outcome, select_all-Unique}

-- A viable candidate has a snapshot.
pub viable-HasSnap : {S : Type 0} (c : Candidate S) → viable c ≡ true → HasSnap c
viable-HasSnap c v = ground arith

pub viable_in-HasSnap :
    {S : Type 0} (a : String) (cands : Assoc (Candidate S)) → All HasSnap (viable_in a cands)
viable_in-HasSnap a cands = viable_in-All HasSnap a cands (λ n c i v e. viable-HasSnap c v)

-- The strategy that a reselection uses.
abbrev pub strategy_of : Format → Mediator → String
strategy_of F m = pick_strategy F.strategies m.profile.strategy

module _ (F : Format) (b64 : Base64) (m : Mediator) (w : World) (st : State F.Snapshot)
    (format_name : String) where
  -- The two halves of a reselection.
  pub record Halves (r : State F.Snapshot × List Effect) : Type 0 where
    pub kept : Assoc TruthState × List Effect
    pub chosen : Assoc TruthState × List Effect
    pub loses :
        lose m st.candidates (sort (lost_accounts (by_account st.candidates) st.truths)) st.truths
        ≡ some kept
    pub chooses :
        select_all F b64 m w st.candidates
          (strategy_of F m)
          format_name
          (by_account st.candidates)
          kept.0
        ≡ some chosen
    pub new_truths : r.0.truths ≡ chosen.0
    pub same_candidates : r.0.candidates ≡ st.candidates
    pub new_mirror : r.0.mirror ≡ update_mirror st.candidates chosen.0
    pub effects : r.1 ≡ kept.1 ++ chosen.1

  pub reselect-Halves :
      (r : State F.Snapshot × List Effect) → reselect F b64 m w st format_name ≡ some r → Halves r
  unfolding reselect
  reselect-Halves r h =
      let (k, e, h') =
        >>=-eq-some
          (lose m st.candidates (sort (lost_accounts (by_account st.candidates) st.truths))
            st.truths)
          _ h in
      let (c, e', h'') =
        >>=-eq-some
          (select_all F b64 m w st.candidates (strategy_of F m) format_name
            (by_account st.candidates) k.0)
          _ h' in
      record {
        kept = k;
        chosen = c;
        loses = e;
        chooses = e';
        new_truths = cc;
        same_candidates = cc;
        new_mirror = cc;
        effects = cc;
      }

  -- The first half keeps the truths of the accounts that have a bucket.
  pub lookup-kept :
      (r : State F.Snapshot × List Effect) (hs : Halves r)
      → Unique st.truths
      → (a : String)
      → lookup a hs.kept.0
        ≡ (if is_some (lookup a (by_account st.candidates)) then lookup a st.truths else none)
  lookup-kept r hs u a =
      let e = lookup-lose m st.candidates _ st.truths hs.kept hs.loses a in
      let f =
        contains-sort (lost_accounts (by_account st.candidates) st.truths) a
        ∙ contains-lost_accounts (by_account st.candidates) st.truths a u in
      ground (arith, e, f)

  -- The truth of an account, from its viable candidates and its truth before.
  pub reselect-Outcome :
      (r : State F.Snapshot × List Effect)
      → reselect F b64 m w st format_name ≡ some r
      → Unique st.truths
      → (a : String)
      → Outcome F b64 m w st.candidates
          (strategy_of F m)
          format_name
          a
          (extended none (viable_in a st.candidates))
          (if is_some (extended none (viable_in a st.candidates)) then lookup a st.truths else none)
          (lookup a r.0.truths)
  reselect-Outcome r h u a =
      let hs = reselect-Halves r h in
      let o =
        select_all-Outcome F b64 m w st.candidates (strategy_of F m) format_name
          (by_account st.candidates) hs.kept.0 hs.chosen (by_account-Unique st.candidates)
          hs.chooses a in
      rw (hs.new_truths, ← lookup-by_account a st.candidates)
        (subst
          (λ o'.
            Outcome F b64 m w st.candidates (strategy_of F m) format_name a
              (lookup a (by_account st.candidates)) o' (lookup a hs.chosen.0))
          (lookup-kept r hs u a) o)

  pub reselect-Unique :
      (r : State F.Snapshot × List Effect)
      → reselect F b64 m w st format_name ≡ some r
      → Unique st.truths
      → Unique r.0.truths
  reselect-Unique r h u =
      let hs = reselect-Halves r h in
      rw hs.new_truths (
        select_all-Unique F b64 m w st.candidates (strategy_of F m) format_name _ hs.kept.0
          hs.chosen hs.chooses (lose-Unique m st.candidates _ st.truths hs.kept hs.loses u))
