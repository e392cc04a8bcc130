-- ===== src/Server/Mediator/Push.antt =====
-- `pushTruth` and `accountNodes` (mediator.go).
use pangaea.Prelude.{
  String, Bool, not, ◌&&◌, ◌||◌, List, [], ◌∷◌, Assoc, contains, sort, compact, ◌==◌, if◌then◌else◌,
}
use pangaea.Config.{propagate_mode_all}
use pangaea.Transport.{TruthPush}
use pangaea.Server.Mediator.State.{Candidate, Session, TruthState, Mediator, World, Effect, send}

module _ {S : Type 0} where
  -- The keys of the candidates that hold the account.
  unfoldable pub in_account : String → Assoc (Candidate S) → List String
  in_account account [] = []
  in_account account ((nid, c) ∷ cands) =
      let rest = in_account account cands in if c.account == account then nid ∷ rest else rest

  unfoldable pub account_nodes : Assoc (Candidate S) → String → List String
  account_nodes cands account = compact (sort (in_account account cands))

  -- The body of the loop that fills `stale`.
  unfoldable pub lags : TruthState → String → String → Candidate S → Bool
  lags ts source nid c =
      (c.account == ts.account)
      && not (nid == source)
      && (c.absent || not (c.fingerprint == ts.fingerprint))

  -- The keys of the candidates that hold the account without its truth.
  unfoldable pub stale_nodes : TruthState → String → Assoc (Candidate S) → List String
  stale_nodes ts source [] = []
  stale_nodes ts source ((nid, c) ∷ cands) =
      let rest = stale_nodes ts source cands in if lags ts source nid c then nid ∷ rest else rest

-- The sessions to push to, with their keys.
unfoldable pub targets : Bool → String → List String → List String → Assoc Session → Assoc Session
targets stale_only source inside stale [] = []
targets stale_only source inside stale ((nid, s) ∷ sessions) =
    let rest = targets stale_only source inside stale sessions in
    if nid == source
    then rest
    else if not (contains inside nid)
    then rest
    else if stale_only && not (contains stale nid)
    then rest
    else (nid, s) ∷ rest

unfoldable pub push_message : Mediator → TruthState → TruthPush
push_message m ts = record {
  profile = m.profile.name;
  account = ts.account;
  format = ts.format;
  fingerprint = ts.fingerprint;
  raw_b64 = ts.raw_b64;
  target_path = m.target_path;
  issued_at = ts.issued_at;
  summary = ts.summary;
}

unfoldable pub send_all : World → TruthPush → Assoc Session → List Effect
send_all w push [] = []
send_all w push ((nid, s) ∷ rest) = send nid s push (w.delivers s push) ∷ send_all w push rest

-- The nodes that a send reached.
unfoldable pub sent_to : World → TruthPush → Assoc Session → List String
sent_to w push [] = []
sent_to w push ((nid, s) ∷ rest) =
    let more = sent_to w push rest in if w.delivers s push then s.node_id ∷ more else more

module _ {S : Type 0} where
  -- The sends, and the sorted ids of the nodes that were reached.
  unfoldable pub push_truth :
      Mediator → World → Assoc (Candidate S) → TruthState → String → List String × List Effect
  push_truth m w cands ts source =
      let push = push_message m ts in
      let chosen =
        targets (not (m.profile.mode == propagate_mode_all)) source (in_account ts.account cands)
          (stale_nodes ts source cands) (w.sessions_at ts.account) in
      (sort (sent_to w push chosen), send_all w push chosen)
