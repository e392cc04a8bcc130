-- ===== src/Server/Mediator/Select.antt =====
-- The choice of a truth in `reselect` (mediator.go): viable candidates, buckets, strategy, best.
use pangaea.Prelude.{
  String, Bool, true, false, not, ◌&&◌, Option, none, some, List, [], ◌∷◌, ◌++◌, Assoc, lookup,
  insert, contains, is_some, ◌>>=◌, if◌then◌else◌,
}
use pangaea.Formats.{Format, Order, ValidationStatus, ok, scope_warn, unreachable}
use pangaea.Server.Mediator.State.{Candidate}

-- The switch on the status of a candidate.
abbrev pub selectable : ValidationStatus → Bool
selectable ok = true
selectable scope_warn = true
selectable unreachable = true
selectable _ = false

module _ {S : Type 0} where
  abbrev pub viable : Candidate S → Bool
  viable c = not c.absent && is_some c.snap && selectable c.status

  -- byAccount[c.account], nil when there is none.
  abbrev pub bucket : Option (List (Candidate S)) → List (Candidate S)
  bucket none = []
  bucket (some cs) = cs

  unfoldable pub file_candidate :
      Candidate S → Assoc (List (Candidate S)) → Assoc (List (Candidate S))
  file_candidate c buckets =
      if viable c
      then insert c.account (bucket (lookup c.account buckets) ++ c ∷ []) buckets
      else buckets

  unfoldable pub file_all :
      Assoc (Candidate S) → Assoc (List (Candidate S)) → Assoc (List (Candidate S))
  file_all [] buckets = buckets
  file_all ((n, c) ∷ cands) buckets = file_all cands (file_candidate c buckets)

  unfoldable pub by_account : Assoc (Candidate S) → Assoc (List (Candidate S))
  unfolding file_all file_candidate
  by_account cands = file_all cands []

-- The strategy of the profile if the format has it, else the format's default.
abbrev pub or_default : List String → String → String
or_default [] s = s
or_default (d ∷ ds) s = d

unfoldable pub pick_strategy : List String → String → String
pick_strategy strategies s = if contains strategies s then s else or_default strategies s

abbrev pub is_newer : Order → Bool
is_newer Order.newer = true
is_newer _ = false

module _ (F : Format) where
  -- The loop over viable[1:]. `none` is a panic: a nil snapshot, or one that Compare raises.
  unfoldable pub best_from :
      String → Candidate F.Snapshot → List (Candidate F.Snapshot) → Option (Candidate F.Snapshot)
  best_from strategy best [] = some best
  best_from strategy best (c ∷ rest) = do
    a ← c.snap
    b ← best.snap
    o ← F.compare strategy a b
    best_from strategy (if is_newer o then c else best) rest

  unfoldable pub best_of : String → List (Candidate F.Snapshot) → Option (Candidate F.Snapshot)
  unfolding best_from
  best_of strategy [] = none
  best_of strategy (c ∷ rest) = best_from strategy c rest
