-- ===== src/Prelude/Results.antt =====
-- A value with an error, and the lists of bytes that Go's calls compare.
use mathlib.Core.Option.{Option, none, some}

pub data Result {ℓ} (E A : Type ℓ) : Type ℓ where
  failed : E → Result E A
  done : A → Result E A

abbrev pub to_option : {E A : Type 0} → Result E A → Option A
to_option (failed e) = none
to_option (done a) = some a

-- if err := ...; err != nil { return nil, err }
abbrev pub unless : {E A : Type 0} → Option E → A → Result E A
unless none a = done a
unless (some e) a = failed e
