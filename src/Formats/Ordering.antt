-- ===== src/Formats/Ordering.antt =====
-- The comparison of two instants that every Compare makes.
use pangaea.Prelude.{ℕ, if◌then◌else◌}
use pangaea.Formats.{Order}
use pangaea.Formats.Clock.{before, after}

-- switch { case a.After(b): 1; case a.Before(b): -1 }, and `otherwise` where they are equal.
abbrev pub compare_times : ℕ → ℕ → Order → Order
compare_times a b otherwise =
    if after a b then Order.newer else if before a b then Order.older else otherwise
