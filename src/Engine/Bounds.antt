-- ===== src/Engine/Bounds.antt =====
-- BuildPartitionBounds of internal/migration/engine.go, for RANGE partitions by days.
use existora2pg.Ddl.Statements.{PartitionBound}
use existora2pg.Engine.{build_partition_bounds, range_bounds}
use existora2pg.Plan.HighValue.{parse_high_value}
use existora2pg.Plan.HighValue.Days.{Limit, pg_bound, IsWritten, parse_high_value-high_value_of}
use existora2pg.Prelude.{ap, ◌≡◌, refl, some, Text, List, [], ◌∷◌, codes, text_eq, false, map, ◌∙◌}
use existora2pg.Schema.{Table, Partition, PartitionInfo}

-- The intervals between limits: each one from the limit before, and the first one from `lower`.
abbrev pub intervals : Text → List Limit → List (Text × Text)
intervals lower [] = []
intervals lower (l ∷ ls) = (lower, pg_bound l) ∷ intervals (pg_bound l) ls

abbrev pub interval_of : PartitionBound → Text × Text
interval_of b = (b.lower_bound, b.upper_bound)

range_bounds-intervals :
    (t : Table) (strategy lower : Text) (ps : List Partition) (ls : List Limit)
    → IsWritten ps ls
    → map interval_of (range_bounds t strategy lower ps) ≡ intervals lower ls
range_bounds-intervals t strategy lower [] [] w = refl
range_bounds-intervals t strategy lower [] (l ∷ ls) w = absurd w
range_bounds-intervals t strategy lower (p ∷ ps) [] w = absurd w
range_bounds-intervals t strategy lower (p ∷ ps) (l ∷ ls) (w, ws) =
    let e : parse_high_value p.high_value ≡ pg_bound l =
      ap parse_high_value w ∙ parse_high_value-high_value_of l in
    ap (λ rest. (lower, parse_high_value p.high_value) ∷ rest)
      (range_bounds-intervals t strategy (parse_high_value p.high_value) ps ls ws)
    ∙ ap (λ u. (lower, u) ∷ intervals u ls) e

-- For a table that is not partitioned by LIST, whose partitions have as high values midnights, or
-- MAXVALUE, as Oracle writes them for a DATE or a TIMESTAMP: the bounds for PostgreSQL are the
-- intervals between these days, in their order, each day written as a quoted date; the first one
-- starts at MINVALUE, and MAXVALUE stays as it is.
pub build_partition_bounds-intervals :
    (t : Table) (info : PartitionInfo) (limits : List Limit)
    → t.partitioning ≡ some info
    → text_eq info.strategy (codes "LIST") ≡ false
    → IsWritten info.partitions limits
    → map interval_of (build_partition_bounds t) ≡ intervals (codes "MINVALUE") limits
unfolding build_partition_bounds
build_partition_bounds-intervals t info limits e range written =
    rw (e, range)
      (range_bounds-intervals t info.strategy (codes "MINVALUE") info.partitions limits written)
