-- ===== src/Examples/Days.antt =====
-- The theorems on partitions by days, for a table with a partition for each month.
use existora2pg.Engine.{build_partition_bounds}
use existora2pg.Engine.Bounds.{build_partition_bounds-intervals, intervals, interval_of}
use existora2pg.Examples.Data.{january, february, by_month, sales, no_floats}
use existora2pg.Plan.HighValue.Days.{Day, Limit, date, IsWritten}
use existora2pg.Plan.Prune.{prune_partitions_by_range}
use existora2pg.Plan.Prune.Days.{prune_partitions_by_range_keeps}
use existora2pg.Prelude.{
  ℕ, true, any, ◌==◌, ◌+◌, codes, List, [], ◌∷◌, some, ◌≡◌, refl, map, text_eq, text_lt,
}

abbrev day : ℕ → ℕ → Day
day month tens = record {
  from_2000 = true;
  y2 = b'0';
  y3 = b'2';
  y4 = b'4';
  m1 = b'0';
  m2 = b'0' + month;
  d1 = b'0' + tens;
  d2 = b'1';
  is_digit = refl;
}

abbrev months : List Limit
months = date (day 2 0) ∷ date (day 3 0) ∷ []

written : IsWritten (january ∷ february ∷ []) months
written = (refl, (refl, tt))

-- Six hours into 2024-02-15.
prune_partitions_by_range_keeps_example :
    any
      (λ j. j == 1)
      (prune_partitions_by_range no_floats
        (january ∷ february ∷ [])
        (codes "2024-02-11")
        (codes "2024-02-21"))
    ≡ true
unfolding text_lt
prune_partitions_by_range_keeps_example =
    prune_partitions_by_range_keeps no_floats (λ d. refl) (codes "2024-02-15 06:00:00") refl
      (january ∷ february ∷ []) months (day 2 1) (some (day 2 2)) 1 written refl refl

build_partition_bounds-intervals_example :
    map interval_of (build_partition_bounds sales) ≡ intervals (codes "MINVALUE") months
unfolding text_eq
build_partition_bounds-intervals_example =
    build_partition_bounds-intervals sales by_month months refl refl written
