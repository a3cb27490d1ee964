-- ===== src/Plan/Prune/Indices.antt =====
-- resolvePartitions of internal/migration/plan.go: the indices that it gives.
use existora2pg.Config.{RangeFilter, TableOverride}
use existora2pg.Schema.{partitions_of, Partition, Table}
use existora2pg.Plan.HighValue.{normalize_value, extract_value, Floats}
use existora2pg.Prelude.{
  none, some, inr, inl, is_nil, zero, Bool-cases, [], arith, suc, ◌<◌, length, Option, ◌∷◌, ◌≤◌,
  range, List, Text, ◌+◌, ℕ,
}
use native.Mathlib.Nat.{zero-add, suc-add, add-suc}
use existora2pg.Plan.Prune.{
  by_range, in_filter, partition_overlaps, resolve_partitions, prune_partitions_by_range,
  filter_indices, prune_from,
}

-- Indices in increasing order, from `lo` up to but not including `hi`.
abbrev pub IsIncreasing : ℕ → ℕ → List ℕ → Type 0
IsIncreasing lo hi [] = Unit
IsIncreasing lo hi (i ∷ is) = (lo ≤ i) × (i < hi) × IsIncreasing (suc i) hi is

IsIncreasing-weaken :
    (lo lo' hi : ℕ) (is : List ℕ) → lo ≤ lo' → IsIncreasing lo' hi is → IsIncreasing lo hi is
IsIncreasing-weaken lo lo' hi [] h a = tt
IsIncreasing-weaken lo lo' hi (i ∷ is) h a = (omega arith, a.1, a.2)

IsIncreasing-range : (n k : ℕ) → IsIncreasing n (n + k) (range n k)
IsIncreasing-range n zero = tt
IsIncreasing-range n (suc k) =
    (omega arith, omega arith, rw add-suc (rw (← suc-add) (IsIncreasing-range (suc n) k)))

filter_indices-IsIncreasing :
    (n hi : ℕ) (ps : List Partition) (filter : List Text)
    → n + length ps ≤ hi
    → IsIncreasing n hi (filter_indices n ps filter)
unfolding filter_indices
filter_indices-IsIncreasing n hi [] filter h = tt
filter_indices-IsIncreasing n hi (p ∷ ps) filter h =
    let rest = filter_indices-IsIncreasing (suc n) hi ps filter (omega arith) in
    elim (Bool-cases (in_filter p.name filter)) [
      | inl chosen ↦ rw chosen (omega arith, omega arith, rest)
      | inr other ↦ rw other (IsIncreasing-weaken n (suc n) hi _ (omega arith) rest)
    ]

prune_from-IsIncreasing :
    (fl : Floats) (from to lower : Text) (n hi : ℕ) (ps : List Partition)
    → n + length ps ≤ hi
    → IsIncreasing n hi (prune_from fl from to lower n ps)
unfolding prune_from
prune_from-IsIncreasing fl from to lower n hi [] h = tt
prune_from-IsIncreasing fl from to lower n hi (p ∷ ps) h =
    let upper = extract_value p.high_value in
    let rest = prune_from-IsIncreasing fl from to upper (suc n) hi ps (omega arith) in
    elim (Bool-cases (partition_overlaps fl lower upper from to)) [
      | inl chosen ↦ rw chosen (omega arith, omega arith, rest)
      | inr other ↦ rw other (IsIncreasing-weaken n (suc n) hi _ (omega arith) rest)
    ]

by_range-IsIncreasing :
    (fl : Floats) (parts : List Partition) (r : Option RangeFilter)
    → IsIncreasing 0 (length parts) (by_range fl parts r)
unfolding prune_partitions_by_range
by_range-IsIncreasing fl parts none = rw zero-add at (IsIncreasing-range 0 (length parts))
by_range-IsIncreasing fl parts (some r) = elim (Bool-cases (is_nil r.from)) [
  | inl all ↦ rw all (rw zero-add at (IsIncreasing-range 0 (length parts)))
  | inr given ↦ rw given (
      prune_from-IsIncreasing fl (normalize_value r.from) (normalize_value r.to) [] 0 (length parts)
        parts (omega arith))
]

-- Whatever the filters of a table, the chosen indices are those of existing partitions, in
-- increasing order, so that no partition is planned twice.
pub resolve_partitions-IsIncreasing :
    (fl : Floats) (t : Table) (override : TableOverride)
    → IsIncreasing 0 (length (partitions_of t.partitioning)) (resolve_partitions fl t override)
unfolding resolve_partitions
resolve_partitions-IsIncreasing fl t override =
    let parts = partitions_of t.partitioning in
    elim (Bool-cases (is_nil override.partition_filter)) [
      | inl all ↦ rw all (by_range-IsIncreasing fl parts override.partition_range)
      | inr given ↦ rw given (
          filter_indices-IsIncreasing 0 (length parts) parts override.partition_filter
            (omega arith))
    ]
