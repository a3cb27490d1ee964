-- ===== src/Plan/Prune.antt =====
-- resolvePartitions of internal/migration/plan.go: which partitions of a table are migrated.
pub mod Keeps
pub mod Days
pub mod Indices
use existora2pg.Plan.HighValue.{Floats, extract_value, normalize_value, is_less}
use existora2pg.Schema.{Table, Partition, partitions_of}
use existora2pg.Config.{TableOverride, RangeFilter}
use existora2pg.Prelude.{
  true, none, some, false, ◌&&◌, length, text_eq, is_nil, range, suc, not, any, [], if◌then◌else◌,
  ◌∷◌, Option, Bool, List, Text, ℕ,
}

-- inFilter
unfoldable pub in_filter : Text → List Text → Bool
in_filter name filter = any (text_eq name) filter

unfoldable pub filter_indices : ℕ → List Partition → List Text → List ℕ
unfolding in_filter
filter_indices i [] filter = []
filter_indices i (p ∷ ps) filter =
    let rest = filter_indices (suc i) ps filter in
    if in_filter p.name filter then i ∷ rest else rest

module _ (fl : Floats) where
  -- partitionOverlaps: an empty bound is open.
  unfoldable pub partition_overlaps : Text → Text → Text → Text → Bool
  partition_overlaps p_low p_high f_low f_high =
      if not (is_nil p_low) && (not (is_nil f_high) && not (is_less fl p_low f_high))
      then false
      else if not (is_nil f_low) && (not (is_nil p_high) && not (is_less fl f_low p_high))
      then false
      else true

  -- The loop of prunePartitionsByRange; `lower` is the bound of the partition before.
  unfoldable pub prune_from : Text → Text → Text → ℕ → List Partition → List ℕ
  unfolding partition_overlaps
  prune_from from to lower i [] = []
  prune_from from to lower i (p ∷ ps) =
      let upper = extract_value p.high_value in
      let rest = prune_from from to upper (suc i) ps in
      if partition_overlaps lower upper from to then i ∷ rest else rest

  -- prunePartitionsByRange
  unfoldable pub prune_partitions_by_range : List Partition → Text → Text → List ℕ
  unfolding prune_from
  prune_partitions_by_range parts from to =
      prune_from (normalize_value from) (normalize_value to) [] 0 parts

  abbrev by_range : List Partition → Option RangeFilter → List ℕ
  by_range parts none = range 0 (length parts)
  by_range parts (some r) =
      if is_nil r.from then range 0 (length parts) else prune_partitions_by_range parts r.from r.to

  -- resolvePartitions
  unfoldable pub resolve_partitions : Table → TableOverride → List ℕ
  unfolding filter_indices prune_partitions_by_range
  resolve_partitions t override =
      let parts = partitions_of t.partitioning in
      if is_nil override.partition_filter
      then by_range parts override.partition_range
      else filter_indices 0 parts override.partition_filter
