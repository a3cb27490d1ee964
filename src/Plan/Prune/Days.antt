-- ===== src/Plan/Prune/Days.antt =====
-- prunePartitionsByRange of internal/migration/plan.go on partitions by days.
use existora2pg.Plan.HighValue.{Floats, is_less, compare_values, extract_value}
use existora2pg.Plan.HighValue.Days.{
  Day, Limit, day_text, day_of, bound_text, IsWritten, extract_value-high_value_of,
  normalize_value-bound_text,
}
use existora2pg.Plan.Prune.{prune_partitions_by_range}
use existora2pg.Plan.Prune.Keeps.{
  IsWord, IsWord-IsKind, IsBound, is_within, HoldsAt, prune_partitions_by_range_extracted,
}
use existora2pg.Schema.{Partition}
use existora2pg.Prelude.{
  ℕ, zero, suc, Bool, true, not, ◌&&◌, Text, List, [], ◌∷◌, Option, none, some, ◌≡◌, refl, sym, ap,
  ◌∙◌, subst, any, ◌==◌, text_lt, inl, inr, arith,
}

-- Whether a moment, written YYYY-MM-DD HH:MM:SS or shorter, is at or behind the midnight at which a
-- day starts, and whether it is before it: such texts are ordered as the moments are.
abbrev pub is_from : Option Day → Text → Bool
is_from none v = true
is_from (some d) v = not (text_lt v (day_text d))

abbrev pub is_before : Text → Option Day → Bool
is_before v none = true
is_before v (some d) = text_lt v (day_text d)

abbrev pub lies : Option Day → Option Day → Text → Bool
lies from to v = is_from from v && is_before v to

-- The partition at a place holds a moment: it lies between the limit before and its own.
abbrev pub LiesAt : Text → Option Day → List Limit → ℕ → Type 0
LiesAt v lower [] i = ⊥
LiesAt v lower (l ∷ ls) zero = lies lower (day_of l) v ≡ true
LiesAt v lower (l ∷ ls) (suc i) = LiesAt v (day_of l) ls i

module _ (fl : Floats) (dates : (d : Day) → fl.parse_float (day_text d) ≡ none) where
  module _ (v : Text) (word : fl.parse_float v ≡ none) where
    is_less-text : (d : Day) → is_less fl v (day_text d) ≡ text_lt v (day_text d)
    unfolding compare_values
    is_less-text d = ground (arith, dates d)

    is_within-lies :
        (from to : Option Day) → is_within fl (bound_text from) (bound_text to) v ≡ lies from to v
    is_within-lies none none = refl
    is_within-lies none (some e) = is_less-text e
    is_within-lies (some d) none = ap (λ b. not b && true) (is_less-text d)
    is_within-lies (some d) (some e) = rw (is_less-text d, is_less-text e) refl

    bound_text-IsBound :
        (o : Option Day) → IsBound fl (IsWord fl) (IsWord-IsKind fl) v word (bound_text o)
    bound_text-IsBound none = inl refl
    bound_text-IsBound (some d) = inr (dates d)

    LiesAt-HoldsAt :
        (ps : List Partition) (ls : List Limit) (lower : Option Day) (i : ℕ)
        → IsWritten ps ls
        → LiesAt v lower ls i
        → HoldsAt fl (IsWord fl) (IsWord-IsKind fl) v word (bound_text lower) ps i
    LiesAt-HoldsAt [] [] lower i w h = h
    LiesAt-HoldsAt [] (l ∷ ls) lower i w h = absurd w
    LiesAt-HoldsAt (p ∷ ps) [] lower i w h = absurd w
    LiesAt-HoldsAt (p ∷ ps) (l ∷ ls) lower zero (w, ws) h =
        let e : bound_text (day_of l) ≡ extract_value p.high_value =
          sym (ap extract_value w ∙ extract_value-high_value_of l) in
        subst
          (λ upper.
            IsBound fl (IsWord fl) (IsWord-IsKind fl) v word (bound_text lower)
            × IsBound fl (IsWord fl) (IsWord-IsKind fl) v word upper
            × (is_within fl (bound_text lower) upper v ≡ true))
          e
          (
            bound_text-IsBound lower,
            bound_text-IsBound (day_of l),
            is_within-lies lower (day_of l) ∙ h,
          )
    LiesAt-HoldsAt (p ∷ ps) (l ∷ ls) lower (suc i) (w, ws) h =
        let e : bound_text (day_of l) ≡ extract_value p.high_value =
          sym (ap extract_value w ∙ extract_value-high_value_of l) in
        subst (λ upper. HoldsAt fl (IsWord fl) (IsWord-IsKind fl) v word upper ps i) e
          (LiesAt-HoldsAt ps ls (day_of l) i ws h)

    -- For partitions by a DATE or a TIMESTAMP, whose high values are midnights, or MAXVALUE, as
    -- Oracle writes them: a partition is kept by the pruning to the days from `from`, up to and
    -- without `to` if it is given, if there is a moment that lies both in the partition, from the
    -- limit of the partition before it and before its own, and in the range. That
    -- strconv.ParseFloat reads neither a date nor the moment as a number is assumed.
    pub prune_partitions_by_range_keeps :
        (parts : List Partition) (limits : List Limit) (from : Day) (to : Option Day) (i : ℕ)
        → IsWritten parts limits
        → lies (some from) to v ≡ true
        → LiesAt v none limits i
        → any (λ j. j == i) (prune_partitions_by_range fl parts (day_text from) (bound_text to))
          ≡ true
    prune_partitions_by_range_keeps parts limits from to i written inside held =
        let norm_from = normalize_value-bound_text (some from) in
        let norm_to = normalize_value-bound_text to in
        prune_partitions_by_range_extracted fl (IsWord fl) (IsWord-IsKind fl) v word (day_text from)
          (bound_text to) parts i (rw norm_from (inr (dates from)))
          (rw norm_to (bound_text-IsBound to))
          (rw (norm_from, norm_to) (is_within-lies (some from) to ∙ inside))
          (LiesAt-HoldsAt parts limits none i written held)
