-- ===== src/Plan/Prune/Keeps.antt =====
-- prunePartitionsByRange of internal/migration/plan.go and the values in a partition.
use native.Mathlib.Nat.{add-suc, suc-add, zero-add}
use existora2pg.Schema.{Partition}
use mathlib.Core.Bool.{false≢true}
use existora2pg.Plan.HighValue.{normalize_value, extract_value, is_less, compare_values, Floats}
use existora2pg.Prelude.{
  if◌then◌else◌, ◌+◌, zero, ◌==◌, suc, any, &&-eq_true, List, ℕ, ◌&&◌, ◌∙◌, refl, not, inr, sym,
  ◌∷◌, ◌||◌, inl, ◌⊎◌, is_nil, some, [], false, arith, Bool, none, true, Text, ◌≡◌, text_lt,
}
use existora2pg.Plan.Prune.{prune_partitions_by_range, partition_overlaps, prune_from}

text_lt_cotrans : (a b c : Text) → text_lt a c ≡ true → (text_lt a b ≡ true) ⊎ (text_lt b c ≡ true)
unfolding text_lt
text_lt_cotrans [] [] [] h = inl h
text_lt_cotrans [] [] (z ∷ c) h = inr refl
text_lt_cotrans [] (y ∷ b) c h = inl refl
text_lt_cotrans (x ∷ a) b [] h = cc
text_lt_cotrans (x ∷ a) [] (z ∷ c) h = inr refl
text_lt_cotrans (x ∷ a) (y ∷ b) (z ∷ c) h = ground (arith, text_lt_cotrans a b c)

any_kept :
    (p : ℕ → Bool) (b : Bool) (n : ℕ) (rest : List ℕ)
    → any p rest ≡ true
    → any p (if b then n ∷ rest else rest) ≡ true
any_kept p b n rest h = ground arith

module _ (fl : Floats) where
  -- What is documented of `<` on float64: NaN apart, a weak order.
  pub record IsWeakOrder : Type 0 where
    pub cotrans :
        (a b c : fl.Num)
        → fl.is_nan b ≡ false
        → fl.less a c ≡ true
        → (fl.less a b ≡ true) ⊎ (fl.less b c ≡ true)
    pub asym : (a b : fl.Num) → fl.less a b ≡ true → fl.less b a ≡ false

  -- A text that reads as a number, and one that does not.
  abbrev pub IsNumber : Text → Type 0
  IsNumber v = (x : fl.Num) × (fl.parse_float v ≡ some x) × (fl.is_nan x ≡ false)

  abbrev pub IsWord : Text → Type 0
  IsWord v = fl.parse_float v ≡ none

  -- Values of one kind, with which the comparisons agree.
  abbrev pub IsKind : (Text → Type 0) → Type 0
  IsKind K =
      (a b c : Text)
      → K a
      → K b
      → K c
      → is_less fl a c ≡ true
      → (is_less fl a b ≡ true) ⊎ (is_less fl b c ≡ true)

  pub IsNumber-IsKind : IsWeakOrder → IsKind IsNumber
  unfolding compare_values
  IsNumber-IsKind w a b c (x, p, n) (y, q, m) (z, r, k) h = ground (arith, w.cotrans x y z m)

  pub IsWord-IsKind : IsKind IsWord
  unfolding compare_values
  IsWord-IsKind a b c p q r h = ground (arith, text_lt_cotrans a b c)

  -- Whether a value lies in [low, high), an empty bound being open.
  abbrev pub is_within : Text → Text → Text → Bool
  is_within low high v =
      (is_nil low || not (is_less fl v low)) && (is_nil high || is_less fl v high)

  module _ (K : Text → Type 0) (kind : IsKind K) (v : Text) (v_kind : K v) where
    -- A bound is open, or of the kind of the value.
    abbrev pub IsBound : Text → Type 0
    IsBound b = (b ≡ []) ⊎ K b

    edge :
        (low high : Text)
        → K low
        → K high
        → is_less fl v low ≡ false
        → is_less fl v high ≡ true
        → is_less fl low high ≡ true
    edge low high p q above below = elim (kind v low high v_kind p q below) [
      | inl x ↦ absurd (false≢true (sym above ∙ x))
      | inr x ↦ x
    ]

    edge_open :
        (low high : Text)
        → IsBound low
        → IsBound high
        → is_nil low || not (is_less fl v low) ≡ true
        → is_nil high || is_less fl v high ≡ true
        → not (is_nil low) && (not (is_nil high) && not (is_less fl low high)) ≡ false
    edge_open low high (inl e) b p q = rw e
    edge_open low high (inr k) (inl e) p q = rw e (ground arith)
    edge_open low high (inr k) (inr l) p q = ground (arith, edge low high k l)

    overlaps_of_within :
        (low high from to : Text)
        → IsBound low
        → IsBound high
        → IsBound from
        → IsBound to
        → is_within low high v ≡ true
        → is_within from to v ≡ true
        → partition_overlaps fl low high from to ≡ true
    unfolding partition_overlaps
    overlaps_of_within low high from to a b c d p q =
        let (p_low, p_high) = &&-eq_true _ _ p in
        let (q_low, q_high) = &&-eq_true _ _ q in
        rw (edge_open low to a d p_low q_high, edge_open from high c b q_low p_high)

    -- The partition at a place in the list holds the value, and the bounds before it are of its
    -- kind.
    abbrev pub HoldsAt : Text → List Partition → ℕ → Type 0
    HoldsAt lower [] i = ⊥
    HoldsAt lower (p ∷ ps) zero =
        IsBound lower
        × IsBound (extract_value p.high_value)
        × (is_within lower (extract_value p.high_value) v ≡ true)
    HoldsAt lower (p ∷ ps) (suc i) = HoldsAt (extract_value p.high_value) ps i

    prune_from_keeps :
        (from to lower : Text) (n i : ℕ) (ps : List Partition)
        → IsBound from
        → IsBound to
        → is_within from to v ≡ true
        → HoldsAt lower ps i
        → any (λ j. j == n + i) (prune_from fl from to lower n ps) ≡ true
    unfolding prune_from
    prune_from_keeps from to lower n i [] c d q h = absurd h
    prune_from_keeps from to lower n zero (p ∷ ps) c d q (a, b, w) =
        rw (overlaps_of_within lower (extract_value p.high_value) from to a b c d w q)
          (ground arith)
    prune_from_keeps from to lower n (suc i) (p ∷ ps) c d q h =
        let upper = extract_value p.high_value in
        let rest = rw suc-add at (prune_from_keeps from to upper (suc n) i ps c d q h) in
        rw add-suc
          (any_kept (λ j. j == suc (n + i)) (partition_overlaps fl lower upper from to) n _ rest)

    -- By the bounds that extractValue finds: a partition is kept if a value lies both in it and in
    -- the range, all the bounds that are given being of one kind.
    pub prune_partitions_by_range_extracted :
        (from to : Text) (parts : List Partition) (i : ℕ)
        → IsBound (normalize_value from)
        → IsBound (normalize_value to)
        → is_within (normalize_value from) (normalize_value to) v ≡ true
        → HoldsAt [] parts i
        → any (λ j. j == i) (prune_partitions_by_range fl parts from to) ≡ true
    unfolding prune_partitions_by_range
    prune_partitions_by_range_extracted from to parts i c d q h =
        rw zero-add at
          (prune_from_keeps (normalize_value from) (normalize_value to) [] 0 i parts c d q h)
