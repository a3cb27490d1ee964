-- ===== src/Plan/Count.antt =====
-- partitionChunkCount of internal/migration/plan.go. Its products are computed in int64.
use native.Mathlib.Decide.{dec_lt}
use native.Mathlib.Nat.{le_trans, mul-le-mul_right}
use existora2pg.Prelude.{
  ℕ, ◌-◌, ◌*◌, ◌/◌, ◌%◌, ◌^◌, ◌≤◌, ◌<◌, ◌≡◌, ◌⊎◌, inl, inr, Bool, false, arith, ltb, leb, ◌==◌,
  if◌then◌else◌,
}
use existora2pg.Prelude.Int.{ℤ, pos, negsuc}

-- The int64 that a natural number wraps to.
wrap64 : ℕ → ℤ
wrap64 x = let r = x % 2 ^ 64 in if ltb r (2 ^ 63) then pos r else negsuc (2 ^ 64 - r - 1)

-- `numRows <= threshold` for a row count, which is not negative
abbrev le_int : ℕ → ℤ → Bool
le_int n (pos m) = leb n m
le_int n (negsuc m) = false

-- `if maxChunks < 8 { maxChunks = 8 }`
abbrev at_least_eight : ℤ → ℕ
at_least_eight (pos m) = if ltb m 8 then 8 else m
at_least_eight (negsuc m) = 8

-- `workers * 4`, at least 8
unfoldable pub max_chunks : ℕ → ℕ
unfolding wrap64
max_chunks workers = at_least_eight (wrap64 (workers * 4))

-- The quotient, capped and at least 2.
abbrev pub capped : ℕ → ℕ → ℕ
capped chunks top = let c = if ltb top chunks then top else chunks in if ltb c 2 then 2 else c

abbrev pub batch_or_default : ℕ → ℕ
batch_or_default batch_size = if batch_size == 0 then 50_000 else batch_size

unfoldable pub partition_chunk_count : ℕ → ℕ → ℕ → ℕ
unfolding wrap64
partition_chunk_count num_rows batch_size workers =
    let b = batch_or_default batch_size in
    if le_int num_rows (wrap64 (b * 10)) then 1 else capped (num_rows / b) (max_chunks workers)

wrap64-small : (x : ℕ) → x < 2 ^ 63 → wrap64 x ≡ pos x
unfolding wrap64
wrap64-small x h = ground arith

max_chunks_bounds :
    (w : ℕ) → w < 2 ^ 61 → (8 ≤ max_chunks w) × ((max_chunks w ≡ 8) ⊎ (max_chunks w ≡ w * 4))
unfolding max_chunks
max_chunks_bounds w h = ground (arith, wrap64-small (w * 4))

batch_pos : (b : ℕ) → 1 ≤ batch_or_default b
batch_pos b = ground arith

div_ge_ten : (n b : ℕ) → 1 ≤ b → b * 10 < n → 10 ≤ n / b
div_ge_ten n b h k = grind arith

div-mul-le : (n b : ℕ) → (n / b) * b ≤ n
div-mul-le n b = grind arith

capped_bounds :
    (c top : ℕ) → 8 ≤ top → 2 ≤ c → (2 ≤ capped c top) × (capped c top ≤ top) × (capped c top ≤ c)
capped_bounds c top h k = ground arith

count_small :
    (rows batch workers : ℕ)
    → batch_or_default batch * 10 < 2 ^ 63
    → rows ≤ batch_or_default batch * 10
    → partition_chunk_count rows batch workers ≡ 1
unfolding partition_chunk_count
count_small rows batch workers h k =
    rw (wrap64-small (batch_or_default batch * 10) h) (ground arith)

count_large :
    (rows batch workers : ℕ)
    → batch_or_default batch * 10 < 2 ^ 63
    → batch_or_default batch * 10 < rows
    → partition_chunk_count rows batch workers
      ≡ capped (rows / batch_or_default batch) (max_chunks workers)
unfolding partition_chunk_count
count_large rows batch workers h k =
    rw (wrap64-small (batch_or_default batch * 10) h) (ground arith)

large_bounds :
    (rows b workers : ℕ)
    → 1 ≤ b
    → b * 10 < rows
    → workers < 2 ^ 61
    → let n = capped (rows / b) (max_chunks workers) in
      (2 ≤ n) × ((n ≤ 8) ⊎ (n ≤ workers * 4)) × (n * b ≤ rows)
large_bounds rows b workers p q w =
    let n = capped (rows / b) (max_chunks workers) in
    let (low, top) = max_chunks_bounds workers w in
    let ten = div_ge_ten rows b p q in
    let (two, at_top, at_quotient) =
      capped_bounds (rows / b) (max_chunks workers) low (omega arith) in
    (two, omega arith, le_trans (mul-le-mul_right b at_quotient) (div-mul-le rows b))

-- The number of chunks, for a batch size and a number of workers with which no product overflows:
-- 1 for at most ten batches of rows; otherwise at least 2, at most 8 or four times the number of
-- workers, and so few that a chunk has on average at least a batch of rows.
pub partition_chunk_count_bounds :
    (rows batch workers : ℕ)
    → batch_or_default batch * 10 < 2 ^ 63
    → workers < 2 ^ 61
    → let n = partition_chunk_count rows batch workers in
      let b = batch_or_default batch in
      (rows ≤ b * 10) × (n ≡ 1)
      ⊎ (b * 10 < rows) × (2 ≤ n) × ((n ≤ 8) ⊎ (n ≤ workers * 4)) × (n * b ≤ rows)
partition_chunk_count_bounds rows batch workers h w =
    let b = batch_or_default batch in
    elim (dec_lt (b * 10) rows) [
      | yes large ↦
          let e = count_large rows batch workers h large in
          let (two, top, share) = large_bounds rows b workers (batch_pos batch) large w in
          inr (large, rw e two, rw e top, rw e share)
      | no small ↦ inl (omega arith, count_small rows batch workers h (omega arith))
    ]
