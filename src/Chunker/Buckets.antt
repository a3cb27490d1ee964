-- ===== src/Chunker/Buckets.antt =====
-- The rows that the chunks of internal/oracle/chunker.go read.
use existora2pg.Prelude.{
  length, lt→leb, length-map, length-range, some, none, not, ◌&&◌, text_lt, ℕ, zero, suc, ◌+◌, ◌-◌,
  ◌≤◌, ◌<◌, ◌≡◌, refl, ◌∙◌, Bool, List, [], map, Text, arith, ◌==◌, text_eq, if◌then◌else◌,
  count_if, range, select,
}
use existora2pg.Prelude.Dict.{lookup}
use existora2pg.Prelude.Groups.{list_or_nil, lookup-group_by}
use existora2pg.Chunker.{
  RowIdChunk, hash_chunk, is_range, chunks_via_ora_hash, group_chunks, Session, compute_chunks,
  compute_partitioned_chunks,
}

-- The row that Oracle tests: its ROWID, and what ORA_HASH(ROWID, m) gives for each m.
pub record Row : Type 0 where
  pub rid : Text
  pub ora_hash : ℕ → ℕ
  pub ora_hash-le : (m : ℕ) → ora_hash m ≤ m  -- documented: the buckets are 0 to m

-- Whether a row satisfies the filter of a chunk among `total`.
abbrev pub reads : Row → ℕ → RowIdChunk → Bool
reads row total chunk =
    if is_range chunk
    then not (text_lt row.rid chunk.start_rid) && not (text_lt chunk.end_rid row.rid)
    else row.ora_hash (total - 1) == chunk.id

count_if-before :
    (row : Row) (t n k : ℕ)
    → row.ora_hash (t - 1) < n
    → count_if (reads row t) (map hash_chunk (range n k)) ≡ 0
count_if-before row t n zero p = refl
count_if-before row t n (suc k) p = ground (arith, count_if-before row t (suc n) k)

pub count_if-range :
    (row : Row) (t n k : ℕ)
    → n ≤ row.ora_hash (t - 1)
    → row.ora_hash (t - 1) < n + k
    → count_if (reads row t) (map hash_chunk (range n k)) ≡ 1
count_if-range row t n zero p q = absurd (omega arith)
count_if-range row t n (suc k) p q =
    ground (arith, count_if-before row t (suc n) k, count_if-range row t (suc n) k)

-- Of the ORA_HASH chunks of a table each row is read by exactly one.
pub chunks_via_ora_hash_exactly_one :
    (row : Row) (n : ℕ) → 1 ≤ n → count_if (reads row n) (chunks_via_ora_hash n) ≡ 1
unfolding chunks_via_ora_hash
chunks_via_ora_hash_exactly_one row n h =
    count_if-range row n 0 n (omega arith) (omega (arith, row.ora_hash-le (n - 1)))

-- The chunks of one partition, in order.
abbrev pub chunks_of : Text → List RowIdChunk → List RowIdChunk
chunks_of p = select (λ c. text_eq c.partition_name p)

-- Grouping neither loses nor mixes chunks: where the session answers, under a partition's name
-- stand exactly the chunks that carry that name, in the order of the answer.
pub compute_partitioned_chunks_lem :
    (session : Session) (owner table p : Text) (n : ℕ) (chunks : List RowIdChunk)
    → 2 ≤ n
    → session owner table n ≡ some chunks
    → (groups : List (Text × List RowIdChunk)) × (compute_partitioned_chunks session owner table n
        ≡ some groups)
      × (list_or_nil (lookup p groups) ≡ chunks_of p chunks)
unfolding compute_partitioned_chunks group_chunks lookup
compute_partitioned_chunks_lem session owner table p n chunks many answered = (
  group_chunks chunks,
  rw (answered, lt→leb 1 n many),
  lookup-group_by (λ ch. ch.partition_name) p [] chunks,
)

length-chunks : (n : ℕ) → length (chunks_via_ora_hash n) ≡ n
unfolding chunks_via_ora_hash
length-chunks n = length-map hash_chunk (range 0 n) ∙ length-range 0 n

-- Where the session fails, a table that is to be split into `n` chunks has `n` of them, and
-- each row is read by exactly one.
pub compute_chunks_fallback :
    (session : Session) (owner table : Text) (n : ℕ) (row : Row)
    → 2 ≤ n
    → session owner table n ≡ none
    → (length (compute_chunks session owner table n) ≡ n)
      × (count_if (reads row n) (compute_chunks session owner table n) ≡ 1)
unfolding compute_chunks
compute_chunks_fallback session owner table n row many failed =
    rw (failed, lt→leb 1 n many)
      (length-chunks n, chunks_via_ora_hash_exactly_one row n (omega arith))
