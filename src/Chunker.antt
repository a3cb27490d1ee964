-- ===== src/Chunker.antt =====
-- internal/oracle/chunker.go: ROWID and ORA_HASH chunks of a table.
-- The DBMS_PARALLEL_EXECUTE session is an argument, `none` where it fails.
pub mod Buckets
use existora2pg.Prelude.{
  ℕ, zero, suc, ◌+◌, ◌-◌, Bool, true, false, not, ◌&&◌, Option, none, some, List, [], ◌∷◌, ◌++◌,
  map, Text, codes, leb, is_nil, if◌then◌else◌, range,
}
use existora2pg.Prelude.Decimal
use existora2pg.Prelude.Groups.{group_by}

pub record RowIdChunk : Type 0 where
  pub id : ℕ
  pub start_rid : Text
  pub end_rid : Text
  pub partition_name : Text

-- A chunk of the ORA_HASH mode: the ROWIDs are empty.
abbrev pub hash_chunk : ℕ → RowIdChunk
hash_chunk i = record { id = i; start_rid = []; end_rid = []; partition_name = [] }

-- chunksViaOraHash
unfoldable pub chunks_via_ora_hash : ℕ → List RowIdChunk
chunks_via_ora_hash num_chunks = map hash_chunk (range 0 num_chunks)

-- `totalChunks-1`, printed
unfoldable pub show_pred : ℕ → Text
show_pred zero = codes "-1"
show_pred (suc n) = Decimal.show n

unfoldable pub ora_hash_filter : ℕ → ℕ → Text
ora_hash_filter total id =
    codes "ORA_HASH(ROWID, " ++ (show_pred total ++ (codes ") = " ++ Decimal.show id))

-- `filter + " AND (" + existingWhere + ")"`, or the filter alone
unfoldable pub and_where : Text → Text → Text
and_where filter existing =
    if is_nil existing then filter else filter ++ (codes " AND (" ++ (existing ++ codes ")"))

-- Whether a chunk is a true ROWID range.
abbrev pub is_range : RowIdChunk → Bool
is_range chunk = not (is_nil chunk.start_rid) && not (is_nil chunk.end_rid)

-- BuildChunkWhereClause
unfoldable pub build_chunk_where_clause : RowIdChunk → ℕ → Text → Text
build_chunk_where_clause chunk total existing =
    and_where
      (if is_range chunk
        then codes "ROWID BETWEEN '"
          ++ (chunk.start_rid ++ (codes "' AND '" ++ (chunk.end_rid ++ codes "'")))
        else ora_hash_filter total chunk.id)
      existing

-- DBMS_PARALLEL_EXECUTE on the schema, the table and the number of chunks.
abbrev pub Session : Type 0
Session = Text → Text → ℕ → Option (List RowIdChunk)

abbrev or_ora_hash : ℕ → Option (List RowIdChunk) → List RowIdChunk
or_ora_hash num_chunks none = chunks_via_ora_hash num_chunks
or_ora_hash num_chunks (some chunks) = chunks

-- ComputeChunks; it never returns an error.
unfoldable pub compute_chunks : Session → Text → Text → ℕ → List RowIdChunk
compute_chunks session owner table num_chunks =
    if leb num_chunks 1 then [] else or_ora_hash num_chunks (session owner table num_chunks)

-- `result[ch.PartitionName] = append(result[ch.PartitionName], ch)` for each chunk
unfoldable pub group_chunks : List RowIdChunk → List (Text × List RowIdChunk)
group_chunks = group_by (λ ch. ch.partition_name) []

abbrev grouped : Option (List RowIdChunk) → Option (List (Text × List RowIdChunk))
grouped none = none
grouped (some chunks) = some (group_chunks chunks)

-- ComputePartitionedChunks; `none` is the error.
unfoldable pub compute_partitioned_chunks :
    Session → Text → Text → ℕ → Option (List (Text × List RowIdChunk))
compute_partitioned_chunks session owner table num_chunks =
    if leb num_chunks 1 then some [] else grouped (session owner table num_chunks)
