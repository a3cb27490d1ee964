-- ===== src/Api/Partitions.antt =====
-- The partition keys of chunks in pkg/api/handlers.go, and those that internal/migration/engine.go
-- forms.
use existora2pg.Chunker.{RowIdChunk}
use existora2pg.Engine.{job_partition_key, add_chunk, chunk_name, name_or_empty}
use existora2pg.Plan.{TableTask}
use existora2pg.Prelude.Decimal.{show}
use existora2pg.Prelude.Search.{
  HasNo, HasNo-tail, index_of-append, index_of-none, contains-append, contains-none,
  has_prefix-none,
}
use existora2pg.Prelude.{
  sym, append_assoc, take_left, is_some, length, ℕ, zero, suc, ◌≡◌, refl, ap, ◌∙◌, Bool, Text,
  codes, [], ◌∷◌, ◌++◌, Option, none, some, if◌then◌else◌, contains, has_prefix, index_of,
  drop_last_if, take, arith,
}

-- isChunkPartition
unfoldable pub is_chunk_partition : Text → Bool
unfolding contains
is_chunk_partition partition = contains partition (codes "chunk:")

abbrev pub cut_at : Text → Option ℕ → Text
unfolding has_prefix
cut_at p (some (suc n)) = drop_last_if (b':') (take (suc n) p)
cut_at p (some zero) = if has_prefix p (codes "chunk:") then [] else p
cut_at p none = if has_prefix p (codes "chunk:") then [] else p

-- stripChunkSuffix
unfoldable pub strip_chunk_suffix : Text → Text
unfolding index_of cut_at
strip_chunk_suffix p = cut_at p (index_of p (codes "chunk:"))

-- No byte of the name is a lower-case c, as in the upper-case names of Oracle.
abbrev pub HasNoC : Text → Type 0
HasNoC = HasNo (b'c')

HasNoC-colon : (s : Text) → HasNoC s → HasNoC (s ++ b':' ∷ [])
HasNoC-colon [] h = refl
HasNoC-colon (c ∷ s) h = ground (arith, HasNoC-colon s (HasNo-tail (b'c') c s h))

cut_colon :
    (s t : Text) → drop_last_if (b':') (take (length (s ++ b':' ∷ [])) ((s ++ b':' ∷ []) ++ t)) ≡ s
cut_colon s t = rw (take_left (s ++ b':' ∷ []) t) (drop_colon s)
  where
    drop_colon : (s : Text) → drop_last_if (b':') (s ++ b':' ∷ []) ≡ s
    drop_colon [] = refl
    drop_colon (c ∷ []) = refl
    drop_colon (c ∷ d ∷ s) = ap (λ r. c ∷ r) (drop_colon (d ∷ s))

stripped :
    (b : ℕ) (name t : Text)
    → HasNoC (b ∷ name)
    → strip_chunk_suffix (((b ∷ name) ++ b':' ∷ []) ++ (codes "chunk:" ++ t)) ≡ b ∷ name
unfolding strip_chunk_suffix
stripped b name t h =
    rw
      (index_of-append (b'c') (codes "hunk:") ((b ∷ name) ++ b':' ∷ []) t
        (HasNoC-colon (b ∷ name) h))
      (cut_colon (b ∷ name) (codes "chunk:" ++ t))

keyed :
    (name : Text) (chunk : Option RowIdChunk)
    → HasNoC name
    → (strip_chunk_suffix (add_chunk name chunk) ≡ name)
      × (is_chunk_partition (add_chunk name chunk) ≡ is_some chunk)
unfolding strip_chunk_suffix is_chunk_partition add_chunk chunk_name
keyed name none h = (
  rw (index_of-none (b'c') (codes "hunk:") name h, has_prefix-none (b'c') (codes "hunk:") name h)
      refl,
  contains-none (b'c') (codes "hunk:") name h,
)
keyed [] (some c) h = (refl, refl)
keyed (b ∷ name) (some c) h =
    let joined = append_assoc (b ∷ name) (b':' ∷ []) (codes "chunk:" ++ show c.id) in
    (
      ap strip_chunk_suffix (sym joined) ∙ stripped b name (show c.id) h,
      ap is_chunk_partition (sym joined)
          ∙ contains-append (b'c') (codes "hunk:") ((b ∷ name) ++ b':' ∷ []) (show c.id),
    )

-- Read back from the key that the engine gives to a job, the partition is the one of its task, and
-- the key is that of a chunk exactly if the task is a chunk, where the partition's name has no
-- lower-case c, as the upper-case names of Oracle have none.
pub strip_chunk_suffix-job_partition_key :
    (task : TableTask)
    → HasNoC (name_or_empty task.partition)
    → (strip_chunk_suffix (job_partition_key task) ≡ name_or_empty task.partition)
      × (is_chunk_partition (job_partition_key task) ≡ is_some task.chunk)
unfolding job_partition_key
strip_chunk_suffix-job_partition_key task h = keyed (name_or_empty task.partition) task.chunk h
