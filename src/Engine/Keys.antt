-- ===== src/Engine/Keys.antt =====
-- The keys of jobs and tasks in internal/migration/engine.go.
use existora2pg.Chunker.{RowIdChunk}
use existora2pg.Engine.{
  job_partition_key, task_key, job_key, chunk_name, name_or_empty, add_chunk, add_partition_key,
  add_chunk_key,
}
use existora2pg.Plan.{TableTask}
use existora2pg.Prelude.{
  ◌≡◌, refl, sym, Option, none, some, Text, [], ◌∷◌, ◌++◌, is_nil, false, append_assoc, codes, ℕ,
}
use existora2pg.Prelude.Decimal.{show-injective}
use existora2pg.Schema.{Partition}

-- A partition, if there is one, has a name.
abbrev pub IsNamed : Option Partition → Type 0
IsNamed none = Unit
IsNamed (some p) = is_nil p.name ≡ false

is_nil-append : (s t : Text) → is_nil s ≡ false → is_nil (s ++ t) ≡ false
is_nil-append [] t h = absurd (cc h)
is_nil-append (c ∷ s) t h = refl

job_key-parts :
    (table : Text) (part : Option Partition) (chunk : Option RowIdChunk)
    → IsNamed part
    → job_key table (add_chunk (name_or_empty part) chunk)
      ≡ add_chunk_key (add_partition_key table part) chunk
unfolding job_key chunk_name add_chunk add_chunk_key
job_key-parts table none none h = refl
job_key-parts table none (some c) h = refl
job_key-parts table (some p) none h = rw h refl
job_key-parts table (some p) (some c) h =
    rw (h, is_nil-append p.name (b':' ∷ chunk_name c.id) h)
      (sym (append_assoc table (b':' ∷ p.name) (b':' ∷ chunk_name c.id)))

-- Under the key that executeDataMigration forms from a job stands the task that the job was made
-- of.
pub job_key-job_partition_key :
    (task : TableTask)
    → IsNamed task.partition
    → job_key task.table.name (job_partition_key task) ≡ task_key task
unfolding job_partition_key task_key
job_key-job_partition_key task h = job_key-parts task.table.name task.partition task.chunk h

append-cancel : (s t u : Text) → s ++ t ≡ s ++ u → t ≡ u
append-cancel [] t u e = e
append-cancel (c ∷ s) t u e = append-cancel s t u (cc e)

chunk_name-injective : (m n : ℕ) → chunk_name m ≡ chunk_name n → m ≡ n
unfolding chunk_name
chunk_name-injective m n e = show-injective m n (append-cancel (codes "chunk:") _ _ e)

-- Two chunks of a table, or of a partition, have different keys unless they have the same number.
pub job_partition_key-injective :
    (t u : TableTask) (part : Option Partition) (c d : RowIdChunk)
    → IsNamed part
    → t.partition ≡ part
    → u.partition ≡ part
    → t.chunk ≡ some c
    → u.chunk ≡ some d
    → job_partition_key t ≡ job_partition_key u
    → c.id ≡ d.id
unfolding job_partition_key add_chunk
job_partition_key-injective t u none c d h tp up tc uc e =
    chunk_name-injective c.id d.id (rw (tp, up, tc, uc) at e)
job_partition_key-injective t u (some p) c d h tp up tc uc e =
    chunk_name-injective c.id d.id
      (append-cancel (b':' ∷ []) _ _ (append-cancel p.name _ _ (rw (tp, up, tc, uc, h) at e)))
