-- ===== src/Engine/Pipeline/Once.antt =====
-- The attempts to copy a task in internal/migration/engine.go, and the state of the target on which
-- each of them starts.
use existora2pg.Chunker.{RowIdChunk}
use existora2pg.Config.{MigrationConfig}
use existora2pg.Engine.Pipeline.{
  Target, Copied, done, broken, prepare, clean_up, again, attempts, finished, process_task,
  empty_target, max_retries,
}
use existora2pg.JobStore.{Store, set_running, set_completed}
use existora2pg.Plan.{TableTask}
use existora2pg.Plan.Build.{setting_or}
use existora2pg.Prelude.{
  ◌⊎◌, ℕ, zero, suc, Bool, Text, none, some, Option, ◌≡◌, refl, sym, ap, inl, inr, ◌∙◌,
  if◌then◌else◌, is_some,
}

module _ {Pg : Type 0} (target : Target Pg) (task : TableTask) (batch : ℕ) where
  -- What an attempt starts on: the target as it was at first, or, for a task that is not a chunk,
  -- what the truncation leaves of the target of an attempt that failed.
  pub data IsStart (first : Pg) : Pg → Type 0 where
    at_first : IsStart first first
    truncated :
        {before : Pg} (q : Pg) (e : Text)
        → IsStart first before
        → task.chunk ≡ none
        → target.copy task batch before ≡ (q, broken e)
        → IsStart first (empty_target target task task.partition q)

  -- The last attempt, which ended well.
  pub record IsLast (first after : Pg) (n bytes : ℕ) : Type 0 where
    pub start : Pg
    pub is_start : IsStart first start
    pub copied : target.copy task batch start ≡ (after, done n bytes)

  Copied-cases :
      (r : Pg × Copied)
      → ((mid : Pg) × (m : ℕ) × (b : ℕ) × (r ≡ (mid, done m b)))
        ⊎ ((mid : Pg) × (msg : Text) × (r ≡ (mid, broken msg)))
  Copied-cases (mid, done m b) = inl (mid, m, b, refl)
  Copied-cases (mid, broken msg) = inr (mid, msg, refl)

  again-done :
      (rest : Pg → Pg × Copied) (r : Pg × Copied) (mid : Pg) (m b : ℕ)
      → r ≡ (mid, done m b)
      → again target task rest r ≡ r
  unfolding again
  again-done rest (pg, done n c) mid m b e = refl
  again-done rest (pg, broken msg) mid m b e = absurd (cc e)

  again-broken :
      (rest : Pg → Pg × Copied) (r : Pg × Copied) (mid : Pg) (msg : Text)
      → r ≡ (mid, broken msg)
      → again target task rest r ≡ rest (clean_up target task mid)
  unfolding again
  again-broken rest (pg, done n c) mid msg e = absurd (cc e)
  again-broken rest (pg, broken other) mid msg e = ap (λ q. rest (clean_up target task q.0)) e

  clean_up-whole :
      (pg : Pg)
      → task.chunk ≡ none
      → clean_up target task pg ≡ empty_target target task task.partition pg
  unfolding clean_up
  clean_up-whole pg whole =
      ap (λ o. if is_some o then pg else empty_target target task task.partition pg) whole

  attempts-IsLast :
      (retries n bytes : ℕ) (first pg after : Pg)
      → (retries ≡ 0) ⊎ (task.chunk ≡ none)
      → IsStart first pg
      → attempts target task batch retries pg ≡ (after, done n bytes)
      → IsLast first after n bytes
  unfolding attempts
  attempts-IsLast zero n bytes first pg after h start e = record {
    start = pg;
    is_start = start;
    copied = e;
  }
  attempts-IsLast (suc k) n bytes first pg after (inl h) start e = absurd (cc h)
  attempts-IsLast (suc k) n bytes first pg after (inr whole) start e =
      let rest = attempts target task batch k in
      elim (Copied-cases (target.copy task batch pg)) [
        | inl (mid, m, b, c) ↦ record {
          start = pg;
          is_start = start;
          copied = sym (again-done rest (target.copy task batch pg) mid m b c) ∙ e;
        }
        | inr (mid, msg, c) ↦
            attempts-IsLast k n bytes first (empty_target target task task.partition mid) after
              (inr whole) (truncated mid msg start whole c)
              (ap rest (sym (clean_up-whole mid whole))
                ∙ sym (again-broken rest (target.copy task batch pg) mid msg c)
                ∙ e)
      ]

  whole_or_once : (o : Option RowIdChunk) → (max_retries o ≡ 0) ⊎ (o ≡ none)
  whole_or_once none = inr refl
  whole_or_once (some c) = inl refl

-- Where the function of a task returns without an error, one copy of its rows has ended well, no
-- other copy came behind it, and the job is COMPLETED with the counts that it returned. The copy
-- was the first one, on the target as the cleanup of the job left it, or, for a task that is not a
-- chunk, it came directly behind a truncation of the table or of the partition, which came directly
-- behind a copy that failed. What a truncation does, or whether it does anything, is not assumed.
pub process_task_once :
    {Pg : Type 0} (target : Target Pg) (task : TableTask) (cfg : MigrationConfig) (now id : ℕ)
    (retry : Bool) (s t : Store) (pg after : Pg)
    → process_task target cfg now id retry task s pg ≡ (t, after, none)
    → (n : ℕ) × (bytes : ℕ) × IsLast target task
        (setting_or task.batch_size cfg.batch_size)
        (prepare target retry task pg)
        after
        n
        bytes
      × (t ≡ set_completed now id n bytes (set_running now id s))
unfolding process_task finished
process_task_once target task cfg now id retry s t pg after e =
    let batch = setting_or task.batch_size cfg.batch_size in
    let ready = prepare target retry task pg in
    elim (Copied-cases target task batch
      (attempts target task batch (max_retries task.chunk) ready)) [
        | inl (mid, n, bytes, c) ↦
            let same : set_completed now id n bytes (set_running now id s) ≡ t =
              cc (rw (c, finished) at e) in
            let there : mid ≡ after = cc (rw (c, finished) at e) in
            (
              n,
              bytes,
              attempts-IsLast target task batch (max_retries task.chunk) n bytes ready ready after
                  (whole_or_once target task batch task.chunk) at_first (rw there at c),
              sym same,
            )
        | inr (mid, msg, c) ↦ absurd (cc (rw (c, finished) at e))
      ]
