-- ===== src/Engine/Jobs/Valid.antt =====
-- initJobs of internal/migration/engine.go keeps the tables of the job store valid.
use existora2pg.Engine.Jobs.{JobSpec, create_all, skip_if}
use existora2pg.JobStore.{Store, create_job}
use existora2pg.JobStore.Valid.{IsValid, Step-IsValid, creates_job, skips}
use existora2pg.Prelude.{
  subst, ℕ, ◌≡◌, Text, List, [], ◌∷◌, Option, none, some, Option-cases, inl, inr,
}

skip_if-IsValid : (now id : ℕ) (o : Option ℕ) (s : Store) → IsValid s → IsValid (skip_if now id o s)
unfolding skip_if
skip_if-IsValid now id none s v = v
skip_if-IsValid now id (some rows) s v = Step-IsValid s _ (skips now id rows) v

-- initJobs
pub create_all-IsValid :
    (now : ℕ) (run : Text) (xs : List JobSpec) (s t : Store)
    → create_all now run xs s ≡ some t
    → IsValid s
    → IsValid t
unfolding create_all
create_all-IsValid now run [] s t e v = let same : s ≡ t = cc e in subst IsValid same v
create_all-IsValid now run (x ∷ xs) s t e v =
    elim (Option-cases (create_job now run x.schema x.table x.partition x.phase x.expected s)) [
      | inl failed ↦ absurd (cc (rw (failed, create_all) at e))
      | inr ((u, id), made) ↦
          create_all-IsValid now run xs (skip_if now id x.skip u) t (rw (made, create_all) at e) (
            skip_if-IsValid now id x.skip u (
              Step-IsValid s u
                (creates_job now run x.schema x.table x.partition x.phase x.expected id made) v))
    ]
