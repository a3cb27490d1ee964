-- ===== src/JobStore/Runs.antt =====
-- Runs of internal/jobstore/store.go: which one is the latest, and what DeleteRun removes.
use existora2pg.JobStore.{
  JobRow, RunRow, Store, create_run, get_latest_run_id, latest_from, latest_of, delete_run,
  get_jobs, query, scan_job,
}
use existora2pg.Prelude.{
  ℕ, ◌≡◌, ◌≤◌, ◌++◌, not, some, Text, map, select, [], ◌∷◌, List, refl, false, arith, text_eq, any,
  text_eq_iff, ap, All, Bool-cases, inl, inr,
}

-- The clock has not been set back since the runs were created.
abbrev pub IsPast : ℕ → List RunRow → Type 0
IsPast now = All (λ r. r.created_at ≤ now)

latest_from-snoc :
    (best r : RunRow) (rs : List RunRow)
    → best.created_at ≤ r.created_at
    → IsPast r.created_at rs
    → latest_from best (rs ++ r ∷ []) ≡ r
latest_from-snoc best r [] h k = ground arith
latest_from-snoc best r (x ∷ rs) h k =
    ground (arith, latest_from-snoc best r rs h k.1, latest_from-snoc x r rs k.0 k.1)

latest_of-snoc :
    (r : RunRow) (rs : List RunRow) → IsPast r.created_at rs → latest_of (rs ++ r ∷ []) ≡ some r.id
latest_of-snoc r [] h = refl
latest_of-snoc r (x ∷ rs) h = ap (λ q. some q.id) (latest_from-snoc x r rs h.0 h.1)

-- A run that was created just now is the latest one.
pub get_latest_run_id-create_run :
    (now : ℕ) (run hash : Text) (s t : Store)
    → create_run now run hash s ≡ some t
    → IsPast now s.runs
    → get_latest_run_id t ≡ some run
unfolding create_run get_latest_run_id
get_latest_run_id-create_run now run hash s t e past =
    elim (Bool-cases (any (λ r. text_eq r.id run) s.runs)) [
      | inl taken ↦ absurd (cc (rw taken at e))
      | inr new ↦
          let r : RunRow = record { id = run; config_hash = hash; created_at = now } in
          let same : s.runs ++ r ∷ [] ≡ t.runs = cc (rw new at e) in
          rw same at (latest_of-snoc r s.runs past)
    ]

select-other :
    (run other : Text) (js : List JobRow)
    → text_eq run other ≡ false
    → select (λ j. text_eq j.run_id other) (select (λ j. not (text_eq j.run_id run)) js)
      ≡ select (λ j. text_eq j.run_id other) js
select-other run other [] h = refl
select-other run other (j ∷ js) h = ground (
  arith,
  text_eq_iff run other,
  text_eq_iff j.run_id run,
  text_eq_iff j.run_id other,
  select-other run other js h,
)

select-none :
    (run : Text) (js : List JobRow)
    → select (λ j. text_eq j.run_id run) (select (λ j. not (text_eq j.run_id run)) js) ≡ []
select-none run [] = refl
select-none run (j ∷ js) = ground (arith, select-none run js)

any-none :
    (run : Text) (rs : List RunRow)
    → any (λ r. text_eq r.id run) (select (λ r. not (text_eq r.id run)) rs) ≡ false
any-none run [] = refl
any-none run (r ∷ rs) = ground (arith, any-none run rs)

-- After a run is deleted it has no jobs, its id can be used again, and the jobs of any other run
-- are those that it had.
pub delete_run_lem :
    (run other : Text) (s : Store)
    → text_eq run other ≡ false
    → (get_jobs run [] (delete_run run s) ≡ [])
      × (any (λ r. text_eq r.id run) (delete_run run s).runs ≡ false)
      × (get_jobs other [] (delete_run run s) ≡ get_jobs other [] s)
unfolding delete_run get_jobs query
delete_run_lem run other s h = (
  ap (map scan_job) (select-none run s.jobs),
  any-none run s.runs,
  ap (map scan_job) (select-other run other s.jobs h),
)
