-- ===== src/JobStore/Retry.antt =====
-- MarkFailedAsRetrying of internal/jobstore/store.go: what a resumed run finds to do.
use existora2pg.JobStore.{
  JobRow, Store, scan_job, in_phase, is_completed, is_skipped, is_interrupted, is_waiting,
  retry_row, mark_failed_as_retrying, get_pending_jobs, get_jobs, query, update_where,
}
use existora2pg.Prelude.{
  ℕ, ◌≡◌, ◌&&◌, ◌||◌, not, Text, map, select, [], ◌∷◌, List, Bool, refl, if◌then◌else◌, false,
  arith, text_eq, count_if, text_eq_iff, ap,
}

-- What a row becomes.
abbrev pub retried : ℕ → Text → JobRow → JobRow
retried now run j = if is_interrupted run j then retry_row now j else j

-- Neither completed nor skipped.
abbrev pub is_unfinished : JobRow → Bool
is_unfinished j = not (is_completed j.state || is_skipped j.state)

select-retried :
    (now : ℕ) (run phase : Text) (js : List JobRow)
    → select (λ j. in_phase run phase j && is_waiting j.state) (map (retried now run) js)
      ≡ map (retried now run) (select (λ j. in_phase run phase j && is_unfinished j) js)
select-retried now run phase [] = refl
select-retried now run phase (j ∷ js) = ground (arith, select-retried now run phase js)

others-retried :
    (now : ℕ) (run other : Text) (js : List JobRow)
    → text_eq run other ≡ false
    → select (λ j. text_eq j.run_id other) (map (retried now run) js)
      ≡ select (λ j. text_eq j.run_id other) js
others-retried now run other [] h = refl
others-retried now run other (j ∷ js) h = ground (
  arith,
  text_eq_iff run other,
  text_eq_iff j.run_id run,
  text_eq_iff j.run_id other,
  others-retried now run other js h,
)

none_interrupted :
    (now : ℕ) (run : Text) (js : List JobRow)
    → count_if (is_interrupted run) (map (retried now run) js) ≡ 0
none_interrupted now run [] = refl
none_interrupted now run (j ∷ js) = ground (arith, none_interrupted now run js)

-- Afterwards exactly those jobs of each phase of the run wait that are neither completed nor
-- skipped, in their order; and marking again changes no row.
pub mark_failed_as_retrying_pending :
    (now : ℕ) (run phase : Text) (s : Store)
    → let after = (mark_failed_as_retrying now run s).0 in
      (get_pending_jobs run phase after
        ≡ map scan_job
            (map (retried now run) (select (λ j. in_phase run phase j && is_unfinished j) s.jobs)))
      × ((mark_failed_as_retrying now run after).1 ≡ 0)
unfolding mark_failed_as_retrying get_pending_jobs query update_where
mark_failed_as_retrying_pending now run phase s =
    (ap (map scan_job) (select-retried now run phase s.jobs), none_interrupted now run s.jobs)

-- The jobs of another run stay as they are.
pub mark_failed_as_retrying_others :
    (now : ℕ) (run other : Text) (s : Store)
    → text_eq run other ≡ false
    → get_jobs other [] (mark_failed_as_retrying now run s).0 ≡ get_jobs other [] s
unfolding mark_failed_as_retrying get_jobs query update_where
mark_failed_as_retrying_others now run other s h =
    ap (map scan_job) (others-retried now run other s.jobs h)
