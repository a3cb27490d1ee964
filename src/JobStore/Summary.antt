-- ===== src/JobStore/Summary.antt =====
-- GetRunSummary of internal/jobstore/store.go.
use native.Mathlib.Nat.{add-zero}
use existora2pg.JobStore.{
  JobState, JobRow, Store, is_pending, is_running, is_failed, is_completed, is_retrying, is_skipped,
}
use existora2pg.Prelude.{
  le→leb, select, ℕ, zero, suc, ◌+◌, ◌≡◌, ◌&&◌, refl, Option, none, some, Bool, List, [], ◌∷◌, Text,
  codes, text_eq, ◌==◌, arith, count_if, if◌then◌else◌, leb, ◌∙◌, sym, ap,
}

pub record RunSummary : Type 0 where
  pub run_id : Text
  pub total : ℕ
  pub pending : ℕ
  pub running : ℕ
  pub completed : ℕ
  pub failed : ℕ
  pub retrying : ℕ
  pub skipped : ℕ
  pub started_at : Option ℕ
  pub finished_at : Option ℕ
  pub total_rows : ℕ

abbrev no_jobs : Text → RunSummary
no_jobs run = record {
  run_id = run;
  total = 0;
  pending = 0;
  running = 0;
  completed = 0;
  failed = 0;
  retrying = 0;
  skipped = 0;
  started_at = none;
  finished_at = none;
  total_rows = 0;
}

abbrev is_state : JobState → JobState → Bool
is_state JobState.pending = is_pending
is_state JobState.running = is_running
is_state JobState.failed = is_failed
is_state JobState.completed = is_completed
is_state JobState.retrying = is_retrying
is_state JobState.skipped = is_skipped

-- How many jobs of the run are in a state.
abbrev pub count_in : Text → Store → JobState → ℕ
count_in run s st = count_if (λ j. text_eq j.run_id run && is_state st j.state) s.jobs

-- SELECT state, COUNT(*) … GROUP BY state: one row for each state that occurs.
abbrev with_row : JobState → ℕ → List (JobState × ℕ) → List (JobState × ℕ)
with_row st n rows = if leb 1 n then (st, n) ∷ rows else rows

abbrev state_counts : (JobState → ℕ) → List (JobState × ℕ)
state_counts count = with_row JobState.completed (count JobState.completed) (
    with_row JobState.failed (count JobState.failed) (
      with_row JobState.pending (count JobState.pending) (
        with_row JobState.retrying (count JobState.retrying) (
          with_row JobState.running (count JobState.running)
            (with_row JobState.skipped (count JobState.skipped) [])))))

-- The body of the loop over these rows.
abbrev add_count : JobState → ℕ → RunSummary → RunSummary
add_count JobState.pending n sum = record sum { total = sum.total + n; pending = n }
add_count JobState.running n sum = record sum { total = sum.total + n; running = n }
add_count JobState.completed n sum = record sum { total = sum.total + n; completed = n }
add_count JobState.failed n sum = record sum { total = sum.total + n; failed = n }
add_count JobState.retrying n sum = record sum { total = sum.total + n; retrying = n }
add_count JobState.skipped n sum = record sum { total = sum.total + n; skipped = n }

abbrev add_counts : List (JobState × ℕ) → RunSummary → RunSummary
add_counts [] sum = sum
add_counts ((st, n) ∷ rows) sum = add_counts rows (add_count st n sum)

-- MIN and MAX over a column, which pass over NULL.
abbrev keep_by : (ℕ → ℕ → Bool) → Option ℕ → Option ℕ → Option ℕ
keep_by better none b = b
keep_by better (some a) none = some a
keep_by better (some a) (some b) = if better a b then some a else some b

abbrev best_of : (ℕ → ℕ → Bool) → (JobRow → Option ℕ) → List JobRow → Option ℕ
best_of better column [] = none
best_of better column (j ∷ js) = keep_by better (column j) (best_of better column js)

-- SUM(CASE WHEN phase='data' THEN rows_copied ELSE 0 END)
abbrev sum_rows : List JobRow → ℕ
sum_rows [] = 0
sum_rows (j ∷ js) = (if text_eq j.phase (codes "data") then j.rows_copied else 0) + sum_rows js

abbrev parsed : (ℕ → Option ℕ) → Option ℕ → Option ℕ
parsed parse none = none
parsed parse (some t) = parse t

module _ (parse : ℕ → Option ℕ) where
  -- `parse` is time.Parse of RFC 3339 on the driver's text of a stored time.
  unfoldable pub get_run_summary : Text → Store → RunSummary
  get_run_summary run s =
      let js = select (λ j. text_eq j.run_id run) s.jobs in
      let sum = add_counts (state_counts (count_in run s)) (no_jobs run) in
      let ended = sum.running == 0 && (sum.pending == 0 && sum.retrying == 0) in
      record sum {
        started_at = parsed parse (best_of leb (λ j. j.started_at) js);
        finished_at =
            if ended then parsed parse (best_of (λ a b. leb b a) (λ j. j.finished_at) js) else none;
        total_rows = sum_rows js;
      }

-- A row whose count is 0 may as well be there.
with_row_lem :
    (st : JobState) (n : ℕ) (rows : List (JobState × ℕ)) (sum : RunSummary)
    → add_count st 0 sum ≡ sum
    → add_counts (with_row st n rows) sum ≡ add_counts rows (add_count st n sum)
with_row_lem st zero rows sum h = ap (add_counts rows) (sym h)
with_row_lem st (suc n) rows sum h = rw (le→leb 1 (suc n) (omega arith)) refl

-- The summary after the loop, where each state has its count, also the states without a row.
abbrev counted : (JobState → ℕ) → Text → RunSummary
counted count run = add_count JobState.skipped (count JobState.skipped) (
    add_count JobState.running (count JobState.running) (
      add_count JobState.retrying (count JobState.retrying) (
        add_count JobState.pending (count JobState.pending) (
          add_count JobState.failed (count JobState.failed)
            (add_count JobState.completed (count JobState.completed) (no_jobs run))))))

same_total : (sum : RunSummary) → record sum { total = sum.total + 0 } ≡ sum
same_total sum = ap (λ t. record sum { total = t }) (add-zero sum.total)

add_counts_lem :
    (count : JobState → ℕ) (run : Text)
    → add_counts (state_counts count) (no_jobs run) ≡ counted count run
add_counts_lem count run =
    with_row_lem JobState.completed (count JobState.completed) _ (no_jobs run) (same_total _)
    ∙ with_row_lem JobState.failed (count JobState.failed) _ _ (same_total _)
    ∙ with_row_lem JobState.pending (count JobState.pending) _ _ (same_total _)
    ∙ with_row_lem JobState.retrying (count JobState.retrying) _ _ (same_total _)
    ∙ with_row_lem JobState.running (count JobState.running) _ _ (same_total _)
    ∙ with_row_lem JobState.skipped (count JobState.skipped) [] _ (same_total _)

count_all :
    (run : Text) (js : List JobRow)
    → count_if (λ j. text_eq j.run_id run && is_completed j.state) js
        + count_if (λ j. text_eq j.run_id run && is_failed j.state) js
        + count_if (λ j. text_eq j.run_id run && is_pending j.state) js
        + count_if (λ j. text_eq j.run_id run && is_retrying j.state) js
        + count_if (λ j. text_eq j.run_id run && is_running j.state) js
        + count_if (λ j. text_eq j.run_id run && is_skipped j.state) js
      ≡ count_if (λ j. text_eq j.run_id run) js
count_all run [] = omega arith
count_all run (j ∷ js) = ground (arith, count_all run js)

-- In the summary of a run each state has the number of the run's jobs in that state, and the total
-- is the number of the jobs of the run.
pub get_run_summary_counts :
    (parse : ℕ → Option ℕ) (run : Text) (s : Store)
    → let sum = get_run_summary parse run s in
      (sum.total ≡ count_if (λ j. text_eq j.run_id run) s.jobs)
      × (sum.pending ≡ count_in run s JobState.pending)
      × (sum.running ≡ count_in run s JobState.running)
      × (sum.completed ≡ count_in run s JobState.completed)
      × (sum.failed ≡ count_in run s JobState.failed)
      × (sum.retrying ≡ count_in run s JobState.retrying)
      × (sum.skipped ≡ count_in run s JobState.skipped)
unfolding get_run_summary
get_run_summary_counts parse run s =
    let e = add_counts_lem (count_in run s) run in
    (
      ap (λ m. m.total) e ∙ omega (arith, count_all run s.jobs),
      ap (λ m. m.pending) e,
      ap (λ m. m.running) e,
      ap (λ m. m.completed) e,
      ap (λ m. m.failed) e,
      ap (λ m. m.retrying) e,
      ap (λ m. m.skipped) e,
    )
