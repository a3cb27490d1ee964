-- ===== src/Api/Summary/Total.antt =====
-- The counts of buildRunSummaryWithTiming of pkg/api/handlers.go.
use existora2pg.Api.Partitions.{is_chunk_partition}
use existora2pg.Api.Summary.{
  Counts, count_state, Group, Tally, tally_job, tally, group_state, count_groups, group_count,
  build_run_summary, empty_tally,
}
use existora2pg.JobStore.{Job, JobState}
use existora2pg.Prelude.{ℕ, suc, ◌+◌, ◌≡◌, List, [], ◌∷◌, arith, Bool-cases, inl, inr}

-- The jobs in all states together.
abbrev pub all_states : Counts → ℕ
all_states n = n.pending + n.running + (n.completed + n.failed) + (n.retrying + n.skipped)

all_states-count_state :
    (s : JobState) (n : Counts) → all_states (count_state s n) ≡ suc (all_states n)
all_states-count_state JobState.pending n = omega arith
all_states-count_state JobState.running n = omega arith
all_states-count_state JobState.completed n = omega arith
all_states-count_state JobState.failed n = omega arith
all_states-count_state JobState.retrying n = omega arith
all_states-count_state JobState.skipped n = omega arith

all_states-tally_job :
    (j : Job) (t : Tally)
    → all_states t.plain ≡ t.total
    → all_states (tally_job j t).plain ≡ (tally_job j t).total
unfolding tally_job
all_states-tally_job j t h = elim (Bool-cases (is_chunk_partition j.partition)) [
  | inl chunk ↦ rw chunk h
  | inr plain ↦ rw plain (omega (arith, all_states-count_state j.state t.plain))
]

all_states-tally :
    (js : List Job) (t : Tally)
    → all_states t.plain ≡ t.total
    → all_states (tally js t).plain ≡ (tally js t).total
unfolding tally
all_states-tally [] t h = h
all_states-tally (j ∷ js) t h = all_states-tally js (tally_job j t) (all_states-tally_job j t h)

all_states-count_groups :
    (gs : List Group) (n : Counts) → all_states (count_groups gs n) ≡ all_states n + group_count gs
unfolding count_groups
all_states-count_groups [] n = omega arith
all_states-count_groups (g ∷ gs) n = omega (
  arith,
  all_states-count_groups gs (count_state (group_state g) n),
  all_states-count_state (group_state g) n,
)

-- Each job that is shown, a plain one or a group of chunks, is counted in exactly one state: the
-- counts of the states add up to the total.
pub build_run_summary-total :
    (jobs : List Job) → all_states (build_run_summary jobs).counts ≡ (build_run_summary jobs).total
unfolding build_run_summary
build_run_summary-total jobs =
    let t = tally jobs empty_tally in
    omega (arith, all_states-count_groups t.groups t.plain, all_states-tally jobs empty_tally)
