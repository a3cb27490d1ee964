-- ===== src/Api/Jobs/Worst.antt =====
-- The states in the response of GetJobs of pkg/api/handlers.go.
use existora2pg.Api.Jobs.{
  nothing, JobResponse, Collected, collect, collect_job, add_to_aggregate, add_job, found_or_new,
  priority, merge_job_state, aggregate_key, new_aggregate,
}
use existora2pg.Api.Partitions.{is_chunk_partition}
use existora2pg.JobStore.{Job, JobState}
use existora2pg.Prelude.Dict.{lookup, lookup-insert}
use existora2pg.Prelude.{
  All, subst, ℕ, zero, suc, ◌≤◌, ◌≡◌, refl, ap, sym, ◌∙◌, true, false, Text, text_eq, eq_of_text_eq,
  text_eq_refl, List, [], ◌∷◌, Option, none, some, get_elem?, arith, if◌then◌else◌, Bool-cases, inl,
  inr,
}

-- Under the key stands an aggregate whose state is at least this bad.
abbrev pub Covers : Text → ℕ → Collected → Type 0
Covers k n c = (a : JobResponse) × (lookup k c.aggregated ≡ some a) × (n ≤ priority a.state)

merge_job_state_bounds :
    (a b : JobState)
    → (priority a ≤ priority (merge_job_state a b)) × (priority b ≤ priority (merge_job_state a b))
unfolding merge_job_state
merge_job_state_bounds a b = ground arith

lookup-add :
    (j : Job) (k : Text) (aggs : List (Text × JobResponse))
    → lookup k (add_to_aggregate j aggs) ≡ (
        if text_eq (aggregate_key j) k
        then some (add_job (found_or_new j (lookup (aggregate_key j) aggs)) j)
        else lookup k aggs)
unfolding add_to_aggregate
lookup-add j k aggs = lookup-insert (aggregate_key j) k _ aggs

add-Covers :
    (j : Job) (k : Text) (n : ℕ) (c : Collected)
    → Covers k n c
    → Covers k n (record c { aggregated = add_to_aggregate j c.aggregated })
unfolding add_job found_or_new
add-Covers j k n c (a, e, h) = elim (Bool-cases (text_eq (aggregate_key j) k)) [
  | inl same ↦
      let found : lookup (aggregate_key j) c.aggregated ≡ some a =
        ap (λ t. lookup t c.aggregated) (eq_of_text_eq (aggregate_key j) k same) ∙ e in
      (
        add_job a j,
        lookup-add j k c.aggregated ∙ rw (same, found) refl,
        omega (arith, (merge_job_state_bounds a.state j.state).0),
      )
  | inr other ↦ (a, lookup-add j k c.aggregated ∙ rw other e, h)
]

collect_job-Covers :
    (j : Job) (k : Text) (n : ℕ) (c : Collected) → Covers k n c → Covers k n (collect_job j c)
unfolding collect_job
collect_job-Covers j k n c h = elim (Bool-cases (is_chunk_partition j.partition)) [
  | inl chunk ↦ rw chunk (add-Covers j k n c h)
  | inr plain ↦ rw plain h
]

collect-Covers :
    (js : List Job) (k : Text) (n : ℕ) (c : Collected) → Covers k n c → Covers k n (collect js c)
unfolding collect
collect-Covers [] k n c h = h
collect-Covers (j ∷ js) k n c h =
    collect-Covers js k n (collect_job j c) (collect_job-Covers j k n c h)

own-Covers :
    (j : Job) (c : Collected)
    → is_chunk_partition j.partition ≡ true
    → Covers (aggregate_key j) (priority j.state) (collect_job j c)
unfolding collect_job add_job
own-Covers j c chunk =
    let old = found_or_new j (lookup (aggregate_key j) c.aggregated) in
    rw chunk (
      add_job old j,
      lookup-add j (aggregate_key j) c.aggregated ∙ rw (text_eq_refl (aggregate_key j)) refl,
      (merge_job_state_bounds old.state j.state).1,
    )

collected-Covers :
    (js : List Job) (i : ℕ) (j : Job) (c : Collected)
    → get_elem? js i ≡ some j
    → is_chunk_partition j.partition ≡ true
    → Covers (aggregate_key j) (priority j.state) (collect js c)
unfolding collect
collected-Covers [] i j c e chunk = absurd (cc e)
collected-Covers (x ∷ js) zero j c e chunk =
    let same : x ≡ j = cc e in
    collect-Covers js (aggregate_key j) (priority j.state) (collect_job x c) (
      subst (λ y. Covers (aggregate_key j) (priority j.state) (collect_job y c)) (sym same)
        (own-Covers j c chunk))
collected-Covers (x ∷ js) (suc i) j c e chunk = collected-Covers js i j (collect_job x c) e chunk

merge_below :
    (a b : JobState) (n : ℕ) → priority a ≤ n → priority b ≤ n → priority (merge_job_state a b) ≤ n
unfolding merge_job_state
merge_below a b n h k = ground arith

-- What stands under the key is at most this bad.
abbrev Capped : Text → ℕ → Collected → Type 0
Capped k n c = (a : JobResponse) → lookup k c.aggregated ≡ some a → priority a.state ≤ n

-- The job is no chunk with this key, or at most this bad.
abbrev pub IsMild : Text → ℕ → Job → Type 0
IsMild k n j = is_chunk_partition j.partition ≡ true → aggregate_key j ≡ k → priority j.state ≤ n

found-capped :
    (j : Job) (n : ℕ) (o : Option JobResponse)
    → priority j.state ≤ n
    → ((a : JobResponse) → o ≡ some a → priority a.state ≤ n)
    → priority (found_or_new j o).state ≤ n
unfolding found_or_new new_aggregate
found-capped j n none h k = h
found-capped j n (some a) h k = k a refl

add-Capped :
    (j : Job) (k : Text) (n : ℕ) (c : Collected)
    → (aggregate_key j ≡ k → priority j.state ≤ n)
    → Capped k n c
    → Capped k n (record c { aggregated = add_to_aggregate j c.aggregated })
unfolding add_job
add-Capped j k n c mild h a e = elim (Bool-cases (text_eq (aggregate_key j) k)) [
  | inl same ↦
      let key = eq_of_text_eq (aggregate_key j) k same in
      let old = found_or_new j (lookup (aggregate_key j) c.aggregated) in
      let small =
        found-capped j n (lookup (aggregate_key j) c.aggregated) (mild key)
          (λ b f. h b (ap (λ t. lookup t c.aggregated) (sym key) ∙ f)) in
      let made : add_job old j ≡ a = cc (rw same at (lookup-add j k c.aggregated), e) in
      subst (λ r. priority r.state ≤ n) made (merge_below old.state j.state n small (mild key))
  | inr other ↦ h a (sym (rw other at (lookup-add j k c.aggregated)) ∙ e)
]

collect_job-chunk :
    (j : Job) (c : Collected)
    → is_chunk_partition j.partition ≡ true
    → collect_job j c ≡ record c { aggregated = add_to_aggregate j c.aggregated }
unfolding collect_job
collect_job-chunk j c h = rw h refl

collect_job-plain :
    (j : Job) (c : Collected)
    → is_chunk_partition j.partition ≡ false
    → (collect_job j c).aggregated ≡ c.aggregated
unfolding collect_job
collect_job-plain j c h = rw h refl

collect_job-Capped :
    (j : Job) (k : Text) (n : ℕ) (c : Collected)
    → IsMild k n j
    → Capped k n c
    → Capped k n (collect_job j c)
collect_job-Capped j k n c mild h = elim (Bool-cases (is_chunk_partition j.partition)) [
  | inl chunk ↦
      subst (Capped k n) (sym (collect_job-chunk j c chunk)) (add-Capped j k n c (mild chunk) h)
  | inr plain ↦ λ a e. h a (sym (ap (lookup k) (collect_job-plain j c plain)) ∙ e)
]

collect-Capped :
    (js : List Job) (k : Text) (n : ℕ) (c : Collected)
    → All (IsMild k n) js
    → Capped k n c
    → Capped k n (collect js c)
unfolding collect
collect-Capped [] k n c mild h = h
collect-Capped (j ∷ js) k n c mild h =
    collect-Capped js k n (collect_job j c) mild.1 (collect_job-Capped j k n c mild.0 h)

no_entry : (k : Text) (n : ℕ) → Capped k n nothing
unfolding lookup
no_entry k n a e = absurd (cc e)

-- The state that is shown for the chunks of a table or of a partition is the worst one: at least as
-- bad as that of each of its chunks, and no worse than all of them are, in the order FAILED, RUNNING,
-- RETRYING, PENDING, COMPLETED, SKIPPED.
pub collect-worst :
    (jobs : List Job) (i n : ℕ) (j : Job)
    → get_elem? jobs i ≡ some j
    → is_chunk_partition j.partition ≡ true
    → All (IsMild (aggregate_key j) n) jobs
    → (a : JobResponse) × (lookup (aggregate_key j) (collect jobs nothing).aggregated ≡ some a)
      × (priority j.state ≤ priority a.state)
      × (priority a.state ≤ n)
collect-worst jobs i n j e chunk mild =
    let (a, found, worse) = collected-Covers jobs i j nothing e chunk in
    (
      a,
      found,
      worse,
      collect-Capped jobs (aggregate_key j) n nothing mild (no_entry (aggregate_key j) n) a found,
    )
