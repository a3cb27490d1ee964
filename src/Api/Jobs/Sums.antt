-- ===== src/Api/Jobs/Sums.antt =====
-- The rows and the bytes in the response of GetJobs of pkg/api/handlers.go.
use existora2pg.Api.Jobs.{
  nothing, JobResponse, Collected, collect, collect_job, add_to_aggregate, add_job, found_or_new,
  settled, job_responses, plain_response, aggregate_key, new_aggregate,
}
use existora2pg.JobStore.{Job}
use existora2pg.Prelude.Dict.{lookup, insert}
use existora2pg.Prelude.{
  ℕ, ◌+◌, ◌≡◌, refl, Text, List, [], ◌∷◌, ◌++◌, Option, none, some, map, arith,
}

abbrev pub sum_by {ℓ} : {A : Type ℓ} → (A → ℕ) → List A → ℕ
sum_by f [] = 0
sum_by f (x ∷ xs) = f x + sum_by f xs

sum_by-append {ℓ} :
    {A : Type ℓ} (f : A → ℕ) (xs ys : List A) → sum_by f (xs ++ ys) ≡ sum_by f xs + sum_by f ys
sum_by-append f [] ys = omega arith
sum_by-append f (x ∷ xs) ys = omega (arith, sum_by-append f xs ys)

abbrev copied_at : Text × JobResponse → ℕ
copied_at (k, r) = r.rows_copied

abbrev copied_of : Option JobResponse → ℕ
copied_of none = 0
copied_of (some r) = r.rows_copied

sum-insert :
    (k : Text) (v : JobResponse) (m : List (Text × JobResponse))
    → sum_by copied_at (insert k v m) + copied_of (lookup k m) ≡ sum_by copied_at m + v.rows_copied
unfolding insert lookup
sum-insert k v [] = omega arith
sum-insert k v ((j, w) ∷ m) = ground (arith, sum-insert k v m)

found_or_new-copied :
    (j : Job) (o : Option JobResponse) → (found_or_new j o).rows_copied ≡ copied_of o
unfolding found_or_new new_aggregate
found_or_new-copied j none = refl
found_or_new-copied j (some r) = refl

collected : Collected → ℕ
collected c = sum_by copied_at c.aggregated + sum_by (λ r. r.rows_copied) c.result

collected-collect_job :
    (j : Job) (c : Collected) → collected (collect_job j c) ≡ collected c + j.rows_copied
unfolding collected collect_job add_to_aggregate add_job
collected-collect_job j c = ground (
  arith,
  sum-insert (aggregate_key j) (add_job (found_or_new j (lookup (aggregate_key j) c.aggregated)) j)
      c.aggregated,
  found_or_new-copied j (lookup (aggregate_key j) c.aggregated),
  sum_by-append (λ r. r.rows_copied) c.result (plain_response j ∷ []),
)

collected-collect :
    (js : List Job) (c : Collected)
    → collected (collect js c) ≡ collected c + sum_by (λ j. j.rows_copied) js
unfolding collect
collected-collect [] c = omega arith
collected-collect (j ∷ js) c =
    omega (arith, collected-collect js (collect_job j c), collected-collect_job j c)

sum-settled :
    (m : List (Text × JobResponse))
    → sum_by (λ r. r.rows_copied) (map settled m) ≡ sum_by copied_at m
sum-settled [] = refl
sum-settled ((k, r) ∷ m) = ground (arith, sum-settled m)

-- Putting the chunks together neither loses nor repeats rows: the copied rows of the jobs in the
-- response are together those of the jobs of the run.
pub job_responses-sum :
    (jobs : List Job)
    → sum_by (λ r. r.rows_copied) (job_responses jobs) ≡ sum_by (λ j. j.rows_copied) jobs
unfolding job_responses collected
job_responses-sum jobs =
    let c = collect jobs nothing in
    omega (
      arith,
      sum_by-append (λ r. r.rows_copied) c.result (map settled c.aggregated),
      sum-settled c.aggregated,
      collected-collect jobs nothing,
    )
