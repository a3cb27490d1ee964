-- ===== src/Engine/Data/Ids.antt =====
-- The ids of the jobs and of their tasks in executeDataMigration of internal/migration/engine.go.
use existora2pg.JobStore.Valid.{IsBefore}
use existora2pg.JobStore.{scan_job, JobRow}
use existora2pg.Plan.{TableTask}
use existora2pg.Prelude.{
  inr, inl, Bool-cases, refl, All-mono, arith, [], ap, ◌≤◌, true, ◌∷◌, ◌≡◌, ◌<◌, All, ◌==◌, map,
  Pairwise, any, count_if, List, ℕ,
}

pub count_if-ids :
    (id_of : TableTask → ℕ) (i : ℕ) (ts : List TableTask)
    → count_if (λ t. id_of t == i) ts ≡ count_if (λ m. m == i) (map id_of ts)
count_if-ids id_of i [] = refl
count_if-ids id_of i (t ∷ ts) = ground (arith, count_if-ids id_of i ts)

pub any-ids :
    (id_of : TableTask → ℕ) (i : ℕ) (ts : List TableTask)
    → any (λ t. id_of t == i) ts ≡ any (λ m. m == i) (map id_of ts)
any-ids id_of i [] = refl
any-ids id_of i (t ∷ ts) = ground (arith, any-ids id_of i ts)

abbrev pub ids : List JobRow → List ℕ
ids = map (λ j. j.id)

count_above :
    (m i : ℕ) (js : List JobRow)
    → All (λ k. m < k.id) js
    → i ≤ m
    → count_if (λ k. k == i) (ids js) ≡ 0
count_above m i [] h k = refl
count_above m i (j ∷ js) h k = ground (arith, h.0, count_above m i js h.1 k)

-- The ids of rows in the order of insertion are different.
pub count_ids :
    (i : ℕ) (js : List JobRow) → Pairwise IsBefore js → count_if (λ k. k == i) (ids js) ≤ 1
count_ids i [] h = omega arith
count_ids i (j ∷ js) h = elim (Bool-cases (j.id == i)) [
  | inl own ↦
      let none_later =
        count_above j.id i js (All-mono (IsBefore j) (λ k. j.id < k.id) (λ k b. b.0) js h.0)
          (ground arith) in
      ground (arith, none_later)
  | inr other ↦ ground (arith, count_ids i js h.1)
]

pub any_self : (js : List JobRow) → All (λ j. any (λ m. m == j.id) (ids js) ≡ true) js
any_self [] = tt
any_self (j ∷ js) = (
  ground arith,
  All-mono (λ k. any (λ m. m == k.id) (ids js) ≡ true)
      (λ k. any (λ m. m == k.id) (ids (j ∷ js)) ≡ true) (λ k a. ground (arith, a)) js (any_self js),
)

pub ids-scan_job : (js : List JobRow) → map (λ j. j.id) (map scan_job js) ≡ ids js
ids-scan_job [] = refl
ids-scan_job (j ∷ js) = ap (λ r. j.id ∷ r) (ids-scan_job js)

pub All-scan_job :
    (P : ℕ → Type 0) (js : List JobRow) → All (λ j. P j.id) js → All (λ j. P j.id) (map scan_job js)
All-scan_job P [] h = tt
All-scan_job P (j ∷ js) h = (h.0, All-scan_job P js h.1)
