-- ===== src/Plan/Interleave.antt =====
-- interleaveTasksByTable of internal/migration/plan.go: the tasks of the tables in turn.
use existora2pg.Prelude.{
  All-append, subst, tests, ℕ, zero, suc, ◌+◌, ◌≤◌, ◌<◌, ◌≡◌, refl, sym, ◌∙◌, ap, Option, none,
  some, inl, inr, List, [], ◌∷◌, ◌++◌, append-nil, append_assoc, arith, Text, codes, text_eq, ltb,
  leb, if◌then◌else◌, Bool-cases, select, All, length, length-append, eq_of_text_eq,
}
use existora2pg.Prelude.Dict.{insert, lookup}
use existora2pg.Prelude.Groups.{
  lookup-group_by, group_by-IsDistinct, group_by_ind, append_to, total-group_by, list_or_nil,
  group_by, IsDistinct, total,
}
use existora2pg.Schema.{Partition}
use existora2pg.Plan.{TableTask}

abbrev with_partition : Text → Option Partition → Text
with_partition name none = name
with_partition name (some p) = name ++ (codes ":" ++ p.name)

-- The bucket of a task: its table, and its partition if it has one.
unfoldable pub bucket_key : TableTask → Text
bucket_key t = with_partition t.table.name t.partition

-- One round over the buckets takes the first task of each that has one.
unfoldable pub heads : List (Text × List TableTask) → List TableTask
heads [] = []
heads ((k, []) ∷ buckets) = heads buckets
heads ((k, t ∷ ts) ∷ buckets) = t ∷ heads buckets

unfoldable pub tails : List (Text × List TableTask) → List (Text × List TableTask)
tails [] = []
tails ((k, []) ∷ buckets) = (k, []) ∷ tails buckets
tails ((k, t ∷ ts) ∷ buckets) = (k, ts) ∷ tails buckets

-- `for len(result) < len(tasks)`; each round adds a task, so `n + 1` rounds end it.
unfoldable pub rounds : ℕ → ℕ → List TableTask → List (Text × List TableTask) → List TableTask
unfolding heads tails
rounds zero n result buckets = result
rounds (suc fuel) n result buckets =
    let rest = rounds fuel n (result ++ heads buckets) (tails buckets) in
    if ltb (length result) n then rest else result

-- interleaveTasksByTable
unfoldable pub interleave_tasks_by_table : List TableTask → List TableTask
unfolding rounds bucket_key group_by
interleave_tasks_by_table tasks =
    if leb (length tasks) 1
    then tasks
    else rounds (suc (length tasks)) (length tasks) [] (group_by bucket_key [] tasks)

-- The tasks of one bucket, in order.
abbrev pub of_bucket : Text → List TableTask → List TableTask
of_bucket k = select (λ t. text_eq (bucket_key t) k)

-- Every task stands in the bucket of its key.
abbrev IsKeyed : List (Text × List TableTask) → Type 0
IsKeyed [] = Unit
IsKeyed ((k, ts) ∷ buckets) = All (λ t. bucket_key t ≡ k) ts × IsKeyed buckets

total-round :
    (buckets : List (Text × List TableTask))
    → length (heads buckets) + total (tails buckets) ≡ total buckets
unfolding heads tails
total-round [] = omega arith
total-round ((k, []) ∷ buckets) = omega (arith, total-round buckets)
total-round ((k, t ∷ ts) ∷ buckets) = omega (arith, total-round buckets)

heads_pos :
    (buckets : List (Text × List TableTask)) → 1 ≤ total buckets → 1 ≤ length (heads buckets)
unfolding heads
heads_pos [] h = omega arith
heads_pos ((k, []) ∷ buckets) h = heads_pos buckets (omega arith)
heads_pos ((k, t ∷ ts) ∷ buckets) h = omega arith

tails-IsKeyed : (buckets : List (Text × List TableTask)) → IsKeyed buckets → IsKeyed (tails buckets)
unfolding tails
tails-IsKeyed [] h = tt
tails-IsKeyed ((k, []) ∷ buckets) h = (tt, tails-IsKeyed buckets h.1)
tails-IsKeyed ((k, t ∷ ts) ∷ buckets) h = (h.0.1, tails-IsKeyed buckets h.1)

lookup-tails-none :
    (k : Text) (buckets : List (Text × List TableTask))
    → lookup k buckets ≡ none
    → lookup k (tails buckets) ≡ none
unfolding tails lookup
lookup-tails-none k [] h = refl
lookup-tails-none k ((j, []) ∷ buckets) h = ground (arith, lookup-tails-none k buckets)
lookup-tails-none k ((j, t ∷ ts) ∷ buckets) h = ground (arith, lookup-tails-none k buckets)

tails-IsDistinct :
    (buckets : List (Text × List TableTask)) → IsDistinct buckets → IsDistinct (tails buckets)
unfolding tails
tails-IsDistinct [] h = tt
tails-IsDistinct ((k, []) ∷ buckets) h =
    (lookup-tails-none k buckets h.0, tails-IsDistinct buckets h.1)
tails-IsDistinct ((k, t ∷ ts) ∷ buckets) h =
    (lookup-tails-none k buckets h.0, tails-IsDistinct buckets h.1)

-- Where no bucket has the key, a round takes no task with it.
of_bucket-heads-none :
    (k : Text) (buckets : List (Text × List TableTask))
    → IsKeyed buckets
    → lookup k buckets ≡ none
    → of_bucket k (heads buckets) ≡ []
unfolding heads lookup
of_bucket-heads-none k [] h e = refl
of_bucket-heads-none k ((j, []) ∷ buckets) h e = ground (arith, of_bucket-heads-none k buckets h.1)
of_bucket-heads-none k ((j, t ∷ ts) ∷ buckets) h e =
    ground (arith, of_bucket-heads-none k buckets h.1, h.0.0)

-- A round splits each bucket into the task that it takes and the rest.
of_bucket-round :
    (k : Text) (buckets : List (Text × List TableTask))
    → IsKeyed buckets
    → IsDistinct buckets
    → of_bucket k (heads buckets) ++ list_or_nil (lookup k (tails buckets))
      ≡ list_or_nil (lookup k buckets)
unfolding heads tails lookup
of_bucket-round k [] h d = refl
of_bucket-round k ((j, []) ∷ buckets) h d = elim (Bool-cases (text_eq j k)) [
  | inl same ↦
      let absent = subst (λ q. lookup q buckets ≡ none) (eq_of_text_eq j k same) d.0 in
      rw (same, of_bucket-heads-none k buckets h.1 absent)
  | inr other ↦ rw other (of_bucket-round k buckets h.1 d.1)
]
of_bucket-round k ((j, t ∷ ts) ∷ buckets) h d = elim (Bool-cases (text_eq j k)) [
  | inl same ↦
      let absent = subst (λ q. lookup q buckets ≡ none) (eq_of_text_eq j k same) d.0 in
      let key = ap (λ q. text_eq q k) h.0.0 ∙ same in
      rw (key, same, of_bucket-heads-none k buckets h.1 absent)
  | inr other ↦
      let key = ap (λ q. text_eq q k) h.0.0 ∙ other in
      rw (key, other) (of_bucket-round k buckets h.1 d.1)
]

-- What holds between two rounds, of `tasks` from which the buckets were filled.
record Inv (tasks result : List TableTask) (buckets : List (Text × List TableTask)) : Type 0 where
  keyed : IsKeyed buckets
  distinct : IsDistinct buckets
  counted : length result + total buckets ≡ length tasks
  ordered : (k : Text) → of_bucket k result ++ list_or_nil (lookup k buckets) ≡ of_bucket k tasks

of_bucket-append :
    (k : Text) (xs ys : List TableTask) → of_bucket k (xs ++ ys) ≡ of_bucket k xs ++ of_bucket k ys
of_bucket-append k [] ys = refl
of_bucket-append k (x ∷ xs) ys = ground (arith, of_bucket-append k xs ys)

round-Inv :
    (tasks result : List TableTask) (buckets : List (Text × List TableTask))
    → Inv tasks result buckets
    → Inv tasks (result ++ heads buckets) (tails buckets)
round-Inv tasks result buckets inv = record {
  keyed = tails-IsKeyed buckets inv.keyed;
  distinct = tails-IsDistinct buckets inv.distinct;
  counted = omega (arith, total-round buckets, length-append result (heads buckets), inv.counted);
  ordered = λ k. rw (of_bucket-append k result (heads buckets)) (
      append_assoc (of_bucket k result) (of_bucket k (heads buckets))
        (list_or_nil (lookup k (tails buckets)))
      ∙ ap (λ r. of_bucket k result ++ r) (of_bucket-round k buckets inv.keyed inv.distinct)
      ∙ inv.ordered k);
}

lookup_of_total :
    (k : Text) (buckets : List (Text × List TableTask))
    → total buckets ≡ 0
    → list_or_nil (lookup k buckets) ≡ []
unfolding lookup
lookup_of_total k [] h = refl
lookup_of_total k ((j, []) ∷ buckets) h = ground (arith, lookup_of_total k buckets)
lookup_of_total k ((j, t ∷ ts) ∷ buckets) h = absurd (omega arith)

-- The same tasks: as many, and those of each bucket in their order.
abbrev pub IsReordering : List TableTask → List TableTask → Type 0
IsReordering result tasks =
    (length result ≡ length tasks) × ((k : Text) → of_bucket k result ≡ of_bucket k tasks)

rounds-IsReordering :
    (fuel : ℕ) (tasks result : List TableTask) (buckets : List (Text × List TableTask))
    → Inv tasks result buckets
    → total buckets < fuel
    → IsReordering (rounds fuel (length tasks) result buckets) tasks
unfolding rounds
rounds-IsReordering zero tasks result buckets inv h = elim h [ ]
rounds-IsReordering (suc fuel) tasks result buckets inv h =
    elim (Bool-cases (ltb (length result) (length tasks))) [
      | inl more ↦ rw more (
          rounds-IsReordering fuel tasks _ _ (round-Inv tasks result buckets inv)
            (omega (tests, total-round buckets, heads_pos buckets, inv.counted)))
      | inr done ↦ rw done (
        omega (tests, inv.counted),
        λ k.
            sym (append-nil _)
            ∙ ap (λ r. of_bucket k result ++ r)
                (sym (lookup_of_total k buckets (omega (tests, inv.counted))))
            ∙ inv.ordered k,
      )
    ]

lookup-IsKeyed :
    (k : Text) (buckets : List (Text × List TableTask))
    → IsKeyed buckets
    → All (λ t. bucket_key t ≡ k) (list_or_nil (lookup k buckets))
unfolding lookup
lookup-IsKeyed k [] h = tt
lookup-IsKeyed k ((j, ts) ∷ buckets) h = elim (Bool-cases (text_eq j k)) [
  | inl same ↦ rw same (subst (λ q. All (λ t. bucket_key t ≡ q) ts) (eq_of_text_eq j k same) h.0)
  | inr other ↦ rw other (lookup-IsKeyed k buckets h.1)
]

insert-IsKeyed :
    (k : Text) (ts : List TableTask) (buckets : List (Text × List TableTask))
    → All (λ t. bucket_key t ≡ k) ts
    → IsKeyed buckets
    → IsKeyed (insert k ts buckets)
unfolding insert
insert-IsKeyed k ts [] a h = (a, tt)
insert-IsKeyed k ts ((j, us) ∷ buckets) a h = elim (Bool-cases (text_eq j k)) [
  | inl same ↦ rw same (a, h.1)
  | inr other ↦ rw other (h.0, insert-IsKeyed k ts buckets a h.1)
]

append_to-IsKeyed :
    (buckets : List (Text × List TableTask)) (t : TableTask)
    → IsKeyed buckets
    → IsKeyed (append_to (bucket_key t) t buckets)
unfolding append_to
append_to-IsKeyed buckets t h =
    let k = bucket_key t in
    let old = list_or_nil (lookup k buckets) in
    insert-IsKeyed k (old ++ t ∷ []) buckets
      (All-append (λ u. bucket_key u ≡ k) old (t ∷ []) (lookup-IsKeyed k buckets h) (refl, tt)) h

start-Inv : (tasks : List TableTask) → Inv tasks [] (group_by bucket_key [] tasks)
unfolding lookup
start-Inv tasks = record {
  keyed =
      group_by_ind (λ buckets _. IsKeyed buckets) bucket_key
        (λ buckets t _ h. append_to-IsKeyed buckets t h) [] tasks tt;
  distinct = group_by-IsDistinct bucket_key tasks;
  counted = omega (arith, total-group_by bucket_key tasks);
  ordered = λ k. lookup-group_by bucket_key k [] tasks;
}

-- Interleaving neither loses nor repeats a task: the result has as many tasks, and for every bucket
-- (a table, or one of its partitions) the same tasks in the same order.
pub interleave_tasks_by_table-IsReordering :
    (tasks : List TableTask) → IsReordering (interleave_tasks_by_table tasks) tasks
unfolding interleave_tasks_by_table
interleave_tasks_by_table-IsReordering tasks = elim (Bool-cases (leb (length tasks) 1)) [
  | inl few ↦ rw few (refl, λ k. refl)
  | inr many ↦ rw many (
      rounds-IsReordering (suc (length tasks)) tasks [] (group_by bucket_key [] tasks)
        (start-Inv tasks) (omega (arith, total-group_by bucket_key tasks)))
]
