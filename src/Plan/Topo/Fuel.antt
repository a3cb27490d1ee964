-- ===== src/Plan/Topo/Fuel.antt =====
-- topoSortTables of internal/migration/plan.go: the bound on the depth of the calls of `visit`.
use mathlib.Core.Bool.{false≢true}
use existora2pg.Plan.Topo.Visit.{
  visit_fresh, visit_active, visit_all_absent, visit_all_there, visit-Extends, visit_seen,
  flag-insert,
}
use existora2pg.Plan.Topo.Complete.{table_of-none, has_name}
use existora2pg.Schema.{Table}
use existora2pg.Prelude.{
  zero, sym, refl, text_eq_refl, ap, ◌∙◌, ◌+◌, length, All, [], inr, inl, Bool-cases, suc,
  text_eq_iff, false, ◌<◌, arith, ◌∷◌, true, not, ◌≡◌, count_if, ◌≤◌, is_some, ℕ, Text, List,
}
use native.Mathlib.Nat.{zero-add, suc-add}
use existora2pg.Plan.Topo.{
  deps_of, finish, initial, visit_tables, topo_sort_tables, graph_of, visit_all, visit, table_of,
  flag, start, Graph, Search,
}

module _ (g : Graph) where
  -- The tables that are not being visited: each call that goes deeper takes one away.
  abbrev idle : List Table → Search → ℕ
  idle ts st = count_if (λ t. not (flag st.visiting t.name)) ts

  idle_same :
      (ts : List Table) (s s' : Search)
      → ((k : Text) → flag s'.visiting k ≡ flag s.visiting k)
      → idle ts s' ≡ idle ts s
  idle_same [] s s' h = refl
  idle_same (t ∷ ts) s s' h = ground (arith, h t.name, idle_same ts s s' h)

  idle-start_le :
      (name : Text) (ts : List Table) (st : Search) → idle ts (start g name st) ≤ idle ts st
  idle-start_le name [] st = omega arith
  idle-start_le name (t ∷ ts) st =
      ground (arith, flag-insert name t.name true st.visiting, idle-start_le name ts st)

  -- Where the name is that of a table, to start its visit takes one away.
  idle-start_lt :
      (name : Text) (ts : List Table) (st : Search)
      → has_name name ts ≡ true
      → flag st.visiting name ≡ false
      → idle ts (start g name st) < idle ts st
  idle-start_lt name [] st h q = cc
  idle-start_lt name (t ∷ ts) st h q = ground (
    arith,
    flag-insert name t.name true st.visiting,
    idle-start_lt name ts st,
    idle-start_le name ts st,
    text_eq_iff t.name name,
    text_eq_iff name t.name,
  )

  module _ (ts : List Table)
      (known : (k : Text) → is_some (table_of g k) ≡ true → has_name k ts ≡ true) where
    -- One more round changes nothing for calls from a state with few idle tables.
    abbrev Enough : ℕ → Type 0
    Enough fuel =
        (name : Text) (st : Search)
        → has_name name ts ≡ true
        → idle ts st < fuel
        → visit g (suc fuel) name st ≡ visit g fuel name st

    visit_all-Enough :
        (fuel : ℕ) (ds : List Text) (st : Search)
        → Enough fuel
        → idle ts st < fuel
        → visit_all g (visit g (suc fuel)) ds st ≡ visit_all g (visit g fuel) ds st
    unfolding visit_all
    visit_all-Enough fuel [] st enough h = refl
    visit_all-Enough fuel (d ∷ ds) st enough h = elim (Bool-cases (is_some (table_of g d))) [
      | inl there ↦
          let next = visit g fuel d st in
          let same = idle_same ts st next (visit-Extends g fuel d st).same_visiting in
          visit_all_there g (visit g (suc fuel)) d ds st there
          ∙ ap (visit_all g (visit g (suc fuel)) ds) (enough d st (known d there) h)
          ∙ visit_all-Enough fuel ds next enough (omega arith)
          ∙ sym (visit_all_there g (visit g fuel) d ds st there)
      | inr absent ↦
          visit_all_absent g (visit g (suc fuel)) d ds st absent
          ∙ visit_all-Enough fuel ds st enough h
          ∙ sym (visit_all_absent g (visit g fuel) d ds st absent)
    ]

    visit-Enough : (fuel : ℕ) → Enough fuel
    visit-Enough zero name st k h = absurd (omega arith)
    visit-Enough (suc fuel) name st k h = elim (Bool-cases (flag st.visited name)) [
      | inl seen ↦ visit_seen g (suc fuel) name st seen ∙ sym (visit_seen g fuel name st seen)
      | inr unseen ↦ elim (Bool-cases (flag st.visiting name)) [
        | inl active ↦
            visit_active g (suc (suc fuel)) name st active
            ∙ sym (visit_active g (suc fuel) name st active)
        | inr fresh ↦
            let fewer = idle-start_lt name ts st k fresh in
            visit_fresh g (suc fuel) name st unseen fresh
            ∙ ap (finish g name) (
                visit_all-Enough fuel (deps_of g name) (start g name st) (visit-Enough fuel)
                  (omega arith))
            ∙ sym (visit_fresh g fuel name st unseen fresh)
      ]
    ]

    visit_tables_enough :
        (fuel : ℕ) (us : List Table) (st : Search)
        → All (λ t. has_name t.name ts ≡ true) us
        → idle ts st < fuel
        → visit_tables g (suc fuel) us st ≡ visit_tables g fuel us st
    unfolding visit_tables
    visit_tables_enough fuel [] st a h = refl
    visit_tables_enough fuel (t ∷ us) st a h =
        let next = visit g fuel t.name st in
        let same = idle_same ts st next (visit-Extends g fuel t.name st).same_visiting in
        ap (visit_tables g (suc fuel) us) (visit-Enough fuel t.name st a.0 h)
        ∙ visit_tables_enough fuel us next a.1 (omega arith)

idle-le : (g : Graph) (ts : List Table) (st : Search) → idle g ts st ≤ length ts
idle-le g [] st = omega arith
idle-le g (t ∷ ts) st = ground (arith, idle-le g ts st)

has_name_of_table_of :
    (tables : List Table) (k : Text)
    → is_some (table_of (graph_of tables) k) ≡ true
    → has_name k tables ≡ true
has_name_of_table_of tables k h = elim (Bool-cases (has_name k tables)) [
  | inl there ↦ there
  | inr absent ↦ absurd (false≢true (sym (ap is_some (table_of-none tables k absent)) ∙ h))
]

All-has_name :
    (us ts : List Table)
    → ((k : Text) → has_name k us ≡ true → has_name k ts ≡ true)
    → All (λ t. has_name t.name ts ≡ true) us
All-has_name [] ts h = tt
All-has_name (t ∷ us) ts h =
    (h t.name (rw (text_eq_refl t.name)), All-has_name us ts (λ k m. h k (ground arith)))

-- The bound on the nesting of calls is never met: whatever is added to it, the search ends in the
-- same state, also where the foreign keys form cycles.
pub topo_sort_tables_enough :
    (tables : List Table) (k : ℕ)
    → (visit_tables (graph_of tables) (k + suc (length tables)) tables initial).sorted
      ≡ topo_sort_tables tables
unfolding topo_sort_tables
topo_sort_tables_enough tables zero = rw zero-add
topo_sort_tables_enough tables (suc k) =
    let g = graph_of tables in
    rw suc-add (
      ap (λ s. s.sorted)
        (visit_tables_enough g tables (has_name_of_table_of tables) (k + suc (length tables)) tables
          initial (All-has_name tables tables (λ j h. h)) (omega (arith, idle-le g tables initial)))
      ∙ topo_sort_tables_enough tables k)
