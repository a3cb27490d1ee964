-- ===== src/Plan/Topo/Refs.antt =====
-- topoSortTables of internal/migration/plan.go: the recorded dependencies and the foreign keys.
use existora2pg.Schema.{Table, Constraint}
use existora2pg.Plan.Topo.Complete.{graph_of-IsNamed}
use existora2pg.Plan.Topo.Order.{visit_tables-Inv, IsOrdered}
use existora2pg.Prelude.Groups.{list_or_nil, lookup-append_to, append_to}
use existora2pg.Prelude.Dict.{lookup}
use existora2pg.Prelude.{
  refl, length, ℕ, Text, List, eq_of_text_eq, subst, All-append, suc, inl, inr, ◌≤◌, arith, ap,
  append_assoc, ◌∙◌, [], append-nil, Bool-cases, ◌<◌, sym, text_eq, ◌⊎◌, if◌then◌else◌, ◌++◌, ◌≡◌,
  All, ◌∷◌,
}
use existora2pg.Plan.Topo.{
  initial, is_fk, flag, graph_of, add_deps, deps_of, topo_sort_tables, add_refs,
}

-- The tables that the foreign keys of a table refer to.
abbrev pub fk_refs : List Constraint → List Text
fk_refs [] = []
fk_refs (c ∷ cs) = let rest = fk_refs cs in if is_fk c.type then c.ref_table ∷ rest else rest

-- The tables that the tables of one name refer to.
abbrev pub refs : Text → List Table → List Text
refs k [] = []
refs k (t ∷ ts) = (if text_eq t.name k then fk_refs t.constraints else []) ++ refs k ts

lookup-add_refs :
    (name k : Text) (cs : List Constraint) (m : List (Text × List Text))
    → list_or_nil (lookup k (add_refs name cs m))
      ≡ list_or_nil (lookup k m) ++ (if text_eq name k then fk_refs cs else [])
unfolding add_refs
lookup-add_refs name k [] m =
    sym (append-nil _) ∙ ap (λ r. list_or_nil (lookup k m) ++ r) (ground arith)
lookup-add_refs name k (c ∷ cs) m = elim (Bool-cases (is_fk c.type)) [
  | inr plain ↦ rw plain (lookup-add_refs name k cs m)
  | inl key ↦ rw key (
      lookup-add_refs name k cs (append_to name c.ref_table m)
      ∙ rw (lookup-append_to name k c.ref_table m) (elim (Bool-cases (text_eq name k)) [
        | inl same ↦ rw same (append_assoc _ (c.ref_table ∷ []) (fk_refs cs))
        | inr other ↦ rw other (append-nil _)
      ]))
]

lookup-add_deps :
    (k : Text) (ts : List Table) (m : List (Text × List Text))
    → list_or_nil (lookup k (add_deps ts m)) ≡ list_or_nil (lookup k m) ++ refs k ts
unfolding add_deps
lookup-add_deps k [] m = sym (append-nil _)
lookup-add_deps k (t ∷ ts) m =
    lookup-add_deps k ts (add_refs t.name t.constraints m)
    ∙ rw (lookup-add_refs t.name k t.constraints m) (append_assoc _ _ (refs k ts))

deps_of-refs : (tables : List Table) (k : Text) → deps_of (graph_of tables) k ≡ refs k tables
unfolding deps_of graph_of lookup
deps_of-refs tables k = lookup-add_deps k tables []

-- A rank that falls along the foreign keys, but for those from a table to itself: there is no cycle
-- of several tables.
abbrev pub IsRanked : (Text → ℕ) → List Table → Type 0
IsRanked rank = All (λ t. All (λ d. (d ≡ t.name) ⊎ (rank d < rank t.name)) (fk_refs t.constraints))

refs-ranked :
    (rank : Text → ℕ) (k : Text) (ts : List Table)
    → IsRanked rank ts
    → All (λ d. (d ≡ k) ⊎ (rank d < rank k)) (refs k ts)
refs-ranked rank k [] h = tt
refs-ranked rank k (t ∷ ts) h = elim (Bool-cases (text_eq t.name k)) [
  | inl same ↦ rw same (
      All-append (λ d. (d ≡ k) ⊎ (rank d < rank k)) (fk_refs t.constraints) (refs k ts)
        (subst (λ n. All (λ d. (d ≡ n) ⊎ (rank d < rank n)) (fk_refs t.constraints))
          (eq_of_text_eq t.name k same) h.0)
        (refs-ranked rank k ts h.1))
  | inr other ↦ rw other (refs-ranked rank k ts h.1)
]

low-lt :
    (ts : List Table) (n : ℕ) (rank : Text → ℕ)
    → All (λ t. rank t.name ≤ n) ts
    → All (λ t. rank t.name < suc n) ts
low-lt [] n rank h = tt
low-lt (t ∷ ts) n rank h = (omega arith, low-lt ts n rank h.1)

-- If no cycle of foreign keys runs through several tables, then in the sorted list each table
-- stands behind every table of the schema that it refers to, itself left out. The dependencies
-- that the code records for a name are the foreign keys of the tables of that name.
pub topo_sort_tables-IsOrdered :
    (tables : List Table) (rank : Text → ℕ)
    → IsRanked rank tables
    → All (λ t. rank t.name ≤ length tables) tables
    → ((k : Text) → deps_of (graph_of tables) k ≡ refs k tables)
      × IsOrdered (graph_of tables) [] (topo_sort_tables tables)
unfolding topo_sort_tables flag lookup
topo_sort_tables-IsOrdered tables rank h low =
    let g = graph_of tables in
    let names = graph_of-IsNamed tables in
    let ranked = λ (k : Text).
      subst (All (λ d. (d ≡ k) ⊎ (rank d < rank k))) (sym (deps_of-refs tables k))
        (refs-ranked rank k tables h) in
    (
      deps_of-refs tables,
      (visit_tables-Inv g names rank ranked (suc (length tables)) tables initial
          (low-lt tables (length tables) rank low) (λ k. refl)
          (record { exact = record { exact = λ k. refl }; ordered = tt })).ordered,
    )
