-- ===== src/Plan/Topo/Complete.antt =====
-- topoSortTables of internal/migration/plan.go: which tables the result holds.
use existora2pg.Prelude.{
  any, All, Option-cases, ℕ, zero, suc, ◌≡◌, refl, ◌∙◌, subst, Bool, true, false, none, some, List,
  [], ◌∷◌, ◌++◌, append-nil, Text, text_eq, text_eq_iff, text_eq_refl, eq_of_text_eq, if◌then◌else◌,
  is_some, arith, inl, inr, Bool-cases, select, length,
}
use existora2pg.Prelude.Dict.{lookup, insert, lookup-insert}
use existora2pg.Schema.{Table}
use existora2pg.Plan.Topo.{
  Graph, Search, flag, deps_of, table_of, start, finish, visit_all, visit, option_list, initial,
  graph_of, topo_sort_tables, visit_tables, add_tables,
}
use existora2pg.Plan.Topo.Visit.{
  Extends-trans, Extends-refl, Extends, flag-insert, visit_all-Extends, visit-Extends,
}

abbrev pub named : Text → List Table → List Table
named k = select (λ t. text_eq t.name k)

-- The table map holds each table under its name.
abbrev pub IsNamed : List (Text × Table) → Type 0
IsNamed m = (k : Text) (t : Table) → lookup k m ≡ some t → t.name ≡ k

named-append : (k : Text) (xs ys : List Table) → named k (xs ++ ys) ≡ named k xs ++ named k ys
named-append k [] ys = refl
named-append k (x ∷ xs) ys = ground (arith, named-append k xs ys)

module _ (g : Graph) (names : IsNamed g.table_map) where
  -- The result holds, for each visited name, the table of that name and no other.
  pub record IsExact (st : Search) : Type 0 where
    pub exact :
        (k : Text)
        → named k st.sorted ≡ (if flag st.visited k then option_list (table_of g k) else [])

  named-found :
      (name k : Text)
      → named k (option_list (table_of g name))
        ≡ (if text_eq name k then option_list (table_of g k) else [])
  unfolding table_of
  named-found name k = elim (Option-cases (lookup name g.table_map)) [
    | inl absent ↦ ground (arith, text_eq_iff name k)
    | inr (t, found) ↦ ground (arith, text_eq_iff name k, names name t found)
  ]

  finish-IsExact :
      (name : Text) (st : Search)
      → flag st.visited name ≡ false
      → IsExact st
      → IsExact (finish g name st)
  finish-IsExact name st unseen h = record {
    exact = λ k.
        named-append k st.sorted (option_list (table_of g name))
        ∙ ground (
          arith,
          named-found name k,
          flag-insert name k true st.visited,
          h.exact k,
          text_eq_iff name k,
          append-nil (named k st.sorted),
        );
  }

  pub visit_all-IsExact :
      (f : Text → Search → Search) (ds : List Text) (st : Search)
      → ((d : Text) (s : Search) → IsExact s → IsExact (f d s))
      → IsExact st
      → IsExact (visit_all g f ds st)
  unfolding visit_all
  visit_all-IsExact f [] st step h = h
  visit_all-IsExact f (d ∷ ds) st step h = elim (Bool-cases (is_some (table_of g d))) [
    | inl there ↦ rw there (visit_all-IsExact f ds (f d st) step (step d st h))
    | inr absent ↦ rw absent (visit_all-IsExact f ds st step h)
  ]

  pub visit-IsExact :
      (fuel : ℕ) (name : Text) (st : Search) → IsExact st → IsExact (visit g fuel name st)
  unfolding visit
  visit-IsExact zero name st h = h
  visit-IsExact (suc fuel) name st h = elim (Bool-cases (flag st.visited name)) [
    | inl seen ↦ rw seen h
    | inr unseen ↦ elim (Bool-cases (flag st.visiting name)) [
      | inl active ↦ rw (unseen, active) h
      | inr fresh ↦
          let inner =
            visit_all-Extends g (visit g fuel) (deps_of g name) (start g name st)
              (visit-Extends g fuel) in
          let mark : flag (insert name true st.visiting) name ≡ true =
            flag-insert name name true st.visiting ∙ rw (text_eq_refl name) in
          rw (unseen, fresh)
            (finish-IsExact name (visit_all g (visit g fuel) (deps_of g name) (start g name st))
              (inner.holds name mark ∙ unseen)
              (visit_all-IsExact (visit g fuel) (deps_of g name) (start g name st)
                (visit-IsExact fuel) (record { exact = h.exact })))
    ]
  ]

add_tables-IsNamed :
    (ts : List Table) (m : List (Text × Table)) → IsNamed m → IsNamed (add_tables ts m)
unfolding add_tables
add_tables-IsNamed [] m h = h
add_tables-IsNamed (t ∷ ts) m h =
    add_tables-IsNamed ts (insert t.name t m)
      λ k u e. ground (arith, lookup-insert t.name k t m, text_eq_iff t.name k, h k u)

pub graph_of-IsNamed : (tables : List Table) → IsNamed (graph_of tables).table_map
unfolding graph_of lookup
graph_of-IsNamed tables = add_tables-IsNamed tables [] λ k t e. cc

abbrev pub has_name : Text → List Table → Bool
has_name k = any (λ t. text_eq t.name k)

lookup-add_tables :
    (k : Text) (ts : List Table) (m : List (Text × Table))
    → has_name k ts ≡ false
    → lookup k (add_tables ts m) ≡ lookup k m
unfolding add_tables
lookup-add_tables k [] m h = refl
lookup-add_tables k (t ∷ ts) m h =
    ground (arith, lookup-add_tables k ts (insert t.name t m), lookup-insert t.name k t m)

abbrev IsQuiet : Search → Type 0
IsQuiet st = (k : Text) → flag st.visiting k ≡ false

abbrev pub IsVisited : Search → Text → Type 0
IsVisited st k = flag st.visited k ≡ true

pub IsVisited-of_visit :
    (g : Graph) (fuel : ℕ) (name : Text) (st : Search)
    → flag st.visiting name ≡ false
    → IsVisited (visit g (suc fuel) name st) name
unfolding visit
IsVisited-of_visit g fuel name st quiet = elim (Bool-cases (flag st.visited name)) [
  | inl seen ↦ rw seen seen
  | inr unseen ↦ rw (unseen, quiet) (flag-insert name name true _ ∙ rw (text_eq_refl name))
]

IsVisited-of_has_name :
    (k : Text) (ts : List Table) (st : Search)
    → All (λ t. IsVisited st t.name) ts
    → has_name k ts ≡ true
    → IsVisited st k
IsVisited-of_has_name k [] st a h = cc
IsVisited-of_has_name k (t ∷ ts) st a h = elim (Bool-cases (text_eq t.name k)) [
  | inl same ↦ subst (IsVisited st) (eq_of_text_eq t.name k same) a.0
  | inr other ↦ IsVisited-of_has_name k ts st a.1 (ground arith)
]

All-IsVisited_mono :
    (ts : List Table) (st st' : Search)
    → Extends st st'
    → All (λ t. IsVisited st t.name) ts
    → All (λ t. IsVisited st' t.name) ts
All-IsVisited_mono [] st st' e a = tt
All-IsVisited_mono (t ∷ ts) st st' e a = (e.keeps t.name a.0, All-IsVisited_mono ts st st' e a.1)

module _ (g : Graph) where
  pub visit_tables-Extends :
      (fuel : ℕ) (ts : List Table) (st : Search) → Extends st (visit_tables g fuel ts st)
  unfolding visit_tables
  visit_tables-Extends fuel [] st = Extends-refl st
  visit_tables-Extends fuel (t ∷ ts) st =
      Extends-trans (visit-Extends g fuel t.name st)
        (visit_tables-Extends fuel ts (visit g fuel t.name st))

  pub visit_tables-IsVisited :
      (fuel : ℕ) (ts : List Table) (st : Search)
      → IsQuiet st
      → All (λ t. IsVisited (visit_tables g (suc fuel) ts st) t.name) ts
  unfolding visit_tables
  visit_tables-IsVisited fuel [] st quiet = tt
  visit_tables-IsVisited fuel (t ∷ ts) st quiet =
      let next = visit g (suc fuel) t.name st in
      let e = visit-Extends g (suc fuel) t.name st in
      (
        (visit_tables-Extends (suc fuel) ts next).keeps t.name
            (IsVisited-of_visit g fuel t.name st (quiet t.name)),
        visit_tables-IsVisited fuel ts next (λ k. e.same_visiting k ∙ quiet k),
      )

  pub visit_tables-IsExact :
      (names : IsNamed g.table_map) (fuel : ℕ) (ts : List Table) (st : Search)
      → IsExact g names st
      → IsExact g names (visit_tables g fuel ts st)
  unfolding visit_tables
  visit_tables-IsExact names fuel [] st h = h
  visit_tables-IsExact names fuel (t ∷ ts) st h =
      visit_tables-IsExact names fuel ts (visit g fuel t.name st)
        (visit-IsExact g names fuel t.name st h)

pub table_of-none :
    (tables : List Table) (k : Text)
    → has_name k tables ≡ false
    → table_of (graph_of tables) k ≡ none
unfolding table_of graph_of lookup
table_of-none tables k absent = lookup-add_tables k tables [] absent

named-sorted :
    (tables : List Table) (k : Text)
    → named k (topo_sort_tables tables) ≡ option_list (table_of (graph_of tables) k)
unfolding topo_sort_tables table_of flag lookup
named-sorted tables k =
    let g = graph_of tables in
    let names = graph_of-IsNamed tables in
    let end = visit_tables g (suc (length tables)) tables initial in
    let e =
      (visit_tables-IsExact g names (suc (length tables)) tables initial
          (record { exact = λ j. refl })).exact
        k in
    let seen = visit_tables-IsVisited g (length tables) tables initial (λ j. refl) in
    elim (Bool-cases (has_name k tables)) [
      | inl there ↦ e ∙ rw (IsVisited-of_has_name k tables end seen there)
      | inr absent ↦ e ∙ rw (table_of-none tables k absent) (ground arith)
    ]

-- No two tables have one name, as in a schema.
abbrev pub IsUnique : List Table → Type 0
IsUnique [] = Unit
IsUnique (t ∷ ts) = (has_name t.name ts ≡ false) × IsUnique ts

named_none : (k : Text) (ts : List Table) → has_name k ts ≡ false → named k ts ≡ []
named_none k [] h = refl
named_none k (t ∷ ts) h = ground (arith, named_none k ts)

option_list-add_tables :
    (k : Text) (ts : List Table) (m : List (Text × Table))
    → IsUnique ts
    → option_list (lookup k (add_tables ts m))
      ≡ (if has_name k ts then named k ts else option_list (lookup k m))
unfolding add_tables
option_list-add_tables k [] m u = refl
option_list-add_tables k (t ∷ ts) m u = ground (
  arith,
  option_list-add_tables k ts (insert t.name t m) u.1,
  lookup-insert t.name k t m,
  named_none k ts,
  text_eq_iff t.name k,
)

table_of_unique :
    (tables : List Table) (k : Text)
    → IsUnique tables
    → option_list (table_of (graph_of tables) k) ≡ named k tables
unfolding table_of graph_of lookup
table_of_unique tables k u =
    option_list-add_tables k tables [] u ∙ elim (Bool-cases (has_name k tables)) [
      | inl there ↦ rw there
      | inr absent ↦ rw (absent, named_none k tables absent)
    ]

-- For tables of different names the sorted list holds the same tables, each once: none is lost and
-- none stands twice, also where the foreign keys form cycles.
pub named-topo_sort_tables :
    (tables : List Table) (k : Text)
    → IsUnique tables
    → named k (topo_sort_tables tables) ≡ named k tables
named-topo_sort_tables tables k u = named-sorted tables k ∙ table_of_unique tables k u
