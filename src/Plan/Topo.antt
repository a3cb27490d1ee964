-- ===== src/Plan/Topo.antt =====
-- topoSortTables of internal/migration/plan.go: the tables in foreign key order.
pub mod Visit
pub mod Complete
pub mod Order
pub mod Refs
pub mod Fuel
use existora2pg.Prelude.{
  ℕ, zero, suc, Bool, true, false, Option, none, some, List, [], ◌∷◌, ◌++◌, Text, if◌then◌else◌,
  is_some, length,
}
use existora2pg.Prelude.Dict.{lookup, insert}
use existora2pg.Prelude.Groups.{list_or_nil, append_to}
use existora2pg.Schema.{Table, Constraint, ConstraintType}

-- `m[k]` of a map[string]bool
abbrev flag_or_false : Option Bool → Bool
flag_or_false none = false
flag_or_false (some b) = b

unfoldable pub flag : List (Text × Bool) → Text → Bool
unfolding lookup
flag m k = flag_or_false (lookup k m)

abbrev pub is_fk : ConstraintType → Bool
is_fk ConstraintType.fk = true
is_fk _ = false

-- `deps[t.Name] = append(deps[t.Name], c.RefTable)` for the foreign keys of a table
unfoldable pub add_refs : Text → List Constraint → List (Text × List Text) → List (Text × List Text)
unfolding append_to
add_refs name [] deps = deps
add_refs name (c ∷ cs) deps =
    add_refs name cs (if is_fk c.type then append_to name c.ref_table deps else deps)

unfoldable pub add_deps : List Table → List (Text × List Text) → List (Text × List Text)
unfolding add_refs
add_deps [] deps = deps
add_deps (t ∷ ts) deps = add_deps ts (add_refs t.name t.constraints deps)

-- `tableMap[t.Name] = t` for each table
unfoldable pub add_tables : List Table → List (Text × Table) → List (Text × Table)
add_tables [] m = m
add_tables (t ∷ ts) m = add_tables ts (insert t.name t m)

-- What the closure `visit` reads.
pub record Graph : Type 0 where
  pub deps : List (Text × List Text)
  pub table_map : List (Text × Table)

-- What it writes.
pub record Search : Type 0 where
  pub visited : List (Text × Bool)
  pub visiting : List (Text × Bool)
  pub sorted : List Table

abbrev pub option_list : Option Table → List Table
option_list none = []
option_list (some t) = t ∷ []

module _ (g : Graph) where
  -- `deps[name]`
  unfoldable pub deps_of : Text → List Text
  deps_of name = list_or_nil (lookup name g.deps)

  -- `tableMap[name]`
  unfoldable pub table_of : Text → Option Table
  table_of name = lookup name g.table_map

  abbrev pub start : Text → Search → Search
  start name st = record st { visiting = insert name true st.visiting }

  -- `visiting[name] = false`, `visited[name] = true`, and the table joins the result.
  abbrev pub finish : Text → Search → Search
  finish name st = record {
    visited = insert name true st.visited;
    visiting = insert name false st.visiting;
    sorted = st.sorted ++ option_list (table_of name);
  }

  -- The loop over the dependencies that have a table.
  unfoldable pub visit_all : (Text → Search → Search) → List Text → Search → Search
  visit_all f [] st = st
  visit_all f (d ∷ ds) st = visit_all f ds (if is_some (table_of d) then f d st else st)

  -- The closure `visit`, with the depth of its calls bounded.
  unfoldable pub visit : ℕ → Text → Search → Search
  unfolding visit_all deps_of
  visit zero name st = st
  visit (suc fuel) name st =
      let after = finish name (visit_all (visit fuel) (deps_of name) (start name st)) in
      if flag st.visited name then st else if flag st.visiting name then st else after

  -- `for _, t := range tables { visit(t.Name) }`
  unfoldable pub visit_tables : ℕ → List Table → Search → Search
  unfolding visit
  visit_tables fuel [] st = st
  visit_tables fuel (t ∷ ts) st = visit_tables fuel ts (visit fuel t.name st)

abbrev pub initial : Search
initial = record { visited = []; visiting = []; sorted = [] }

unfoldable pub graph_of : List Table → Graph
unfolding add_deps add_tables
graph_of tables = record { deps = add_deps tables []; table_map = add_tables tables [] }

-- topoSortTables: a call nests at most once for each table, and once more.
unfoldable pub topo_sort_tables : List Table → List Table
unfolding graph_of visit_tables
topo_sort_tables tables =
    (visit_tables (graph_of tables) (suc (length tables)) tables initial).sorted
