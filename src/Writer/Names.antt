-- ===== src/Writer/Names.antt =====
-- The names of the child tables of partitions: BuildPartitionBounds of internal/migration/engine.go
-- makes them up, and internal/postgres/writer.go converts them and makes them up again for COPY.
use existora2pg.Ddl.{quote_ident, qualified_name, convert_name, convert_table_name}
use existora2pg.Engine.{
  bound_name, list_bound, range_bound, range_bounds, bounds_of, build_partition_bounds,
}
use existora2pg.Plan.HighValue.{parse_high_value}
use existora2pg.Prelude.Dict.{lookup}
use existora2pg.Schema.{Table, Partition, PartitionInfo, partitions_of}
use existora2pg.Writer.{Writer, partition_table, target_name, target_table_ident, target_table}
use existora2pg.Ddl.Statements.{
  concat, is_default, partition_statement, generate_partition_ddl, PartitionBound,
}
use existora2pg.Prelude.Letters.{to_lower-joined, to_upper-joined, to_lower-eq_of_prefix}
use existora2pg.Prelude.{
  subst, sym, ◌∙◌, ◌++◌, append_assoc, not, is_nil, if◌then◌else◌, false, Text, codes, List, [],
  ◌∷◌, map, join, Option, none, some, ◌≡◌, ◌≢◌, refl, ap, arith, to_lower, text_eq, Bool-cases, inl,
  inr,
}

-- The name that COPY is given and the name in other statements are of the same table: the parts of
-- the one, quoted and joined by a dot, are the other.
pub target_table-target_table_ident :
    (w : Writer) (t : Table) (part : Option Partition)
    → join (codes ".") (map quote_ident (target_table_ident w t part)) ≡ target_table w t part
unfolding target_table target_table_ident qualified_name join
target_table-target_table_ident w t part = ground arith

-- With a convention that changes the case of all letters, and no overrides, the name that
-- BuildPartitionBounds makes up becomes the one that COPY uses.
convert_name-bound_name :
    (w : Writer) (t : Table) (p : Partition)
    → w.naming.name_overrides ≡ []
    → text_eq w.naming.convention (codes "keep_original") ≡ false
    → convert_name w.naming (bound_name t p) ≡ partition_table w t.name p.name
unfolding convert_name convert_table_name partition_table lookup
convert_name-bound_name w t p plain folds =
    rw (plain, folds)
      (elim (Bool-cases (text_eq w.naming.convention (codes "uppercase"))) [
        | inl upper ↦ rw upper (to_upper-joined t.name p.name)
        | inr lower ↦ rw lower (to_lower-joined t.name p.name)
      ])

-- The name that COPY uses for the rows of a partition, written out.
abbrev pub copied_to : Writer → Table → Partition → Text
copied_to w t p = join (codes ".") (map quote_ident (target_table_ident w t (some p)))

-- A statement that creates a partition under the given name.
abbrev pub Creates : Text → Text → Type 0
Creates name ddl =
    (rest : Text) × (ddl ≡ codes "CREATE TABLE " ++ (name ++ (codes " PARTITION OF " ++ rest)))

-- One statement for each partition, which creates the table that its rows are copied to.
abbrev pub CreateTargets : Writer → Table → List Partition → List Text → Type 0
CreateTargets w t [] [] = Unit
CreateTargets w t [] (ddl ∷ ddls) = ⊥
CreateTargets w t (p ∷ ps) [] = ⊥
CreateTargets w t (p ∷ ps) (ddl ∷ ddls) = Creates (copied_to w t p) ddl × CreateTargets w t ps ddls

if_any :
    (w : Writer) (t : Table) (ps : List Partition) (ddls : List Text)
    → CreateTargets w t ps ddls
    → CreateTargets w t ps (if not (is_nil ps) then ddls else [])
if_any w t [] ddls h = tt
if_any w t (p ∷ ps) ddls h = h

start_assoc :
    (q n x : Text)
    → concat (codes "CREATE TABLE " ∷ q ∷ codes " PARTITION OF " ∷ n ∷ []) ++ x
      ≡ codes "CREATE TABLE " ++ (q ++ (codes " PARTITION OF " ++ ((n ++ []) ++ x)))
start_assoc q n x =
    ap (λ r. codes "CREATE TABLE " ++ r) (append_assoc q (codes " PARTITION OF " ++ (n ++ [])) x)

partition_statement-Creates :
    (w : Writer) (t : Table) (pb : PartitionBound)
    → Creates
        (qualified_name w.pg_schema (convert_name w.naming pb.name))
        (partition_statement w.pg_schema w.naming t pb)
unfolding partition_statement
partition_statement-Creates w t pb =
    let q = qualified_name w.pg_schema (convert_name w.naming pb.name) in
    let n = qualified_name w.pg_schema (convert_table_name w.naming t.name) in
    elim (Bool-cases (text_eq pb.strategy (codes "LIST"))) [
      | inl list ↦ elim (Bool-cases (is_default pb.values)) [
        | inl other ↦ rw (list, other) (_, start_assoc q n _)
        | inr values ↦ rw (list, values) (_, start_assoc q n _)
      ]
      | inr range ↦ rw range (_, start_assoc q n _)
    ]

module _ (w : Writer) (plain : w.naming.name_overrides ≡ []) where
  module _ (folds : text_eq w.naming.convention (codes "keep_original") ≡ false) where
    named_alike :
        (t : Table) (p : Partition)
        → qualified_name w.pg_schema (convert_name w.naming (bound_name t p)) ≡ copied_to w t p
    unfolding target_table target_name partition_table
    named_alike t p =
        ap (qualified_name w.pg_schema) (convert_name-bound_name w t p plain folds)
        ∙ sym (target_table-target_table_ident w t (some p))

    Creates-bound :
        (t : Table) (p : Partition) (pb : PartitionBound)
        → pb.name ≡ bound_name t p
        → Creates (copied_to w t p) (partition_statement w.pg_schema w.naming t pb)
    Creates-bound t p pb e =
        subst (λ n. Creates n (partition_statement w.pg_schema w.naming t pb))
          (ap (λ n. qualified_name w.pg_schema (convert_name w.naming n)) e ∙ named_alike t p)
          (partition_statement-Creates w t pb)

    CreateTargets-list_bound :
        (t : Table) (strategy : Text) (ps : List Partition)
        → CreateTargets w t ps
            (map (partition_statement w.pg_schema w.naming t) (map (list_bound t strategy) ps))
    CreateTargets-list_bound t strategy [] = tt
    CreateTargets-list_bound t strategy (p ∷ ps) = (
      Creates-bound t p (list_bound t strategy p) (unfold list_bound in refl),
      CreateTargets-list_bound t strategy ps,
    )

    CreateTargets-range_bounds :
        (t : Table) (strategy lower : Text) (ps : List Partition)
        → CreateTargets w t ps
            (map (partition_statement w.pg_schema w.naming t) (range_bounds t strategy lower ps))
    CreateTargets-range_bounds t strategy lower [] = tt
    CreateTargets-range_bounds t strategy lower (p ∷ ps) = (
      Creates-bound t p (range_bound t strategy lower p) refl,
      CreateTargets-range_bounds t strategy (parse_high_value p.high_value) ps,
    )

    CreateTargets-bounds_of :
        (t : Table) (info : PartitionInfo)
        → CreateTargets w t info.partitions
            (map (partition_statement w.pg_schema w.naming t) (bounds_of t (some info)))
    unfolding bounds_of
    CreateTargets-bounds_of t info = elim (Bool-cases (text_eq info.strategy (codes "LIST"))) [
      | inl list ↦ rw list (CreateTargets-list_bound t info.strategy info.partitions)
      | inr range ↦
          rw range (CreateTargets-range_bounds t info.strategy (codes "MINVALUE") info.partitions)
    ]

    -- With a convention that changes the case of all letters, and no overrides, the statements that
    -- are generated for the partitions of a table are, one for one and in their order, statements
    -- that create the tables that the rows of its partitions are copied to: the name behind CREATE
    -- TABLE is the schema and the name that COPY is given, quoted. There is no other statement.
    pub generate_partition_ddl-CreateTargets :
        (t : Table)
        → CreateTargets w t
            (partitions_of t.partitioning)
            (generate_partition_ddl w.pg_schema w.naming t (build_partition_bounds t))
    unfolding generate_partition_ddl build_partition_bounds bounds_of
    generate_partition_ddl-CreateTargets t = of_info t.partitioning
      where
        of_info :
            (o : Option PartitionInfo)
            → CreateTargets w t (partitions_of o) (
                if not (is_nil (partitions_of o))
                then map (partition_statement w.pg_schema w.naming t) (bounds_of t o)
                else [])
        of_info none = tt
        of_info (some info) = if_any w t info.partitions _ (CreateTargets-bounds_of t info)

  -- With keep_original, and no overrides, no partition of a table whose name is not in lower case
  -- is copied to the child table that was created for it: the name that is created has the table's
  -- name in lower case, the other one as it is.
  pub convert_name-partition_table_differ :
      (t : Table) (p : Partition)
      → w.naming.convention ≡ codes "keep_original"
      → to_lower t.name ≢ t.name
      → convert_name w.naming (bound_name t p) ≢ partition_table w t.name p.name
  unfolding convert_name convert_table_name partition_table lookup text_eq
  convert_name-partition_table_differ t p kept mixed e =
      mixed (to_lower-eq_of_prefix t.name _ _ (rw (plain, kept) at e))
