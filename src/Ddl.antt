-- ===== src/Ddl.antt =====
-- internal/postgres/ddl.go: the names and the statements that create the target tables.
pub mod Idents
pub mod Statements
use existora2pg.Schema.{Table}
use existora2pg.Prelude.Dict.{lookup}
use existora2pg.Prelude.{
  Text, codes, List, [], ◌∷◌, ◌++◌, map, join, text_eq, is_nil, to_upper, to_lower, Option, none,
  some, if◌then◌else◌, ◌||◌, ◌==◌,
}

pub record NamingConfig : Type 0 where
  pub convention : Text
  pub type_overrides : List (Text × Text)
  pub name_overrides : List (Text × Text)

-- DefaultNaming
abbrev pub default_naming : NamingConfig
default_naming = record { convention = codes "lowercase"; type_overrides = []; name_overrides = [] }

-- What is found in a map, or another text.
abbrev pub found_or : Text → Option Text → Text
found_or other none = other
found_or other (some t) = t

-- strings.ReplaceAll(name, `"`, `""`)
unfoldable pub double_quotes : Text → Text
double_quotes [] = []
double_quotes (c ∷ s) =
    let rest = double_quotes s in if c == b'"' then b'"' ∷ b'"' ∷ rest else c ∷ rest

-- quoteIdent
unfoldable pub quote_ident : Text → Text
unfolding double_quotes
quote_ident name = b'"' ∷ (double_quotes name ++ b'"' ∷ [])

-- qualifiedName
unfoldable pub qualified_name : Text → Text → Text
unfolding quote_ident
qualified_name pg_schema name =
    if is_nil pg_schema || text_eq pg_schema (codes "public")
    then quote_ident name
    else quote_ident pg_schema ++ (b'.' ∷ quote_ident name)

module _ (nc : NamingConfig) where
  -- The convention alone.
  abbrev pub by_convention : Text → Text
  by_convention name =
      if text_eq nc.convention (codes "uppercase")
      then to_upper name
      else if text_eq nc.convention (codes "keep_original")
      then name
      else to_lower name

  -- convertName
  unfoldable pub convert_name : Text → Text
  convert_name name = found_or (by_convention name) (lookup name nc.name_overrides)

  -- convertTableName
  unfoldable pub convert_table_name : Text → Text
  unfolding convert_name
  convert_table_name name = found_or (convert_name name) (lookup name nc.name_overrides)

  -- `tableName + "." + colName`
  abbrev pub column_key : Text → Text → Text
  column_key table col = table ++ (b'.' ∷ col)

  -- convertColumnName
  unfoldable pub convert_column_name : Text → Text → Text
  unfolding convert_name quote_ident
  convert_column_name table col =
      quote_ident (found_or (convert_name col) (lookup (column_key table col) nc.name_overrides))

  -- getColumnType
  unfoldable pub get_column_type : Text → Text → Text → Text
  get_column_type table col default =
      found_or default (lookup (column_key table col) nc.type_overrides)

  -- convertColumnsJoin
  unfoldable pub convert_columns_join : Text → List Text → Text
  unfolding convert_column_name
  convert_columns_join table cols = join (codes ", ") (map (convert_column_name table) cols)
