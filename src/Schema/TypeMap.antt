-- ===== src/Schema/TypeMap.antt =====
-- internal/schema/typemap.go: the PostgreSQL type of an Oracle column.
pub mod Numbers
use existora2pg.Prelude.{
  ℕ, Bool, true, false, ◌&&◌, ◌||◌, Option, none, some, List, [], ◌∷◌, ◌++◌, map, Text, codes,
  text_eq, to_upper, trim_space, has_prefix, contains, if◌then◌else◌, any,
}
use existora2pg.Prelude.Int.{ℤ, pos, is_int, int_leb, is_positive, show_int}
use existora2pg.Schema.{Column, Table, Schema}

-- A `case` of the switch: the type is one of the listed names.
abbrev is_one_of : Text → List Text → Bool
is_one_of t names = any (text_eq t) names

-- `scale` defaults to 0
abbrev pub scale_of : Option ℤ → ℤ
scale_of none = pos 0
scale_of (some s) = s

-- The integer types by the number of digits, and NUMERIC for what is left.
unfoldable pub map_digits : ℤ → ℤ → Text
map_digits p s =
    if is_int s 0
    then if int_leb p 4
      then codes "SMALLINT"
      else if int_leb p 9
      then codes "INTEGER"
      else if int_leb p 18
      then codes "BIGINT"
      else codes "NUMERIC(" ++ (show_int p ++ codes ")")
    else codes "NUMERIC(" ++ (show_int p ++ (codes "," ++ (show_int s ++ codes ")")))

-- mapNumber
unfoldable pub map_number : Option ℤ → Option ℤ → Text
map_number none scale = codes "NUMERIC"
map_number (some p) scale = if is_int p 0 then codes "NUMERIC" else map_digits p (scale_of scale)

-- `VARCHAR(n)` or `CHAR(n)` for a positive length, and a fixed type otherwise.
unfoldable pub map_sized : Text → Text → Option ℤ → Text
map_sized name unsized none = unsized
map_sized name unsized (some n) =
    if is_positive n then name ++ (codes "(" ++ (show_int n ++ codes ")")) else unsized

-- `p := 6`, unless a scale is given
unfoldable pub map_timestamp : Option ℤ → Text
map_timestamp none = codes "TIMESTAMP(6)"
map_timestamp (some p) = codes "TIMESTAMP(" ++ (show_int p ++ codes ")")

-- The `default` case.
map_other : Text → Text
map_other t =
    if has_prefix t (codes "TIMESTAMP")
    then if contains t (codes "TIME ZONE") || contains t (codes "LOCAL")
      then codes "TIMESTAMPTZ"
      else codes "TIMESTAMP(6)"
    else t

-- The switch of MapOracleToPG, on the name in upper case.
unfoldable pub map_name : Text → Column → Text
unfolding map_other
map_name t col =
    if text_eq t (codes "NUMBER")
    then map_number col.precision col.scale
    else if text_eq t (codes "FLOAT")
    then codes "DOUBLE PRECISION"
    else if text_eq t (codes "BINARY_FLOAT")
    then codes "REAL"
    else if text_eq t (codes "BINARY_DOUBLE")
    then codes "DOUBLE PRECISION"
    else if is_one_of t (codes "VARCHAR2" ∷ codes "NVARCHAR2" ∷ [])
    then map_sized (codes "VARCHAR") (codes "TEXT") col.length
    else if is_one_of t (codes "CHAR" ∷ codes "NCHAR" ∷ [])
    then map_sized (codes "CHAR") (codes "CHAR(1)") col.length
    else if is_one_of t (codes "CLOB" ∷ codes "NCLOB" ∷ codes "LONG" ∷ [])
    then codes "TEXT"
    else if is_one_of t (codes "BLOB" ∷ codes "LONG RAW" ∷ [])
    then codes "BYTEA"
    else if text_eq t (codes "RAW")
    then codes "BYTEA"
    else if text_eq t (codes "DATE")
    then codes "TIMESTAMP(0)"
    else if text_eq t (codes "TIMESTAMP")
    then map_timestamp col.scale
    else if is_one_of t
        (codes "TIMESTAMP WITH TIME ZONE" ∷ codes "TIMESTAMP(6) WITH TIME ZONE" ∷ [])
    then codes "TIMESTAMPTZ"
    else if is_one_of t
        (codes "TIMESTAMP WITH LOCAL TIME ZONE" ∷ codes "TIMESTAMP(6) WITH LOCAL TIME ZONE" ∷ [])
    then codes "TIMESTAMPTZ"
    else if text_eq t (codes "INTERVAL YEAR TO MONTH")
    then codes "INTERVAL"
    else if text_eq t (codes "INTERVAL DAY TO SECOND")
    then codes "INTERVAL"
    else if text_eq t (codes "XMLTYPE")
    then codes "XML"
    else if is_one_of t (codes "ROWID" ∷ codes "UROWID" ∷ [])
    then codes "VARCHAR(18)"
    else map_other t

-- MapOracleToPG
unfoldable pub map_oracle_to_pg : Column → Text
unfolding map_name
map_oracle_to_pg col = map_name (to_upper (trim_space col.oracle_type)) col

-- The bodies of the two loops of ApplyTypeMappings.
unfoldable pub fill_column : Column → Column
fill_column c = record c { pg_type = map_oracle_to_pg c }

unfoldable pub fill_table : Table → Table
fill_table t = record t { columns = map fill_column t.columns }

-- ApplyTypeMappings
unfoldable pub apply_type_mappings : Schema → Schema
apply_type_mappings s = record s { tables = map fill_table s.tables }
