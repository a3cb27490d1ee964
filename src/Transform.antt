-- ===== src/Transform.antt =====
-- internal/transform/transform.go: the values of a row between Oracle and PostgreSQL.
pub mod Clean
use existora2pg.Schema.{Column}
use existora2pg.Prelude.{ℕ, Text, List, [], ◌∷◌, Option, none, some, if◌then◌else◌, is_nil}

-- A value as the driver hands it over; `other` stands for the values of all other Go types.
pub data Value : Type 0 where
  null : Value
  text : Text → Value
  bytes : List ℕ → Value
  other : ℕ → Value

-- TransformValue, which does not look at the column.
unfoldable pub transform_value : Value → Column → Value
transform_value null col = null
transform_value (text s) col = if is_nil s then null else text s
transform_value (bytes b) col = if is_nil b then null else bytes b
transform_value (other n) col = other n

abbrev pub put_front : Value → Option (List Value) → Option (List Value)
put_front v none = none
put_front v (some row) = some (v ∷ row)

-- TransformRowInline. A value that is not NULL and has no column is an index out of range, which
-- is `none`.
unfoldable pub transform_row : List Value → List Column → Option (List Value)
unfolding transform_value
transform_row [] cols = some []
transform_row (null ∷ row) [] = put_front null (transform_row row [])
transform_row (text s ∷ row) [] = none
transform_row (bytes b ∷ row) [] = none
transform_row (other n ∷ row) [] = none
transform_row (v ∷ row) (c ∷ cols) = put_front (transform_value v c) (transform_row row cols)
