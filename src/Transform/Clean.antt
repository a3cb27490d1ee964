-- ===== src/Transform/Clean.antt =====
-- What internal/transform/transform.go leaves in a row.
use existora2pg.Schema.{Column}
use existora2pg.Transform.{
  Value, null, text, bytes, other, transform_value, put_front, transform_row,
}
use existora2pg.Prelude.{◌≤◌, ◌≡◌, refl, ◌∙◌, arith, List, [], ◌∷◌, some, length, map}

-- Oracle's view of a value: an empty text and empty bytes are NULL.
abbrev pub as_oracle : Value → Value
as_oracle null = null
as_oracle (text []) = null
as_oracle (text (c ∷ s)) = text (c ∷ s)
as_oracle (bytes []) = null
as_oracle (bytes (c ∷ s)) = bytes (c ∷ s)
as_oracle (other n) = other n

transform_value-as_oracle : (v : Value) (c : Column) → transform_value v c ≡ as_oracle v
unfolding transform_value
transform_value-as_oracle null c = refl
transform_value-as_oracle (text []) c = refl
transform_value-as_oracle (text (x ∷ s)) c = refl
transform_value-as_oracle (bytes []) c = refl
transform_value-as_oracle (bytes (x ∷ s)) c = refl
transform_value-as_oracle (other n) c = refl

transform_row-cons :
    (v : Value) (row : List Value) (c : Column) (cols : List Column)
    → transform_row (v ∷ row) (c ∷ cols) ≡ put_front (transform_value v c) (transform_row row cols)
unfolding transform_row
transform_row-cons null row c cols = refl
transform_row-cons (text s) row c cols = refl
transform_row-cons (bytes b) row c cols = refl
transform_row-cons (other n) row c cols = refl

-- A row that is not wider than the table is transformed without a fault: each value keeps its
-- place, an empty text and empty bytes become NULL, and every other value stays as it is.
pub transform_row_lem :
    (row : List Value) (cols : List Column)
    → length row ≤ length cols
    → transform_row row cols ≡ some (map as_oracle row)
unfolding transform_row
transform_row_lem [] cols h = refl
transform_row_lem (v ∷ row) [] h = absurd (omega arith)
transform_row_lem (v ∷ row) (c ∷ cols) h =
    transform_row-cons v row c cols
    ∙ rw (transform_row_lem row cols (omega arith), transform_value-as_oracle v c) refl
