-- ===== src/Examples/Names.antt =====
-- The theorems on names, keys, bounds, types and settings at concrete inputs.
use existora2pg.PlSql.{split_top_level}
use existora2pg.PlSql.Arguments.{split_top_level-join, is_closed}
use existora2pg.Ddl.{qualified_name}
use existora2pg.Prelude.{true, All, join, ◌∷◌, refl, ◌++◌, [], some, codes, text_eq, ◌≡◌}
use existora2pg.Ddl.Idents.{read_name-qualified_name, read_name}

read_name-qualified_name_example :
    read_name (qualified_name (codes "hr") (codes "emp") ++ codes ";")
    ≡ some (some (codes "hr"), codes "emp", codes ";")
unfolding text_eq
read_name-qualified_name_example =
    read_name-qualified_name (codes "hr") (codes "emp") (codes ";") refl refl

split_top_level-join_example :
    split_top_level (codes "a,NVL(b, 0),c") (b',') ≡ codes "a" ∷ codes "NVL(b, 0)" ∷ codes "c" ∷ []
unfolding join is_closed
split_top_level-join_example =
    split_top_level-join (b',') (codes "a") (codes "NVL(b, 0)" ∷ codes "c" ∷ []) refl refl closed
  where
    closed : All (λ s. is_closed (b',') 0 s ≡ true) (codes "a" ∷ codes "NVL(b, 0)" ∷ codes "c" ∷ [])
    closed = (refl, (refl, (refl, tt)))
