-- ===== src/PlSql.antt =====
-- The splitting of arguments in internal/plsql/convert.go, and what convertDECODEOnce makes of the
-- arguments of a DECODE. The expressions that find a DECODE are left out.
pub mod Arguments
use existora2pg.Prelude.Int.{ℤ, pos, negsuc, is_int}
use existora2pg.Prelude.{
  ℕ, zero, suc, ◌==◌, ◌&&◌, Bool, true, false, Text, codes, List, [], ◌∷◌, ◌++◌, Option, none, some,
  if◌then◌else◌, onto_first, trim_space,
}

-- `depth++` and `depth--`
abbrev pub deeper : ℤ → ℤ
deeper (pos n) = pos (suc n)
deeper (negsuc zero) = pos 0
deeper (negsuc (suc n)) = negsuc n

abbrev pub shallower : ℤ → ℤ
shallower (pos zero) = negsuc 0
shallower (pos (suc n)) = pos n
shallower (negsuc n) = negsuc (suc n)

-- The loop of splitTopLevel, at a depth.
unfoldable pub split_at_depth : ℕ → ℤ → Text → List Text
split_at_depth sep depth [] = [] ∷ []
split_at_depth sep depth (c ∷ s) =
    let inside = onto_first c (split_at_depth sep (deeper depth) s) in
    let outside = onto_first c (split_at_depth sep (shallower depth) s) in
    let rest = split_at_depth sep depth s in
    if c == b'('
    then inside
    else if c == b')'
    then outside
    else if c == sep && is_int depth 0
    then [] ∷ rest
    else onto_first c rest

-- splitTopLevel
unfoldable pub split_top_level : Text → ℕ → List Text
unfolding split_at_depth
split_top_level s sep = split_at_depth sep (pos 0) s

-- The loop that writes the branches of a CASE.
unfoldable pub case_branches : List Text → Text
unfolding trim_space
case_branches [] = []
case_branches (a ∷ []) = codes " ELSE " ++ trim_space a
case_branches (a ∷ b ∷ rest) =
    codes " WHEN " ++ (trim_space a ++ (codes " THEN " ++ (trim_space b ++ case_branches rest)))

-- The CASE expression for the arguments of a DECODE; `none` where there are less than three, and the
-- text stays as it is.
unfoldable pub case_of : List Text → Option Text
unfolding case_branches
case_of (a ∷ b ∷ c ∷ rest) =
    some (codes "CASE " ++ (trim_space a ++ (case_branches (b ∷ c ∷ rest) ++ codes " END")))
case_of _ = none

-- The text between the parentheses of a DECODE as a CASE expression.
unfoldable pub decode_to_case : Text → Option Text
unfolding split_top_level case_of
decode_to_case inner = case_of (split_top_level inner (b','))
