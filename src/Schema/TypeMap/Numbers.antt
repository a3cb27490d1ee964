-- ===== src/Schema/TypeMap/Numbers.antt =====
-- mapNumber of internal/schema/typemap.go and the ranges of the integer types.
use native.Mathlib.Nat.{pow-le-pow_right}
use existora2pg.Prelude.{
  ℕ, ◌^◌, ◌≤◌, ◌<◌, ◌≡◌, Option, none, some, arith, Text, codes, text_eq, if◌then◌else◌, inl, inr,
  ◌⊎◌,
}
use existora2pg.Prelude.Int.{ℤ, pos}
use existora2pg.Schema.TypeMap.{map_number, map_digits, scale_of}

-- The largest value of PostgreSQL's integer types.
abbrev pub max_of : Text → Option ℕ
max_of t =
    if text_eq t (codes "SMALLINT")
    then some 32_767
    else if text_eq t (codes "INTEGER")
    then some 2_147_483_647
    else if text_eq t (codes "BIGINT")
    then some 9_223_372_036_854_775_807
    else none

-- The type of an integer column of `p` digits, by the number of digits.
digits_cases :
    (p : ℕ)
    → (p ≤ 4) × (max_of (map_digits (pos p) (pos 0)) ≡ some 32_767)
      ⊎ (p ≤ 9) × (max_of (map_digits (pos p) (pos 0)) ≡ some 2_147_483_647)
      ⊎ (p ≤ 18) × (max_of (map_digits (pos p) (pos 0)) ≡ some 9_223_372_036_854_775_807)
      ⊎ (max_of (map_digits (pos p) (pos 0)) ≡ none)
unfolding map_digits text_eq
digits_cases p = ground arith

map_number-digits :
    (p : ℕ) (s : Option ℤ)
    → 1 ≤ p
    → scale_of s ≡ pos 0
    → map_number (some (pos p)) s ≡ map_digits (pos p) (pos 0)
unfolding map_number
map_number-digits p s h e = ground arith

-- A column NUMBER(p), p from 1, whose type is one of the integer types: the type's largest value
-- is at least every value of p decimal digits.
pub map_number_fits :
    (p v m : ℕ) (s : Option ℤ)
    → 1 ≤ p
    → scale_of s ≡ pos 0
    → v < 10 ^ p
    → max_of (map_number (some (pos p)) s) ≡ some m
    → v ≤ m
map_number_fits p v m s h e lt fits =
    let known : max_of (map_digits (pos p) (pos 0)) ≡ some m =
      rw (map_number-digits p s h e) at fits in
    elim (digits_cases p) [
      | inl (small, top) ↦ ground (arith, pow-le-pow_right {n = 10} (omega arith) small)
      | inr (inl (small, top)) ↦ ground (arith, pow-le-pow_right {n = 10} (omega arith) small)
      | inr (inr (inl (small, top))) ↦ ground (arith, pow-le-pow_right {n = 10} (omega arith) small)
      | inr (inr (inr top)) ↦ cc
    ]
