-- ===== src/Prelude/Int.antt =====
-- Signed integers, for the fields that may be negative.
use existora2pg.Prelude.{ℕ, suc, ◌∷◌, Bool, true, false, Text, leb, ◌==◌}
use existora2pg.Prelude.Decimal

-- `negsuc n` is -(n + 1).
pub data ℤ : Type 0 where
  pos : ℕ → ℤ
  negsuc : ℕ → ℤ

-- The tests `a == n`, `a <= n` and `a > 0` against a constant that is not negative.
abbrev pub is_int : ℤ → ℕ → Bool
is_int (pos m) n = m == n
is_int (negsuc m) n = false

abbrev pub int_leb : ℤ → ℕ → Bool
int_leb (pos m) n = leb m n
int_leb (negsuc m) n = true

abbrev pub is_positive : ℤ → Bool
is_positive (pos m) = leb 1 m
is_positive (negsuc m) = false

-- `%d`
unfoldable pub show_int : ℤ → Text
unfolding Decimal.show
show_int (pos n) = Decimal.show n
show_int (negsuc n) = b'-' ∷ Decimal.show (suc n)
