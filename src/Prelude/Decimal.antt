-- ===== src/Prelude/Decimal.antt =====
-- The `%d` of fmt, and what it prints read back.
use existora2pg.Prelude.{
  ℕ, zero, suc, ◌+◌, ◌-◌, ◌*◌, ◌/◌, ◌%◌, ◌<◌, ◌≡◌, refl, ap, sym, ◌∙◌, [], ◌∷◌, ◌++◌, arith, Text,
  any, false, ◌==◌, ◌||◌, ltb, if◌then◌else◌, codes, inl, inr, Bool-cases,
}

-- The digits of `n`, the last one last; `n + 1` rounds are enough.
digits : ℕ → ℕ → Text
digits zero n = []
digits (suc fuel) n =
    let rest = digits fuel (n / 10) in
    if ltb n 10 then (b'0' + n) ∷ [] else rest ++ (b'0' + n % 10) ∷ []

unfoldable pub show : ℕ → Text
unfolding digits
show n = digits (suc n) n

-- The number that a text of digits stands for.
unfoldable pub value_from : ℕ → Text → ℕ
value_from acc [] = acc
value_from acc (c ∷ s) = value_from (acc * 10 + (c - b'0')) s

value_from-snoc :
    (acc c : ℕ) (s : Text) → value_from acc (s ++ c ∷ []) ≡ value_from acc s * 10 + (c - b'0')
unfolding value_from
value_from-snoc acc c [] = refl
value_from-snoc acc c (d ∷ s) = value_from-snoc (acc * 10 + (d - b'0')) c s

value-digits : (fuel n : ℕ) → n < fuel → value_from 0 (digits fuel n) ≡ n
unfolding value_from digits
value-digits zero n h = elim h [ ]
value-digits (suc fuel) n h = elim (Bool-cases (ltb n 10)) [
  | inl small ↦ rw small (omega arith)
  | inr big ↦ rw big (
      value_from-snoc 0 (b'0' + n % 10) (digits fuel (n / 10))
      ∙ ground (arith, value-digits fuel (n / 10)))
]

pub value-show : (n : ℕ) → value_from 0 (show n) ≡ n
unfolding show
value-show n = value-digits (suc n) n (omega arith)

any-snoc : (x c : ℕ) (s : Text) → any (λ b. b == x) (s ++ c ∷ []) ≡ any (λ b. b == x) s || c == x
any-snoc x c [] = ground arith
any-snoc x c (d ∷ s) = ground (arith, any-snoc x c s)

any-digits : (x fuel n : ℕ) → x < b'0' → any (λ b. b == x) (digits fuel n) ≡ false
unfolding digits
any-digits x zero n h = refl
any-digits x (suc fuel) n h =
    ground (arith, any-snoc x (b'0' + n % 10) (digits fuel (n / 10)), any-digits x fuel (n / 10))

-- Only digits are printed.
pub any-show : (x n : ℕ) → x < b'0' → any (λ b. b == x) (show n) ≡ false
unfolding show
any-show x n h = any-digits x (suc n) n h

-- Two numbers that print alike are equal.
pub show-injective : (m n : ℕ) → show m ≡ show n → m ≡ n
unfolding show
show-injective m n e =
    sym (value-digits (suc m) m (omega arith))
    ∙ ap (value_from 0) e
    ∙ value-digits (suc n) n (omega arith)

show_sample : show 4096 ≡ codes "4096"
unfolding show
show_sample = refl
