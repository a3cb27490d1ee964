-- ===== src/Examples/Cover.antt =====
-- The tasks that read a row, with conditions as Oracle reads them.
use existora2pg.Config.{TargetMode, TableOverride, no_override}
use existora2pg.Examples.Data.{employees, row}
use existora2pg.Plan.Tasks.{hash_or_single}
use existora2pg.Plan.Tasks.Cover.{selects, Evaluates, hash_or_single_exactly_one}
use existora2pg.Prelude.Decimal.{show, value_from, value-show, any-show}
use existora2pg.Prelude.{
  ℕ, zero, suc, Bool, true, false, Text, codes, [], ◌∷◌, ◌++◌, ◌≡◌, refl, ap, ◌∙◌, ◌==◌, ◌||◌, any,
  count_if, text_eq, if◌then◌else◌, arith, none, append_assoc, append-nil, ◌&&◌, sym,
}

-- The text in front of a byte, and behind it.
abbrev until : ℕ → Text → Text
until x [] = []
until x (c ∷ s) = let rest = until x s in if c == x then [] else c ∷ rest

abbrev beyond : ℕ → Text → Text
beyond x [] = []
beyond x (c ∷ s) = let rest = beyond x s in if c == x then s else rest

until-append : (x : ℕ) (s rest : Text) → any (λ b. b == x) s ≡ false → until x (s ++ x ∷ rest) ≡ s
until-append x [] rest h = ground arith
until-append x (c ∷ s) rest h = ground (arith, until-append x s rest)

until-all : (x : ℕ) (s : Text) → any (λ b. b == x) s ≡ false → until x s ≡ s
until-all x [] h = refl
until-all x (c ∷ s) h = ground (arith, until-all x s)

beyond-append :
    (x : ℕ) (s rest : Text) → any (λ b. b == x) s ≡ false → beyond x (s ++ x ∷ rest) ≡ rest
beyond-append x [] rest h = ground arith
beyond-append x (c ∷ s) rest h = ground (arith, beyond-append x s rest)

-- Without `n` bytes.
abbrev without : ℕ → Text → Text
without zero s = s
without (suc n) [] = []
without (suc n) (c ∷ s) = without n s

-- A condition on the status, which the row satisfies.
abbrev on_status : Text
on_status = codes "STATUS = 'A'"

-- The numbers of a comparison with ORA_HASH are read; what stands behind it is true of the row.
abbrev hashed_alike : Text → Bool
hashed_alike s =
    row.ora_hash (value_from 0 (until 41 s)) == value_from 0 (until 32 (without 3 (beyond 41 s)))

abbrev decides : Text → Bool
decides s = text_eq s on_status || hashed_alike (without 16 s)

decides-bucket_test :
    (m k : ℕ) (rest : Text)
    → until 32 (show k ++ rest) ≡ show k
    → hashed_alike (show m ++ (codes ") = " ++ (show k ++ rest))) ≡ row.ora_hash m == k
decides-bucket_test m k rest e =
    rw
      (
        until-append 41 (show m) (codes " = " ++ (show k ++ rest)) (any-show 41 m (omega arith)),
        beyond-append 41 (show m) (codes " = " ++ (show k ++ rest)) (any-show 41 m (omega arith)),
        e,
        value-show m,
        value-show k,
      )
      refl

conjoined_text :
    (m k : ℕ) (rest : Text)
    → (show m ++ (codes ") = " ++ show k)) ++ rest ≡ show m ++ (codes ") = " ++ (show k ++ rest))
conjoined_text m k rest = append_assoc (show m) (codes ") = " ++ show k) rest

and_true : (b : Bool) → b ≡ b && true
and_true b = ground arith

decides-Evaluates : Evaluates row decides on_status
unfolding text_eq
decides-Evaluates = record {
  compares = λ m k.
      ap (λ s. hashed_alike (show m ++ (codes ") = " ++ s))) (sym (append-nil (show k)))
      ∙ decides-bucket_test m k [] (
          ap (until 32) (append-nil (show k))
          ∙ until-all 32 (show k) (any-show 32 k (omega arith)));
  conjoins = λ m k more.
      let rest : Text = codes " AND (" ++ (on_status ++ codes ")") in
      ap hashed_alike (conjoined_text m k rest)
      ∙ decides-bucket_test m k rest (
          until-append 32 (show k) (codes "AND (" ++ (on_status ++ codes ")"))
            (any-show 32 k (omega arith)))
      ∙ and_true (row.ora_hash m == k);
}

abbrev by_status : TableOverride
by_status = record no_override { where_clause = on_status }

hash_or_single_exactly_one_example :
    count_if
      (λ task. selects row decides task.where_clause)
      (hash_or_single employees by_status TargetMode.recreate none 8)
    ≡ 1
unfolding text_eq
hash_or_single_exactly_one_example =
    hash_or_single_exactly_one row decides employees by_status TargetMode.recreate none
      decides-Evaluates 8 (omega arith)
