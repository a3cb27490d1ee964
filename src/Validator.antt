-- ===== src/Validator.antt =====
-- internal/validate/validator.go: the comparison of the row counts of a table. The two counters are
-- arguments, with the text of an error in place of a count.
pub mod Verdict
use existora2pg.Prelude.{[], ℕ, Bool, true, false, Text, codes, ◌++◌, Option, none, some, ◌==◌}

-- What a counter answers.
pub data CountAnswer : Type 0 where
  counted : ℕ → CountAnswer
  failed : Text → CountAnswer

pub record Result : Type 0 where
  pub table_name : Text
  pub oracle_count : ℕ
  pub pg_count : ℕ
  pub is_match : Bool
  pub error : Text

abbrev pub new_result : Text → Result
new_result table = record {
  table_name = table;
  oracle_count = 0;
  pg_count = 0;
  is_match = false;
  error = [];
}

-- OracleCounter and PGCounter.
pub record Counters : Type 0 where
  pub oracle : Text → Text → Text → CountAnswer
  pub pg : Text → CountAnswer

abbrev pub compare_pg : Result → ℕ → CountAnswer → Result × Option Text
compare_pg r n (failed e) = (record r { oracle_count = n; error = codes "pg count: " ++ e }, some e)
compare_pg r n (counted m) = (record r { oracle_count = n; pg_count = m; is_match = n == m }, none)

abbrev pub compare_oracle : Counters → Text → Result → CountAnswer → Result × Option Text
compare_oracle c table r (failed e) = (record r { error = codes "oracle count: " ++ e }, some e)
compare_oracle c table r (counted n) = compare_pg r n (c.pg table)

-- ValidateRowCount
unfoldable pub validate_row_count : Counters → Text → Text → Text → Result × Option Text
validate_row_count c owner table where_clause =
    compare_oracle c table (new_result table) (c.oracle owner table where_clause)
