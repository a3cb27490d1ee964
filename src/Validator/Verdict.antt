-- ===== src/Validator/Verdict.antt =====
-- The verdict of internal/validate/validator.go.
use existora2pg.Validator.{
  CountAnswer, counted, failed, Result, Counters, new_result, compare_pg, compare_oracle,
  validate_row_count,
}
use existora2pg.Prelude.{ℕ, true, false, ◌≡◌, ◌↔◌, refl, sym, ap, ◌∙◌, Text, ==_iff}

matches_iff :
    (r : Result) (n : ℕ) (b : CountAnswer)
    → r.is_match ≡ false
    → ((compare_pg r n b).0.is_match ≡ true) ↔ (b ≡ counted n)
matches_iff r n (counted m) h =
    (λ e. ap counted (sym ((==_iff n m).0 e)), λ e. (==_iff n m).1 (sym (cc e)))
matches_iff r n (failed e) h = (λ k. absurd (cc (h, k)), λ k. absurd (cc k))

oracle_iff :
    (c : Counters) (table : Text) (a : CountAnswer)
    → ((compare_oracle c table (new_result table) a).0.is_match ≡ true)
      ↔ ((n : ℕ) × (a ≡ counted n) × (c.pg table ≡ counted n))
oracle_iff c table (failed e) = (λ k. absurd (cc k), λ (n, p, q). absurd (cc p))
oracle_iff c table (counted n) =
    let (forth, back) = matches_iff (new_result table) n (c.pg table) refl in
    (λ k. (n, refl, forth k), λ (m, p, q). back (q ∙ sym p))

-- A validation reports a match exactly if both databases answer with a count, and with the same one.
pub validate_row_count_iff :
    (c : Counters) (owner table where_clause : Text)
    → ((validate_row_count c owner table where_clause).0.is_match ≡ true)
      ↔ ((n : ℕ) × (c.oracle owner table where_clause ≡ counted n) × (c.pg table ≡ counted n))
unfolding validate_row_count
validate_row_count_iff c owner table where_clause =
    oracle_iff c table (c.oracle owner table where_clause)
