-- ===== src/Plan/HighValue.antt =====
-- extractValue, normalizeValue and compareValues of internal/migration/plan.go, and parseHighValue
-- of internal/migration/engine.go.
pub mod Days
use Prim.Native.Nat.{Ordering}
use existora2pg.Prelude.{
  take, length, refl, ltb, [], ◌++◌, ◌∷◌, ◌≡◌, ◌&&◌, to_upper, some, false, none, codes, get_elem?,
  ◌==◌, text_eq, is_nil, trim, text_lt, Option, true, ◌||◌, if◌then◌else◌, trim_space, Bool, Text,
  ℕ,
}

-- strconv.ParseFloat and `<` on float64.
pub record Floats : Type 1 where
  pub Num : Type 0
  pub parse_float : Text → Option Num
  pub less : Num → Num → Bool
  pub is_nan : Num → Bool

-- Whether a date YYYY-MM-DD seems to start a text: a 1 or a 2, and dashes at 4 and 7.
abbrev has_byte : Text → ℕ → ℕ → Bool
has_byte s i b = elim (get_elem? s i) [ none ↦ false | some c ↦ c == b ]

abbrev starts_date : Text → Bool
starts_date s = (has_byte s 0 b'1' || has_byte s 0 b'2') && has_byte s 4 b'-' && has_byte s 7 b'-'

-- The loop `for i := 0; i < len(hv)-10; i++`, over the text from i on.
unfoldable pub find_date : Text → Option Text
find_date [] = none
find_date (c ∷ s) =
    let rest = find_date s in
    if ltb 10 (length (c ∷ s)) && starts_date (c ∷ s) then some (take 10 (c ∷ s)) else rest

-- The cut sets `" '\""` and `"'\""` of strings.Trim.
abbrev pub is_quote : ℕ → Bool
is_quote c = c == 39 || c == b'"'

abbrev date_or : Text → Option Text → Text
date_or other none = other
date_or other (some d) = d

-- extractValue
unfoldable pub extract_value : Text → Text
unfolding find_date
extract_value high_value =
    let hv = trim_space high_value in
    if is_nil hv || text_eq (to_upper hv) (codes "MAXVALUE")
    then []
    else date_or (trim (λ c. c == 32 || is_quote c) hv) (find_date hv)

-- normalizeValue
unfoldable pub normalize_value : Text → Text
normalize_value v = trim is_quote (trim_space v)

abbrev quoted_or : Text → Option Text → Text
quoted_or other none = other
quoted_or other (some d) = codes "'" ++ (d ++ codes "'")

-- parseHighValue
unfoldable pub parse_high_value : Text → Text
unfolding find_date
parse_high_value high_value =
    let hv = trim_space high_value in
    if is_nil hv || text_eq hv (codes "MAXVALUE")
    then codes "MAXVALUE"
    else quoted_or hv (find_date hv)

module _ (fl : Floats) where
  abbrev compare_nums : fl.Num → fl.Num → Ordering
  compare_nums a b =
      if fl.less a b then Ordering.lt else if fl.less b a then Ordering.gt else Ordering.eq

  abbrev compare_texts : Text → Text → Ordering
  compare_texts a b =
      if text_lt a b then Ordering.lt else if text_lt b a then Ordering.gt else Ordering.eq

  abbrev compare_parsed : Text → Text → Option fl.Num → Option fl.Num → Ordering
  compare_parsed a b (some x) (some y) = compare_nums x y
  compare_parsed a b (some x) none = compare_texts a b
  compare_parsed a b none o = compare_texts a b

  -- compareValues: as numbers where both parse, otherwise as texts.
  unfoldable pub compare_values : Text → Text → Ordering
  compare_values a b = compare_parsed a b (fl.parse_float a) (fl.parse_float b)

  -- `compareValues(a, b) >= 0` negated
  abbrev pub is_less : Text → Text → Bool
  is_less a b = elim (compare_values a b) [ Ordering.lt ↦ true | _ ↦ false ]

extract-date : extract_value (codes "TO_DATE(' 2024-02-01 00:00:00', 'SYYYY')") ≡ codes "2024-02-01"
unfolding extract_value trim_space text_eq to_upper
extract-date = refl

parse-date : parse_high_value (codes "TIMESTAMP' 2024-02-01 00:00:00'") ≡ codes "'2024-02-01'"
unfolding parse_high_value trim_space text_eq
parse-date = refl

extract-number : extract_value (codes " 1000 ") ≡ codes "1000"
unfolding extract_value trim_space text_eq to_upper trim
extract-number = refl
