-- ===== src/Plan/HighValue/Days.antt =====
-- The high values that Oracle gives for partitions by a DATE or a TIMESTAMP, at midnight, and what
-- extractValue, normalizeValue and parseHighValue of internal/migration make of them.
use existora2pg.Plan.HighValue.{
  is_quote, extract_value, normalize_value, parse_high_value, find_date,
}
use existora2pg.Schema.{Partition}
use existora2pg.Prelude.{
  ℕ, Bool, true, false, Text, codes, List, [], ◌∷◌, ◌++◌, Option, none, some, ◌≡◌, refl, ◌∙◌, ap,
  trim_space, trim, trim_left, trim_right, text_eq, to_upper, is_space, leb, ◌&&◌, arith,
}

-- A day YYYY-MM-DD by its bytes; the first one is a 1 or a 2, and the last one is a digit.
pub record Day : Type 0 where
  pub from_2000 : Bool
  pub y2 : ℕ
  pub y3 : ℕ
  pub y4 : ℕ
  pub m1 : ℕ
  pub m2 : ℕ
  pub d1 : ℕ
  pub d2 : ℕ
  pub is_digit : leb b'0' d2 && leb d2 b'9' ≡ true

abbrev pub millennium : Bool → ℕ
millennium true = b'2'
millennium false = b'1'

abbrev pub month_text : Day → Text
month_text d = millennium d.from_2000 ∷ d.y2 ∷ d.y3 ∷ d.y4 ∷ b'-' ∷ d.m1 ∷ d.m2 ∷ b'-' ∷ d.d1 ∷ []

abbrev pub day_text : Day → Text
day_text d = month_text d ++ d.d2 ∷ []

-- An upper bound: the midnight at which a day starts, of either type, or none.
pub data Limit : Type 0 where
  date : Day → Limit
  timestamp : Day → Limit
  maxvalue : Limit

-- The text of HIGH_VALUE, as Oracle writes it.
abbrev pub high_value_of : Limit → Text
high_value_of (date d) =
    codes "TO_DATE(' "
    ++ (day_text d ++ codes " 00:00:00', 'SYYYY-MM-DD HH24:MI:SS', 'NLS_CALENDAR=GREGORIAN')")
high_value_of (timestamp d) = codes "TIMESTAMP' " ++ (day_text d ++ codes " 00:00:00'")
high_value_of maxvalue = codes "MAXVALUE"

-- The high values of partitions are the texts of the limits, in their order.
abbrev pub IsWritten : List Partition → List Limit → Type 0
IsWritten [] [] = Unit
IsWritten [] (l ∷ ls) = ⊥
IsWritten (p ∷ ps) [] = ⊥
IsWritten (p ∷ ps) (l ∷ ls) = (p.high_value ≡ high_value_of l) × IsWritten ps ls

abbrev pub day_of : Limit → Option Day
day_of (date d) = some d
day_of (timestamp d) = some d
day_of maxvalue = none

-- An open bound is the empty text.
abbrev pub bound_text : Option Day → Text
bound_text none = []
bound_text (some d) = day_text d

-- A bound of PostgreSQL.
abbrev pub pg_bound : Limit → Text
pg_bound (date d) = codes "'" ++ (day_text d ++ codes "'")
pg_bound (timestamp d) = codes "'" ++ (day_text d ++ codes "'")
pg_bound maxvalue = codes "MAXVALUE"

pub extract_value-high_value_of :
    (l : Limit) → extract_value (high_value_of l) ≡ bound_text (day_of l)
unfolding extract_value trim_space text_eq to_upper find_date trim
extract_value-high_value_of (date d) = go d.from_2000
  where
    go :
        (b : Bool)
        → extract_value (high_value_of (date (record d { from_2000 = b })))
          ≡ day_text (record d { from_2000 = b })
    go true = refl
    go false = refl
extract_value-high_value_of (timestamp d) = go d.from_2000
  where
    go :
        (b : Bool)
        → extract_value (high_value_of (timestamp (record d { from_2000 = b })))
          ≡ day_text (record d { from_2000 = b })
    go true = refl
    go false = refl
extract_value-high_value_of maxvalue = refl

pub parse_high_value-high_value_of : (l : Limit) → parse_high_value (high_value_of l) ≡ pg_bound l
unfolding parse_high_value trim_space text_eq find_date trim
parse_high_value-high_value_of (date d) = go d.from_2000
  where
    go :
        (b : Bool)
        → parse_high_value (high_value_of (date (record d { from_2000 = b })))
          ≡ pg_bound (date (record d { from_2000 = b }))
    go true = refl
    go false = refl
parse_high_value-high_value_of (timestamp d) = go d.from_2000
  where
    go :
        (b : Bool)
        → parse_high_value (high_value_of (timestamp (record d { from_2000 = b })))
          ≡ pg_bound (timestamp (record d { from_2000 = b }))
    go true = refl
    go false = refl
parse_high_value-high_value_of maxvalue = refl

trim_right-last :
    (p : ℕ → Bool) (s : Text) (c : ℕ) → p c ≡ false → trim_right p (s ++ c ∷ []) ≡ s ++ c ∷ []
unfolding trim_right
trim_right-last p [] c h = rw h refl
trim_right-last p (x ∷ []) c h = rw h refl
trim_right-last p (x ∷ y ∷ s) c h = rw (trim_right-last p (y ∷ s) c h) refl

trim-day_text :
    (p : ℕ → Bool) (d : Day)
    → p (millennium d.from_2000) ≡ false
    → p d.d2 ≡ false
    → trim p (day_text d) ≡ day_text d
unfolding trim trim_left
trim-day_text p d first last = rw first (trim_right-last p (month_text d) d.d2 last)

-- A bound of a filter is taken as it is.
pub normalize_value-day_text : (d : Day) → normalize_value (day_text d) ≡ day_text d
unfolding normalize_value trim_space
normalize_value-day_text d =
    ap (trim is_quote)
      (trim-day_text is_space d (not_space d.from_2000) (ground (arith, d.is_digit)))
    ∙ trim-day_text is_quote d (not_quote d.from_2000) (ground (arith, d.is_digit))
  where
    not_space : (b : Bool) → is_space (millennium b) ≡ false
    not_space true = refl
    not_space false = refl

    not_quote : (b : Bool) → is_quote (millennium b) ≡ false
    not_quote true = refl
    not_quote false = refl

pub normalize_value-bound_text : (o : Option Day) → normalize_value (bound_text o) ≡ bound_text o
unfolding normalize_value trim_space trim
normalize_value-bound_text none = refl
normalize_value-bound_text (some d) = normalize_value-day_text d
