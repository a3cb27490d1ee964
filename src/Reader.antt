-- ===== src/Reader.antt =====
-- internal/oracle/reader.go: the queries that read a table, and the stream of rows that a read
-- sends. The Oracle session is an argument, which answers a query with rows and perhaps an error
-- behind them. A read that is cancelled, and the sizes of the fetches, are left out.
pub mod Pages
use existora2pg.Copy.{Row, ReadResult, row, failure}
use existora2pg.Prelude.Decimal.{show}
use existora2pg.Schema.{Table, Partition}
use existora2pg.Prelude.{
  ℕ, zero, suc, ◌+◌, Text, codes, List, [], ◌∷◌, ◌++◌, Option, none, some, map, join, is_nil,
  length, ltb, if◌then◌else◌,
}

-- How a query ends: it cannot be opened, or its rows come, up to an error if there is one.
pub data QueryAnswer : Type 0 where
  refused : Text → QueryAnswer
  rows : List Row → Option Text → QueryAnswer

-- The table or the partition behind FROM.
abbrev pub source_of : Text → Text → Option Partition → Text
source_of owner name none = owner ++ (b'.' ∷ name)
source_of owner name (some p) =
    owner ++ (b'.' ∷ (name ++ (codes " PARTITION (" ++ (p.name ++ codes ")"))))

abbrev pub and_where : Text → Text → Text
and_where query filter = if is_nil filter then query else query ++ (codes " WHERE " ++ filter)

-- buildQuery
unfoldable pub build_query : Table → Option Partition → Text → Text
unfolding join
build_query t part filter =
    and_where
      (codes "SELECT "
        ++ (join (codes ", ") (map (λ c. c.name) t.columns)
            ++ (codes " FROM " ++ source_of t.owner t.name part)))
      filter

-- The query of Count
unfoldable pub count_query : Text → Text → Option Partition → Text → Text
count_query owner name part filter =
    and_where (codes "SELECT COUNT(*) FROM " ++ source_of owner name part) filter

-- partitionName
abbrev pub partition_name : Option Partition → Text
partition_name none = []
partition_name (some p) = p.name

-- The query of a page.
unfoldable pub page_query : Text → ℕ → ℕ → Text
unfolding show
page_query base offset page_size =
    base
    ++ (codes " ORDER BY ROWID OFFSET "
        ++ (show offset ++ (codes " ROWS FETCH NEXT " ++ (show page_size ++ codes " ROWS ONLY"))))

module _ (ask : Text → QueryAnswer) (table : Text) where
  abbrev pub failed : Text → Text → ReadResult
  failed what e = failure (what ++ (codes ": " ++ e))

  abbrev pub ends_with : Text → List Row → Option Text → List ReadResult
  ends_with what rs none = map row rs
  ends_with what rs (some e) = map row rs ++ failed what e ∷ []

  -- What Read sends for the answer to its query.
  abbrev pub sent : QueryAnswer → List ReadResult
  sent (refused e) = failed (codes "query " ++ table) e ∷ []
  sent (rows rs e) = ends_with (codes "rows iteration " ++ table) rs e

  -- Read
  unfoldable pub read : Text → List ReadResult
  read query = sent (ask query)

  abbrev pub batch_label : Text → ℕ → Text
  unfolding show
  batch_label what n = what ++ (table ++ (codes " batch " ++ show n))

  -- One page, and the pages behind it if it is full.
  abbrev pub paged : ℕ → ℕ → List ReadResult → QueryAnswer → List ReadResult
  paged batch page_size rest (refused e) =
      failed (batch_label (codes "paginated query ") batch) e ∷ []
  paged batch page_size rest (rows rs (some e)) =
      ends_with (batch_label (codes "rows iteration ") batch) rs (some e)
  paged batch page_size rest (rows rs none) =
      if ltb (length rs) page_size then map row rs else map row rs ++ rest

  -- The loop of ReadPaginated; the fuel is a bound on the number of pages.
  unfoldable pub read_pages : ℕ → Text → ℕ → ℕ → ℕ → List ReadResult
  unfolding page_query
  read_pages zero base page_size offset batch = []
  read_pages (suc fuel) base page_size offset batch =
      let rest = read_pages fuel base page_size (offset + page_size) (suc batch) in
      paged batch page_size rest (ask (page_query base offset page_size))

-- ReadPaginated, with the reader's fetch size where no page size is given.
unfoldable pub read_paginated :
    (Text → QueryAnswer) → ℕ → ℕ → Table → Option Partition → Text → ℕ → List ReadResult
unfolding read_pages build_query
read_paginated ask fuel fetch_size t part filter page_size =
    read_pages ask t.name fuel (build_query t part filter)
      (if ltb 0 page_size then page_size else fetch_size) 0 1

-- NewReader
unfoldable pub new_fetch_size : ℕ → ℕ
new_fetch_size n = if ltb 0 n then n else 10000
