-- ===== src/Reader/Pages.antt =====
-- What ReadPaginated of internal/oracle/reader.go sends, and what becomes of it in CopyData of
-- internal/postgres/writer.go.
use mathlib.Core.Path.{ap₂}
use native.Mathlib.Nat.{suc-mul}
use existora2pg.Copy.{Row, row, Settings, Copier, Reachable, outcome}
use existora2pg.Copy.Exact.{readable, Reachable-exact}
use existora2pg.Engine.Pipeline.{done}
use existora2pg.Reader.{QueryAnswer, rows, build_query, page_query, read_pages, read_paginated}
use existora2pg.Schema.{Table, Partition, Column}
use existora2pg.Transform.Clean.{as_oracle, transform_row_lem}
use existora2pg.Prelude.{
  subst, ◌*◌, length-map, drop-drop, ltb→lt, take_short, length-take-le, ℕ, zero, suc, ◌+◌, ◌-◌,
  ◌≤◌, ◌<◌, ◌≡◌, refl, sym, ap, ◌∙◌, Text, List, [], ◌∷◌, ◌++◌, Option, none, some, map, length,
  take, drop, ltb, if◌then◌else◌, arith, take-append-drop, length-drop, map-append, Bool-cases, inl,
  inr, All,
}

module _ (ask : Text → QueryAnswer) (base : Text) (content : List Row) where
  -- Oracle's answers to the queries of the pages, which start at the multiples of the size: the rows
  -- from the offset on, in the order of their ROWIDs, as many as asked for.
  pub record IsPaged (size : ℕ) : Type 0 where
    pub page :
        (k : ℕ)
        → k * size ≤ length content
        → ask (page_query base (k * size) size) ≡ rows (take size (drop (k * size) content)) none

  read_pages-drop :
      (table : Text) (fuel size k offset batch : ℕ)
      → IsPaged size
      → 0 < size
      → offset ≡ k * size
      → offset ≤ length content
      → length content - offset < fuel
      → read_pages ask table fuel base size offset batch ≡ map row (drop offset content)
  unfolding read_pages
  read_pages-drop table zero size k offset batch oracle pos at small h = absurd (omega arith)
  read_pages-drop table (suc fuel) size k offset batch oracle pos at small h =
      let left = drop offset content in
      let answer : ask (page_query base offset size) ≡ rows (take size left) none =
        subst (λ o. ask (page_query base o size) ≡ rows (take size (drop o content)) none) (sym at)
          (oracle.page k (omega arith)) in
      let after : offset + size ≡ suc k * size = omega (arith, at, suc-mul k size) in
      let short = length-drop offset content in
      let enough = length-take-le size left in
      rw answer (elim (Bool-cases (ltb (length (take size left)) size)) [
        | inl last ↦ rw last (ap (map row) (take_short size left (ltb→lt _ _ last)))
        | inr full ↦ rw full (
            ap (◌++◌ (map row (take size left))) (
              read_pages-drop table fuel size (suc k) (offset + size) (suc batch) oracle pos after
                (ground arith) (ground arith)
              ∙ ap (map row) (sym (drop-drop offset size content)))
            ∙ sym (map-append row (take size left) (drop size left))
            ∙ ap (map row) (take-append-drop size left))
      ])

  -- Where Oracle answers the query of each page with its rows, a paginated read sends each row of
  -- the table once, in the order of the ROWIDs, with fuel for one page more than the table has
  -- rows; the size of a page is the fetch size where none is given, which is positive.
  pub read_paginated_all :
      (fuel fetch_size page_size : ℕ) (t : Table) (part : Option Partition) (filter : Text)
      → IsPaged (if ltb 0 page_size then page_size else fetch_size)
      → base ≡ build_query t part filter
      → 0 < fetch_size
      → length content < fuel
      → read_paginated ask fuel fetch_size t part filter page_size ≡ map row content
  unfolding read_paginated
  read_paginated_all fuel fetch_size page_size t part filter oracle same pos h = rw (← same) (
      read_pages-drop t.name fuel (if ltb 0 page_size then page_size else fetch_size) 0 0 1 oracle
        (ground arith) (omega arith) (omega arith) (omega arith))

readable-map :
    (cols : List Column) (rs : List Row)
    → All (λ r. length r ≤ length cols) rs
    → readable cols (map row rs) ≡ map (map as_oracle) rs
readable-map cols [] h = refl
readable-map cols (r ∷ rs) h =
    rw (transform_row_lem r cols h.0) (ap (λ t. map as_oracle r ∷ t) (readable-map cols rs h.1))

-- A copy of a table by a paginated read: where Oracle answers the query of each page with its rows,
-- none of them wider than the table, the fuel is more than their number, and no COMMIT took effect
-- that ended with an error, a call of CopyData that returns without an error has written exactly
-- the rows of the table, in their order, with empty texts and empty bytes as NULL, and returns
-- their number.
pub read_paginated-Reachable :
    (ask : Text → QueryAnswer) (content : List Row) (fuel fetch_size page_size : ℕ) (t : Table)
    (part : Option Partition) (filter : Text) (conf : Settings) (c : Copier) (n size : ℕ)
    → IsPaged ask
        (build_query t part filter)
        content
        (if ltb 0 page_size then page_size else fetch_size)
    → 0 < fetch_size
    → length content < fuel
    → conf.columns ≡ t.columns
    → All (λ r. length r ≤ length t.columns) content
    → Reachable conf (read_paginated ask fuel fetch_size t part filter page_size) c
    → outcome c ≡ some (done n size)
    → c.lost ≡ 0
    → (c.committed ≡ map (map as_oracle) content) × (n ≡ length content)
read_paginated-Reachable ask content fuel fetch_size page_size t part filter conf c n size oracle
      pos h cols narrow run end no_loss =
    let input = read_paginated ask fuel fetch_size t part filter page_size in
    let (clean, written, count) = Reachable-exact conf input c n size run end no_loss in
    let all : c.committed ≡ map (map as_oracle) content =
      written
      ∙ ap₂ readable cols (
          read_paginated_all ask (build_query t part filter) content fuel fetch_size page_size t
            part filter oracle refl pos h)
      ∙ readable-map t.columns content narrow in
    (all, omega (arith, count, ap length all, length-map (map as_oracle) content))
