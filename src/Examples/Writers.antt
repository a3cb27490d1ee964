-- ===== src/Examples/Writers.antt =====
-- The theorems on the writer and on its copies at concrete rows, tables and pools.
use existora2pg.Ddl.Statements.{generate_partition_ddl}
use existora2pg.Reader.Pages.{read_paginated-Reachable, IsPaged}
use existora2pg.Reader.{read_paginated, QueryAnswer, rows, page_query, build_query}
use existora2pg.Engine.{build_partition_bounds}
use existora2pg.Copy.{
  sends, buf_cap, rows_per_batch, add_bytes, is_full, put, Row, ReadResult, row, Settings, Copier,
  Step, Reachable, start_copy, outcome, setting, returned, ended, acquires, sets, reads_row,
  reads_end, sends_last, closes, returns, takes, ends, commits, fails, started, next,
}
use existora2pg.Copy.Bounds.{Reachable_bounds}
use existora2pg.Copy.Exact.{Reachable-exact, Reachable-prefix, readable, is_clean}
use existora2pg.Copy.Progress.{copy_steps_left-Step, copy_steps_left, Step-or_over, is_over}
use existora2pg.Copy.Twice.{Reachable_twice}
use existora2pg.Engine.Pipeline.{done}
use existora2pg.Examples.Data.{departments, sales, january, february}
use existora2pg.Transform.{null, text, other, transform_row}
use existora2pg.Schema.{Table, Column}
use existora2pg.Writer.{Writer, new_writer}
use existora2pg.Writer.Names.{generate_partition_ddl-CreateTargets, CreateTargets}
use existora2pg.Prelude.{
  sym, subst, zero, suc, drop, take, ◌*◌, ℕ, if◌then◌else◌, text_eq, ◌≡◌, ◌<◌, ◌≤◌, ◌⊎◌, refl, true,
  false, Text, codes, List, [], ◌∷◌, ◌++◌, none, some, length, All, arith,
}

abbrev column : Text → Column
column name = record {
  name = name;
  oracle_type = codes "VARCHAR2";
  pg_type = codes "TEXT";
  precision = none;
  scale = none;
  length = none;
  nullable = true;
  default_expr = none;
  position = 1;
}

abbrev columns : List Column
columns = column (codes "ID") ∷ column (codes "NAME") ∷ []

-- A row with an empty text, as Oracle hands it over, and as PostgreSQL gets it.
abbrev source : Row
source = other 7 ∷ text [] ∷ []

abbrev copied : Row
copied = other 7 ∷ null ∷ []

abbrev conf : Settings
conf = record { columns = columns; batch_size = 2; max_batch_bytes = 0; unlogged = false }

abbrev input : List ReadResult
input = row source ∷ []

-- The copy at its end: the only batch was written at the second attempt.
abbrev ended_copy : Copier
ended_copy = record (start_copy input) {
  input = [];
  taken = copied ∷ [];
  reader = returned;
  closed = true;
  writer = ended;
  total_rows = 1;
  batch_count = 1;
  committed = copied ∷ [];
}

ended_copy-Reachable : Reachable conf input ended_copy
unfolding put is_full add_bytes rows_per_batch buf_cap transform_row
ended_copy-Reachable =
    let read =
      next (next (next started (acquires 3 refl)) (sets refl))
        (reads_row source copied [] refl refl refl) in
    let sent =
      next (next (next read (reads_end refl refl)) (sends_last refl (omega arith))) (closes refl) in
    let written =
      next (next (next sent (takes (copied ∷ []) [] refl refl)) (fails (copied ∷ []) 2 refl))
        (commits (copied ∷ []) 2 refl) in
    next (next written (ends refl refl refl)) (returns refl refl)

Reachable-exact_example :
    (is_clean columns input ≡ true)
    × (ended_copy.committed ≡ readable columns input)
    × (1 ≡ length ended_copy.committed)
unfolding outcome
Reachable-exact_example = Reachable-exact conf input ended_copy 1 0 ended_copy-Reachable refl refl

Reachable-prefix_example :
    (rest : List Row) × (ended_copy.committed ++ rest ≡ readable columns input)
Reachable-prefix_example = Reachable-prefix conf input ended_copy ended_copy-Reachable refl

Reachable_bounds_example :
    (length ended_copy.channel ≤ 2) × All (λ b. (0 < length b) × (length b ≤ 2)) ended_copy.channel
Reachable_bounds_example = Reachable_bounds conf input ended_copy ended_copy-Reachable

-- Every row of the input is as wide as the table.
narrow : (r : Row) (rest : List ReadResult) → input ≡ row r ∷ rest → length r ≤ length columns
narrow r rest e = ground arith

Step-or_over_example :
    (is_over (start_copy input).reader ≡ true) ⊎ ((d : Copier) × Step conf (start_copy input) d)
Step-or_over_example = Step-or_over conf input (start_copy input) started narrow

copy_steps_left-Step_example :
    (copy_steps_left (record (start_copy input) { reader = setting })
      < copy_steps_left (start_copy input))
    ⊎ (record (start_copy input) { reader = setting }
        ≡ record (start_copy input) { cancelled = true })
copy_steps_left-Step_example =
    copy_steps_left-Step conf (start_copy input) (record (start_copy input) { reader = setting })
      (acquires 3 refl)

copied-some : transform_row source columns ≡ some copied
unfolding transform_row
copied-some = refl

Reachable_twice_example :
    (c : Copier) × Reachable conf input c
    × (outcome c ≡ some (done 1 0))
    × (c.committed ≡ copied ∷ copied ∷ [])
Reachable_twice_example = Reachable_twice conf source copied copied-some

abbrev writer : Writer
writer = new_writer (codes "hr")

generate_partition_ddl-CreateTargets_example :
    CreateTargets writer sales
      (january ∷ february ∷ [])
      (generate_partition_ddl (codes "hr") writer.naming sales (build_partition_bounds sales))
unfolding text_eq
generate_partition_ddl-CreateTargets_example =
    generate_partition_ddl-CreateTargets writer refl refl sales

-- A table of two columns, with three rows that Oracle hands over in pages of two.
abbrev people : Table
people = record departments { columns = columns }

abbrev three_rows : List Row
three_rows = source ∷ source ∷ source ∷ []

abbrev two_pages : Text → QueryAnswer
two_pages query =
    if text_eq query (page_query (build_query people none []) 0 2)
    then rows (source ∷ source ∷ []) none
    else rows (source ∷ []) none

two_pages-IsPaged : IsPaged two_pages (build_query people none []) three_rows 2
unfolding text_eq build_query page_query
two_pages-IsPaged = record { page = pages }
  where
    pages :
        (k : ℕ)
        → k * 2 ≤ 3
        → two_pages (page_query (build_query people none []) (k * 2) 2)
          ≡ rows (take 2 (drop (k * 2) three_rows)) none
    pages zero h = refl
    pages (suc zero) h = refl
    pages (suc (suc k)) h = absurd (omega arith)

-- The copy of the three rows, in two batches.
abbrev people_input : List ReadResult
people_input = read_paginated two_pages 4 100 people none [] 2

abbrev people_copy : Copier
people_copy = record ended_copy {
  taken = copied ∷ copied ∷ copied ∷ [];
  total_rows = 3;
  batch_count = 2;
  committed = copied ∷ copied ∷ copied ∷ [];
}

people_input-rows : people_input ≡ row source ∷ row source ∷ row source ∷ []
unfolding text_eq build_query page_query read_paginated
people_input-rows = refl

rows_copied : Reachable conf (row source ∷ row source ∷ row source ∷ []) people_copy
unfolding put is_full add_bytes rows_per_batch buf_cap transform_row
rows_copied =
    let first =
      next
        (next (next (next started (acquires 3 refl)) (sets refl))
          (reads_row source copied (row source ∷ row source ∷ []) refl refl refl))
        (reads_row source copied (row source ∷ []) refl refl refl) in
    let second =
      next (next first (sends refl (omega arith))) (reads_row source copied [] refl refl refl) in
    let sent =
      next (next (next second (reads_end refl refl)) (sends_last refl (omega arith)))
        (closes refl) in
    let half =
      next (next sent (takes (copied ∷ copied ∷ []) ((copied ∷ []) ∷ []) refl refl))
        (commits (copied ∷ copied ∷ []) 3 refl) in
    let written =
      next (next half (takes (copied ∷ []) [] refl refl)) (commits (copied ∷ []) 3 refl) in
    next (next written (ends refl refl refl)) (returns refl refl)

read_paginated-Reachable_example :
    (people_copy.committed ≡ copied ∷ copied ∷ copied ∷ []) × (◌≡◌ {A = ℕ} 3 3)
unfolding outcome
read_paginated-Reachable_example =
    read_paginated-Reachable two_pages three_rows 4 100 2 people none [] conf people_copy 3 0
      two_pages-IsPaged (omega arith) (omega arith) refl
      (omega arith, (omega arith, (omega arith, tt)))
      (subst (λ i. Reachable conf i people_copy) (sym people_input-rows) rows_copied) refl refl
