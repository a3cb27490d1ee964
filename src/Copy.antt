-- ===== src/Copy.antt =====
-- CopyData of internal/postgres/writer.go: the loop that reads rows, the goroutine that writes
-- batches, and the channel between them, as a relation of steps. The pauses are no steps. That
-- CopyFrom answers with the number of rows that it was given is what pgx documents.
pub mod Account
pub mod Bounds
pub mod Exact
pub mod Progress
pub mod Twice
use existora2pg.Engine.Pipeline.{Copied, done, broken}
use existora2pg.Schema.{Column}
use existora2pg.Transform.{Value, null, text, bytes, other, transform_row}
use existora2pg.Prelude.{
  ◌⊎◌, ℕ, zero, suc, ◌+◌, ◌<◌, ◌≡◌, Bool, true, false, ◌&&◌, ◌||◌, ltb, leb, Text, codes, List, [],
  ◌∷◌, ◌++◌, Option, none, some, length, if◌then◌else◌, is_nil,
}

abbrev pub Row : Type 0
Row = List Value

-- ReadResult of internal/oracle/reader.go
pub data ReadResult : Type 0 where
  row : Row → ReadResult
  failure : Text → ReadResult

-- The arguments of CopyData and the mode of the writer.
pub record Settings : Type 0 where
  pub columns : List Column
  pub batch_size : ℕ
  pub max_batch_bytes : ℕ
  pub unlogged : Bool

abbrev pub max_retries : ℕ
max_retries = 3

-- `if batchSize <= 0 { batchSize = 50000 }`
unfoldable pub rows_per_batch : Settings → ℕ
rows_per_batch conf = if ltb 0 conf.batch_size then conf.batch_size else 50000

-- bufCap
unfoldable pub buf_cap : Settings → ℕ
buf_cap conf = if conf.unlogged then 4 else 2

-- estimateRowBytes
unfoldable pub estimate_row_bytes : Row → ℕ
estimate_row_bytes [] = 0
estimate_row_bytes (null ∷ vs) = 4 + estimate_row_bytes vs
estimate_row_bytes (text s ∷ vs) = length s + estimate_row_bytes vs
estimate_row_bytes (bytes b ∷ vs) = length b + estimate_row_bytes vs
estimate_row_bytes (other n ∷ vs) = 16 + estimate_row_bytes vs

-- Where the function stands: at the first connection with so many retries left, before the SET
-- statement, at the select of the read loop, at the select with a full batch, at the one with the
-- last batch, before the close of the channel, before the result of the writer, at its end, and at
-- an early return.
pub data Reader : Type 0 where
  acquiring : ℕ → Reader
  setting : Reader
  selecting : Reader
  sending : Reader
  sending_last : Reader
  closing : Reader
  waiting : Reader
  returned : Reader
  refused : Text → Reader

-- Where the goroutine stands: at the channel, at an attempt to write a batch with so many retries
-- left, at the loop that drains the channel, and at its end.
pub data Writing : Type 0 where
  idle : Writing
  flushing : List Row → ℕ → Writing
  draining : Writing
  ended : Writing

-- `input` is what the channel of rows will deliver before it is closed, `taken` the rows taken from
-- it, after their transformation, and `committed` the rows that the target has. `lost` counts the
-- commits that took effect though they ended with an error.
pub record Copier : Type 0 where
  pub input : List ReadResult
  pub taken : List Row
  pub reader : Reader
  pub batch : List Row
  pub batch_bytes : ℕ
  pub read_err : Option Text
  pub channel : List (List Row)
  pub closed : Bool
  pub signal : Option Text
  pub cancelled : Bool
  pub writer : Writing
  pub write_err : Option Text
  pub total_rows : ℕ
  pub batch_count : ℕ
  pub committed : List Row
  pub lost : ℕ

abbrev pub start_copy : List ReadResult → Copier
start_copy input = record {
  input = input;
  taken = [];
  reader = acquiring max_retries;
  batch = [];
  batch_bytes = 0;
  read_err = none;
  channel = [];
  closed = false;
  signal = none;
  cancelled = false;
  writer = idle;
  write_err = none;
  total_rows = 0;
  batch_count = 0;
  committed = [];
  lost = 0;
}

-- ctx.Err()
abbrev pub ctx_err : Text
ctx_err = codes "context canceled"

-- The three selects of the read loop; at each of them the function hears of a failure.
abbrev pub is_selecting : Reader → Bool
is_selecting selecting = true
is_selecting sending = true
is_selecting sending_last = true
is_selecting _ = false

-- The read loop is left with an error.
abbrev pub leave_with : Copier → Text → Copier
leave_with c e = record c { reader = closing; read_err = some e }

-- The error behind the last attempt.
abbrev pub failed_copy : Text → Text
failed_copy e = codes "COPY failed after 3 retries: " ++ e

-- The goroutine gives up.
abbrev pub give_up : Copier → Text → Copier
give_up c e = record c { writer = draining; write_err = some e; signal = some e }

-- The end of the function, by the errors of the two sides. BytesCopied of the statistics is never
-- set.
abbrev pub result_of : Option Text → Option Text → ℕ → Copied
result_of (some e) w n = broken (codes "oracle read error during COPY: " ++ e)
result_of none (some e) n = broken e
result_of none none n = done n 0

-- What the function returns, once it has returned.
abbrev pub return_at : Copier → Reader → Option Copied
return_at c (refused e) = some (broken e)
return_at c returned = some (result_of c.read_err c.write_err c.total_rows)
return_at c _ = none

unfoldable pub outcome : Copier → Option Copied
outcome c = return_at c c.reader

module _ (conf : Settings) where
  -- The batch has to be sent.
  unfoldable pub is_full : List Row → ℕ → Bool
  unfolding rows_per_batch
  is_full batch batch_bytes =
      leb (rows_per_batch conf) (length batch)
      || ltb 0 conf.max_batch_bytes && leb conf.max_batch_bytes batch_bytes

  unfoldable pub add_bytes : ℕ → Row → ℕ
  unfolding estimate_row_bytes
  add_bytes n r = if ltb 0 conf.max_batch_bytes then n + estimate_row_bytes r else n

  -- A transformed row is put into the batch.
  unfoldable pub put : Copier → List ReadResult → Row → Copier
  unfolding is_full add_bytes
  put c rest r =
      let batch = c.batch ++ r ∷ [] in
      let batch_bytes = add_bytes c.batch_bytes r in
      record c {
        input = rest;
        taken = c.taken ++ r ∷ [];
        batch = batch;
        batch_bytes = batch_bytes;
        reader = if is_full batch batch_bytes then sending else selecting;
      }

  pub data Step : Copier → Copier → Type 0 where
    acquires :
        {c : Copier} (n : ℕ) → c.reader ≡ acquiring n → Step c (record c { reader = setting })
    acquires_later :
        {c : Copier} (n : ℕ)
        → c.reader ≡ acquiring (suc n)
        → c.cancelled ≡ false
        → Step c (record c { reader = acquiring n })
    acquires_none :
        {c : Copier} (n : ℕ) (e : Text)
        → c.reader ≡ acquiring n
        → (n ≡ 0) ⊎ (c.cancelled ≡ true)
        → Step c (record c { reader = refused (codes "acquire connection: " ++ e) })
    sets : {c : Copier} → c.reader ≡ setting → Step c (record c { reader = selecting })
    sets_not :
        {c : Copier} (e : Text)
        → c.reader ≡ setting
        → conf.unlogged ≡ false
        → Step c (record c { reader = refused (codes "set synchronous_commit: " ++ e) })
    reads_row :
        {c : Copier} (r v : Row) (rest : List ReadResult)
        → c.reader ≡ selecting
        → c.input ≡ row r ∷ rest
        → transform_row r conf.columns ≡ some v
        → Step c (put c rest v)
    reads_failure :
        {c : Copier} (e : Text) (rest : List ReadResult)
        → c.reader ≡ selecting
        → c.input ≡ failure e ∷ rest
        → Step c (leave_with c e)
    reads_end :
        {c : Copier}
        → c.reader ≡ selecting
        → c.input ≡ []
        → Step c (record c { reader = if is_nil c.batch then closing else sending_last })
    hears :
        {c : Copier} (e : Text)
        → is_selecting c.reader ≡ true
        → c.signal ≡ some e
        → Step c (record (leave_with c e) { signal = none })
    sees_cancel :
        {c : Copier}
        → is_selecting c.reader ≡ true
        → c.cancelled ≡ true
        → Step c (leave_with c ctx_err)
    sends :
        {c : Copier}
        → c.reader ≡ sending
        → length c.channel < buf_cap conf
        → Step c (record c {
          reader = selecting;
          channel = c.channel ++ c.batch ∷ [];
          batch = [];
          batch_bytes = 0;
        })
    -- The function does not look at the batch again.
    sends_last :
        {c : Copier}
        → c.reader ≡ sending_last
        → length c.channel < buf_cap conf
        → Step c (record c { reader = closing; channel = c.channel ++ c.batch ∷ []; batch = [] })
    closes :
        {c : Copier} → c.reader ≡ closing → Step c (record c { reader = waiting; closed = true })
    returns :
        {c : Copier}
        → c.reader ≡ waiting
        → c.writer ≡ ended
        → Step c (record c { reader = returned })
    takes :
        {c : Copier} (b : List Row) (rest : List (List Row))
        → c.writer ≡ idle
        → c.channel ≡ b ∷ rest
        → Step c (record c { writer = flushing b max_retries; channel = rest })
    ends :
        {c : Copier}
        → c.writer ≡ idle
        → c.channel ≡ []
        → c.closed ≡ true
        → Step c (record c { writer = ended })
    commits :
        {c : Copier} (b : List Row) (n : ℕ)
        → c.writer ≡ flushing b n
        → Step c (record c {
          writer = idle;
          committed = c.committed ++ b;
          total_rows = c.total_rows + length b;
          batch_count = suc c.batch_count;
        })
    -- BEGIN, COPY or COMMIT fails, or the new connection of a retry; nothing is written.
    fails :
        {c : Copier} (b : List Row) (n : ℕ)
        → c.writer ≡ flushing b (suc n)
        → Step c (record c { writer = flushing b n })
    fails_last :
        {c : Copier} (b : List Row) (e : Text)
        → c.writer ≡ flushing b 0
        → Step c (give_up c (failed_copy e))
    -- COMMIT ends with an error, but it took effect.
    loses :
        {c : Copier} (b : List Row) (n : ℕ)
        → c.writer ≡ flushing b (suc n)
        → Step c
            (record c { writer = flushing b n; committed = c.committed ++ b; lost = suc c.lost })
    loses_last :
        {c : Copier} (b : List Row) (e : Text)
        → c.writer ≡ flushing b 0
        → Step c
            (record (give_up c (failed_copy e)) { committed = c.committed ++ b; lost = suc c.lost })
    -- The context ends during the pause before a retry.
    interrupted :
        {c : Copier} (b : List Row) (n : ℕ)
        → c.writer ≡ flushing b n
        → n < max_retries
        → c.cancelled ≡ true
        → Step c (give_up c ctx_err)
    drains :
        {c : Copier} (b : List Row) (rest : List (List Row))
        → c.writer ≡ draining
        → c.channel ≡ b ∷ rest
        → Step c (record c { channel = rest })
    drained :
        {c : Copier}
        → c.writer ≡ draining
        → c.channel ≡ []
        → c.closed ≡ true
        → Step c (record c { writer = ended })
    cancels : {c : Copier} → Step c (record c { cancelled = true })

  -- The states that a call leads to.
  pub data Reachable (input : List ReadResult) : Copier → Type 0 where
    started : Reachable input (start_copy input)
    next : {c d : Copier} → Reachable input c → Step c d → Reachable input d
