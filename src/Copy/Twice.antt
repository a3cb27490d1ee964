-- ===== src/Copy/Twice.antt =====
-- A COMMIT of CopyData of internal/postgres/writer.go that took effect and ended with an error.
use existora2pg.Transform.{transform_row}
use existora2pg.Engine.Pipeline.{done}
use existora2pg.Copy.{
  Reader, Row, row, Settings, Copier, Reachable, put, is_full, buf_cap, outcome, start_copy,
  selecting, sending, closing, idle, acquires, sets, reads_row, reads_end, sends, sends_last,
  closes, returns, takes, ends, commits, loses, started, next,
}
use existora2pg.Prelude.{
  ◌++◌, none, ◌≡◌, ◌<◌, refl, ap, Bool, [], ◌∷◌, some, if◌then◌else◌, Bool-cases, inl, inr, arith,
}

abbrev pick : Bool → Reader
pick full = if full then sending else selecting

room : (conf : Settings) → 0 < buf_cap conf
unfolding buf_cap
room conf = ground arith

module _ (conf : Settings) (r v : Row) (fits : transform_row r conf.columns ≡ some v) where
  -- The row has been read and stands in the batch.
  abbrev read : Copier
  read = put conf (record (start_copy (row r ∷ [])) { reader = selecting }) [] v

  read-Reachable : Reachable conf (row r ∷ []) read
  read-Reachable =
      next (next (next started (acquires 3 refl)) (sets refl)) (reads_row r v [] refl refl fits)

  -- The batch of the row is in the channel, which is to be closed.
  abbrev Offered : Copier → Type 0
  Offered c =
      Reachable conf (row r ∷ []) c
      × (c.reader ≡ closing)
      × (c.writer ≡ idle)
      × (c.channel ≡ (v ∷ []) ∷ [])
      × (c.committed ≡ [])
      × (c.total_rows ≡ 0)
      × (c.read_err ≡ none)
      × (c.write_err ≡ none)

  offers : (c : Copier) × Offered c
  unfolding put
  offers = elim (Bool-cases (is_full conf (v ∷ []) (read).batch_bytes)) [
    | inl full ↦
        let sent = next read-Reachable (sends (ap pick full) (room conf)) in
        (_, (next sent (reads_end refl refl), refl, refl, refl, refl, refl, refl, refl))
    | inr more ↦
        let last = next read-Reachable (reads_end (ap pick more) refl) in
        (_, (next last (sends_last refl (room conf)), refl, refl, refl, refl, refl, refl, refl))
  ]

  -- A COMMIT that takes effect and ends with an error, as it does where the connection breaks before
  -- the answer, is tried again: there is a run of a copy of a table with one row that leaves the row
  -- twice, and returns 1 without an error.
  pub Reachable_twice :
      (c : Copier) × Reachable conf (row r ∷ []) c
      × (outcome c ≡ some (done 1 0))
      × (c.committed ≡ v ∷ v ∷ [])
  unfolding outcome
  Reachable_twice =
      let (c, (run, at_end, at_channel, batches, empty, zero_rows, no_read, no_write)) = offers in
      let b = v ∷ [] in
      let closed = next run (closes at_end) in
      let taken = next closed (takes b [] at_channel batches) in
      let lost = next taken (loses b 2 refl) in
      let kept = next lost (commits b 2 refl) in
      let done_writing = next kept (ends refl refl refl) in
      (_, next done_writing (returns refl refl), ground arith, ap (λ t. (t ++ b) ++ b) empty)
