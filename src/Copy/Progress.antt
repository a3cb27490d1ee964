-- ===== src/Copy/Progress.antt =====
-- Why CopyData of internal/postgres/writer.go neither waits for ever nor runs for ever.
use existora2pg.Transform.Clean.{transform_row_lem}
use existora2pg.Copy.{
  Row, ReadResult, row, failure, Settings, Reader, Writing, Copier, Step, Reachable, put, buf_cap,
  acquiring, setting, selecting, sending, sending_last, closing, waiting, returned, refused, idle,
  flushing, draining, ended, acquires, acquires_later, acquires_none, sets, sets_not, reads_row,
  reads_failure, reads_end, hears, sees_cancel, sends, sends_last, closes, returns, takes, ends,
  commits, fails, fails_last, loses, loses_last, interrupted, drains, drained, cancels,
}
use existora2pg.Copy.Account.{IsOrderly, IsOrderly-Reachable}
use existora2pg.Prelude.{
  ℕ, ◌+◌, ◌*◌, ◌≤◌, ◌<◌, ◌≡◌, ◌⊎◌, inl, inr, refl, Bool, true, false, List, [], ◌∷◌, length,
  length-append, arith,
}

abbrev reader_weight : Reader → ℕ
reader_weight (acquiring n) = 40 + n
reader_weight setting = 39
reader_weight selecting = 16
reader_weight sending = 28
reader_weight sending_last = 14
reader_weight closing = 3
reader_weight waiting = 2
reader_weight returned = 0
reader_weight (refused e) = 0

abbrev writer_weight : Writing → ℕ
writer_weight idle = 3
writer_weight (flushing b n) = 4 + n
writer_weight draining = 2
writer_weight ended = 0

-- A bound on the steps that are left.
abbrev pub copy_steps_left : Copier → ℕ
copy_steps_left c =
    14 * length c.input + reader_weight c.reader + (10 * length c.channel + writer_weight c.writer)

-- The function has returned.
abbrev pub is_over : Reader → Bool
is_over returned = true
is_over (refused e) = true
is_over _ = false

module _ (conf : Settings) where
  -- Each step of a copy brings its end nearer, but for the cancellation, which changes nothing else:
  -- so no copy runs for ever.
  pub copy_steps_left-Step :
      (c d : Copier)
      → Step conf c d
      → (copy_steps_left d < copy_steps_left c) ⊎ (d ≡ record c { cancelled = true })
  unfolding put
  copy_steps_left-Step c _ (acquires n e) = inl (ground arith)
  copy_steps_left-Step c _ (acquires_later n e f) = inl (ground arith)
  copy_steps_left-Step c _ (acquires_none n m e f) = inl (ground arith)
  copy_steps_left-Step c _ (sets e) = inl (ground arith)
  copy_steps_left-Step c _ (sets_not m e f) = inl (ground arith)
  copy_steps_left-Step c _ (reads_row r v rest e f g) = inl (ground arith)
  copy_steps_left-Step c _ (reads_failure m rest e f) = inl (ground arith)
  copy_steps_left-Step c _ (reads_end e f) = inl (ground arith)
  copy_steps_left-Step c _ (hears m e f) = inl (ground arith)
  copy_steps_left-Step c _ (sees_cancel e f) = inl (ground arith)
  copy_steps_left-Step c _ (sends e f) =
      inl (ground (arith, length-append c.channel (c.batch ∷ [])))
  copy_steps_left-Step c _ (sends_last e f) =
      inl (ground (arith, length-append c.channel (c.batch ∷ [])))
  copy_steps_left-Step c _ (closes e) = inl (ground arith)
  copy_steps_left-Step c _ (returns e f) = inl (ground arith)
  copy_steps_left-Step c _ (takes b rest e f) = inl (ground arith)
  copy_steps_left-Step c _ (ends e f g) = inl (ground arith)
  copy_steps_left-Step c _ (commits b n e) = inl (ground arith)
  copy_steps_left-Step c _ (fails b n e) = inl (ground arith)
  copy_steps_left-Step c _ (fails_last b m e) = inl (ground arith)
  copy_steps_left-Step c _ (loses b n e) = inl (ground arith)
  copy_steps_left-Step c _ (loses_last b m e) = inl (ground arith)
  copy_steps_left-Step c _ (interrupted b n e f g) = inl (ground arith)
  copy_steps_left-Step c _ (drains b rest e f) = inl (ground arith)
  copy_steps_left-Step c _ (drained e f g) = inl (ground arith)
  copy_steps_left-Step c _ cancels = inr refl

  -- The goroutine can take a step where there is a batch in the channel.
  takes_batch :
      (c : Copier) (w : Writing) (b : List Row) (rest : List (List Row))
      → IsOrderly c
      → c.writer ≡ w
      → c.channel ≡ b ∷ rest
      → (d : Copier) × Step conf c d
  takes_batch c idle b rest o e f = (_, takes b rest e f)
  takes_batch c (flushing a n) b rest o e f = (_, commits a n e)
  takes_batch c draining b rest o e f = (_, drains b rest e f)
  takes_batch c ended b rest o e f = absurd (ground (arith, o.quiet))

  -- It can take one, or has ended, behind the close of the channel.
  takes_end :
      (c : Copier) (w : Writing) (ch : List (List Row))
      → IsOrderly c
      → c.reader ≡ waiting
      → c.writer ≡ w
      → c.channel ≡ ch
      → (d : Copier) × Step conf c d
  takes_end c w (b ∷ rest) o r e f = takes_batch c w b rest o e f
  takes_end c idle [] o r e f = (_, ends e f (ground (arith, o.announced)))
  takes_end c (flushing a n) [] o r e f = (_, commits a n e)
  takes_end c draining [] o r e f = (_, drained e f (ground (arith, o.announced)))
  takes_end c ended [] o r e f = (_, returns r e)

  -- A select with a batch to send: there is room in the channel, or a batch to take from it.
  takes_room :
      (c : Copier) (ch : List (List Row))
      → IsOrderly c
      → c.channel ≡ ch
      → (length c.channel < buf_cap conf → (d : Copier) × Step conf c d)
      → (d : Copier) × Step conf c d
  unfolding buf_cap
  takes_room c [] o e sending_step = sending_step (ground arith)
  takes_room c (b ∷ rest) o e sending_step = takes_batch c c.writer b rest o refl e

  reads_input :
      (c : Copier) (i : List ReadResult)
      → c.reader ≡ selecting
      → c.input ≡ i
      → ((r : Row) (rest : List ReadResult)
          → c.input ≡ row r ∷ rest
          → length r ≤ length conf.columns)
      → (d : Copier) × Step conf c d
  reads_input c [] e f narrow = (_, reads_end e f)
  reads_input c (failure m ∷ rest) e f narrow = (_, reads_failure m rest e f)
  reads_input c (row r ∷ rest) e f narrow =
      (_, reads_row r _ rest e f (transform_row_lem r conf.columns (narrow r rest f)))

  reader_moves :
      (c : Copier) (rd : Reader)
      → IsOrderly c
      → c.reader ≡ rd
      → ((r : Row) (rest : List ReadResult)
          → c.input ≡ row r ∷ rest
          → length r ≤ length conf.columns)
      → (is_over rd ≡ true) ⊎ ((d : Copier) × Step conf c d)
  reader_moves c (acquiring n) o e narrow = inr (_, acquires n e)
  reader_moves c setting o e narrow = inr (_, sets e)
  reader_moves c selecting o e narrow = inr (reads_input c c.input e refl narrow)
  reader_moves c sending o e narrow =
      inr (takes_room c c.channel o refl (λ room. (_, sends e room)))
  reader_moves c sending_last o e narrow =
      inr (takes_room c c.channel o refl (λ room. (_, sends_last e room)))
  reader_moves c closing o e narrow = inr (_, closes e)
  reader_moves c waiting o e narrow = inr (takes_end c c.writer c.channel o e refl refl)
  reader_moves c returned o e narrow = inl refl
  reader_moves c (refused m) o e narrow = inl refl

  -- A copy does not get stuck, whatever failed before: the function has returned, or one of the two
  -- sides can take a step, where the next row is not wider than the table.
  pub Step-or_over :
      (input : List ReadResult) (c : Copier)
      → Reachable conf input c
      → ((r : Row) (rest : List ReadResult)
          → c.input ≡ row r ∷ rest
          → length r ≤ length conf.columns)
      → (is_over c.reader ≡ true) ⊎ ((d : Copier) × Step conf c d)
  Step-or_over input c r narrow =
      reader_moves c c.reader (IsOrderly-Reachable conf input c r) refl narrow
