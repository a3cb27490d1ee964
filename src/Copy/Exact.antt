-- ===== src/Copy/Exact.antt =====
-- What CopyData of internal/postgres/writer.go leaves in the target.
use mathlib.Core.Path.{ap₂}
use existora2pg.Transform.{transform_row}
use existora2pg.Schema.{Column}
use existora2pg.Engine.Pipeline.{done}
use existora2pg.Copy.{
  Row, ReadResult, row, failure, Settings, Copier, Step, Reachable, put, outcome, result_of,
  return_at, Reader, acquiring, setting, selecting, sending, sending_last, closing, waiting,
  returned, refused, acquires, acquires_later, acquires_none, sets, sets_not, reads_row,
  reads_failure, reads_end, hears, sees_cancel, sends, sends_last, closes, returns, takes, ends,
  commits, fails, fails_last, loses, loses_last, interrupted, drains, drained, cancels, started,
  next,
}
use existora2pg.Copy.Account.{IsOrderly, in_hand, concat, IsOrderly-Reachable, Accounted-Reachable}
use existora2pg.Prelude.{
  ℕ, ◌≡◌, refl, sym, ap, ◌∙◌, Bool, true, false, Text, List, [], ◌∷◌, ◌++◌, Option, none, some,
  length, append_assoc, append-nil, arith,
}

abbrev pub if_some {ℓ} : {A : Type ℓ} → A → (Row → A) → Option Row → A
if_some a f none = a
if_some a f (some v) = f v

module _ (cols : List Column) where
  -- The rows in front of the first failure, transformed.
  abbrev pub readable : List ReadResult → List Row
  readable [] = []
  readable (failure e ∷ rest) = []
  readable (row r ∷ rest) = if_some [] (λ v. v ∷ readable rest) (transform_row r cols)

  -- There is no failure, and each row can be transformed.
  abbrev pub is_clean : List ReadResult → Bool
  is_clean [] = true
  is_clean (failure e ∷ rest) = false
  is_clean (row r ∷ rest) = if_some false (λ v. is_clean rest) (transform_row r cols)

result_of-done :
    (n size : ℕ) (r w : Option Text) (m : ℕ)
    → result_of r w m ≡ done n size
    → (r ≡ none) × (w ≡ none) × (n ≡ m)
result_of-done n size none none m e = (refl, refl, cc e)
result_of-done n size none (some f) m e = absurd (cc e)
result_of-done n size (some f) w m e = absurd (cc e)

return_at-done :
    (c : Copier) (n size : ℕ) (r : Reader)
    → return_at c r ≡ some (done n size)
    → (r ≡ returned) × (c.read_err ≡ none) × (c.write_err ≡ none) × (n ≡ c.total_rows)
return_at-done c n size returned e =
    let (r, w, m) = result_of-done n size c.read_err c.write_err c.total_rows (cc e) in
    (refl, r, w, m)
return_at-done c n size (refused f) e = absurd (cc e)
return_at-done c n size (acquiring k) e = absurd (cc e)
return_at-done c n size setting e = absurd (cc e)
return_at-done c n size selecting e = absurd (cc e)
return_at-done c n size sending e = absurd (cc e)
return_at-done c n size sending_last e = absurd (cc e)
return_at-done c n size closing e = absurd (cc e)
return_at-done c n size waiting e = absurd (cc e)

finished_empty :
    (c : Copier)
    → IsOrderly c
    → c.reader ≡ returned
    → c.read_err ≡ none
    → (c.input ≡ []) × (c.batch ≡ []) × (c.channel ≡ []) × (in_hand c.writer ≡ [])
finished_empty c o e f = ground arith

module _ (conf : Settings) where
  -- What has been taken and what can still be read are together what could be read.
  record IsReading (input : List ReadResult) (c : Copier) : Type 0 where
    rows : c.taken ++ readable conf.columns c.input ≡ readable conf.columns input
    clean : is_clean conf.columns c.input ≡ is_clean conf.columns input

  IsReading-Step :
      (input : List ReadResult) (c d : Copier)
      → Step conf c d
      → IsReading input c
      → IsReading input d
  unfolding put
  IsReading-Step input c _ (reads_row r v rest e f g) h = record {
    rows =
        append_assoc c.taken (v ∷ []) (readable conf.columns rest)
        ∙ sym (ap (λ o. c.taken ++ if_some [] (λ w. w ∷ readable conf.columns rest) o) g)
        ∙ sym (ap (λ i. c.taken ++ readable conf.columns i) f)
        ∙ h.rows;
    clean =
        sym (ap (if_some false (λ w. is_clean conf.columns rest)) g)
        ∙ sym (ap (is_clean conf.columns) f)
        ∙ h.clean;
  }
  IsReading-Step input c _ (acquires n e) h = record { rows = h.rows; clean = h.clean }
  IsReading-Step input c _ (acquires_later n e f) h = record { rows = h.rows; clean = h.clean }
  IsReading-Step input c _ (acquires_none n m e f) h = record { rows = h.rows; clean = h.clean }
  IsReading-Step input c _ (sets e) h = record { rows = h.rows; clean = h.clean }
  IsReading-Step input c _ (sets_not m e f) h = record { rows = h.rows; clean = h.clean }
  IsReading-Step input c _ (reads_failure m rest e f) h = record { rows = h.rows; clean = h.clean }
  IsReading-Step input c _ (reads_end e f) h = record { rows = h.rows; clean = h.clean }
  IsReading-Step input c _ (hears m e f) h = record { rows = h.rows; clean = h.clean }
  IsReading-Step input c _ (sees_cancel e f) h = record { rows = h.rows; clean = h.clean }
  IsReading-Step input c _ (sends e f) h = record { rows = h.rows; clean = h.clean }
  IsReading-Step input c _ (sends_last e f) h = record { rows = h.rows; clean = h.clean }
  IsReading-Step input c _ (closes e) h = record { rows = h.rows; clean = h.clean }
  IsReading-Step input c _ (returns e f) h = record { rows = h.rows; clean = h.clean }
  IsReading-Step input c _ (takes b rest e f) h = record { rows = h.rows; clean = h.clean }
  IsReading-Step input c _ (ends e f g) h = record { rows = h.rows; clean = h.clean }
  IsReading-Step input c _ (commits b n e) h = record { rows = h.rows; clean = h.clean }
  IsReading-Step input c _ (fails b n e) h = record { rows = h.rows; clean = h.clean }
  IsReading-Step input c _ (fails_last b m e) h = record { rows = h.rows; clean = h.clean }
  IsReading-Step input c _ (loses b n e) h = record { rows = h.rows; clean = h.clean }
  IsReading-Step input c _ (loses_last b m e) h = record { rows = h.rows; clean = h.clean }
  IsReading-Step input c _ (interrupted b n e f g) h = record { rows = h.rows; clean = h.clean }
  IsReading-Step input c _ (drains b rest e f) h = record { rows = h.rows; clean = h.clean }
  IsReading-Step input c _ (drained e f g) h = record { rows = h.rows; clean = h.clean }
  IsReading-Step input c _ cancels h = record { rows = h.rows; clean = h.clean }

  IsReading-Reachable :
      (input : List ReadResult) (c : Copier) → Reachable conf input c → IsReading input c
  IsReading-Reachable input _ started = record { rows = refl; clean = refl }
  IsReading-Reachable input d (next {c} r s) =
      IsReading-Step input c d s (IsReading-Reachable input c r)

  -- At every moment of a copy, and also after it failed, as long as no COMMIT took effect that ended
  -- with an error: the target has a part of the rows that could be read in front of the first
  -- failure, transformed, from the first one on and in their order, none of them twice.
  pub Reachable-prefix :
      (input : List ReadResult) (c : Copier)
      → Reachable conf input c
      → c.lost ≡ 0
      → (rest : List Row) × (c.committed ++ rest ≡ readable conf.columns input)
  Reachable-prefix input c r z =
      let a = Accounted-Reachable conf input c r z in
      let left = readable conf.columns c.input in
      (
        a.part.0 ++ left,
        sym (append_assoc c.committed a.part.0 left)
            ∙ ap (λ t. t ++ left) a.part.1
            ∙ (IsReading-Reachable input c r).rows,
      )

  -- A call that returns without an error has read all rows, none was a failure, and, as long as no
  -- COMMIT took effect that ended with an error, has written exactly the transformed rows, each
  -- once and in their order; it returns their number.
  pub Reachable-exact :
      (input : List ReadResult) (c : Copier) (n size : ℕ)
      → Reachable conf input c
      → outcome c ≡ some (done n size)
      → c.lost ≡ 0
      → (is_clean conf.columns input ≡ true)
        × (c.committed ≡ readable conf.columns input)
        × (n ≡ length c.committed)
  unfolding outcome
  Reachable-exact input c n size r e z =
      let o = IsOrderly-Reachable conf input c r in
      let a = Accounted-Reachable conf input c r z in
      let read = IsReading-Reachable input c r in
      let (over, unread, unfailed, count) = return_at-done c n size c.reader e in
      let (no_input, no_batch, no_channel, no_hand) = finished_empty c o over unread in
      let all : c.committed ++ [] ≡ c.taken =
        sym (
          ap (λ h. c.committed ++ (h ++ (concat c.channel ++ c.batch))) no_hand
          ∙ ap₂ (λ ch b. c.committed ++ (concat ch ++ b)) no_channel no_batch)
        ∙ a.whole unfailed in
      (
        sym read.clean ∙ ap (is_clean conf.columns) no_input,
        sym (append-nil c.committed)
            ∙ all
            ∙ sym (append-nil c.taken)
            ∙ sym (ap (λ i. c.taken ++ readable conf.columns i) no_input)
            ∙ read.rows,
        count ∙ a.counted,
      )
