-- ===== src/Copy/Account.antt =====
-- Where the rows are that CopyData of internal/postgres/writer.go has read.
use mathlib.Core.Path.{ap₂}
use existora2pg.Copy.{
  Row, ReadResult, Settings, Reader, Writing, Copier, Step, Reachable, put, sending_last, closing,
  waiting, returned, idle, flushing, draining, ended, give_up, acquires, acquires_later,
  acquires_none, sets, sets_not, reads_row, reads_failure, reads_end, hears, sees_cancel, sends,
  sends_last, closes, returns, takes, ends, commits, fails, fails_last, loses, loses_last,
  interrupted, drains, drained, cancels, started, next,
}
use existora2pg.Prelude.{
  ℕ, suc, ◌+◌, ◌≡◌, refl, sym, ap, ◌∙◌, Bool, true, false, not, ◌&&◌, Text, List, [], ◌∷◌, ◌++◌,
  none, is_some, is_nil, length, append_assoc, append-nil, length-append, arith,
}

-- The read loop is over.
abbrev pub is_past : Reader → Bool
is_past closing = true
is_past waiting = true
is_past returned = true
is_past _ = false

-- The channel of the batches has been closed.
abbrev pub is_beyond : Reader → Bool
is_beyond waiting = true
is_beyond returned = true
is_beyond _ = false

abbrev pub is_returned : Reader → Bool
is_returned returned = true
is_returned _ = false

abbrev pub is_last : Reader → Bool
is_last sending_last = true
is_last _ = false

abbrev pub is_working : Writing → Bool
is_working idle = true
is_working (flushing b n) = true
is_working _ = false

abbrev pub is_draining : Writing → Bool
is_draining draining = true
is_draining _ = false

abbrev pub is_ended : Writing → Bool
is_ended ended = true
is_ended _ = false

-- How the two sides go together.
pub record IsOrderly (c : Copier) : Type 0 where
  pub working : is_working c.writer && is_some c.write_err ≡ false
  pub given_up : is_draining c.writer && not (is_some c.write_err) ≡ false
  pub read_all :
      is_past c.reader && (not (is_some c.read_err) && not (is_nil c.input && is_nil c.batch))
      ≡ false
  pub at_last : is_last c.reader && not (is_nil c.input) ≡ false
  pub unread : not (is_past c.reader) && is_some c.read_err ≡ false
  pub quiet : is_ended c.writer && not (c.closed && is_nil c.channel) ≡ false
  pub shut : c.closed && not (is_beyond c.reader) ≡ false
  pub announced : is_beyond c.reader && not c.closed ≡ false
  pub over : is_returned c.reader && not (is_ended c.writer) ≡ false

module _ (conf : Settings) where
  pub IsOrderly-Step : (c d : Copier) → Step conf c d → IsOrderly c → IsOrderly d
  unfolding put
  IsOrderly-Step c _ (acquires n e) h = ground arith
  IsOrderly-Step c _ (acquires_later n e f) h = ground arith
  IsOrderly-Step c _ (acquires_none n m e f) h = ground arith
  IsOrderly-Step c _ (sets e) h = ground arith
  IsOrderly-Step c _ (sets_not m e f) h = ground arith
  IsOrderly-Step c _ (reads_row r v rest e f g) h = ground arith
  IsOrderly-Step c _ (reads_failure m rest e f) h = ground arith
  IsOrderly-Step c _ (reads_end e f) h = ground arith
  IsOrderly-Step c _ (hears m e f) h = ground arith
  IsOrderly-Step c _ (sees_cancel e f) h = ground arith
  IsOrderly-Step c _ (sends e f) h = ground arith
  IsOrderly-Step c _ (sends_last e f) h = ground arith
  IsOrderly-Step c _ (closes e) h = ground arith
  IsOrderly-Step c _ (returns e f) h = ground arith
  IsOrderly-Step c _ (takes b rest e f) h = ground arith
  IsOrderly-Step c _ (ends e f g) h = ground arith
  IsOrderly-Step c _ (commits b n e) h = ground arith
  IsOrderly-Step c _ (fails b n e) h = ground arith
  IsOrderly-Step c _ (fails_last b m e) h = ground arith
  IsOrderly-Step c _ (loses b n e) h = ground arith
  IsOrderly-Step c _ (loses_last b m e) h = ground arith
  IsOrderly-Step c _ (interrupted b n e f g) h = ground arith
  IsOrderly-Step c _ (drains b rest e f) h = ground arith
  IsOrderly-Step c _ (drained e f g) h = ground arith
  IsOrderly-Step c _ cancels h = ground arith

-- The batches one after the other.
abbrev pub concat : List (List Row) → List Row
concat [] = []
concat (b ∷ bs) = b ++ concat bs

concat-snoc : (bs : List (List Row)) (b : List Row) → concat (bs ++ b ∷ []) ≡ concat bs ++ b
concat-snoc [] b = append-nil b
concat-snoc (c ∷ bs) b = ap (λ r. c ++ r) (concat-snoc bs b) ∙ sym (append_assoc c (concat bs) b)

abbrev pub in_hand : Writing → List Row
in_hand (flushing b n) = b
in_hand _ = []

-- The rows that are on their way.
abbrev pub on_way : Copier → List Row
on_way c = in_hand c.writer ++ (concat c.channel ++ c.batch)

-- The rows that were read are in the target or on their way, in their order, as long as no batch was
-- given up; after that the target has a part of them, from the start on.
pub record IsAccounted (c : Copier) : Type 0 where
  pub whole : c.write_err ≡ none → c.committed ++ on_way c ≡ c.taken
  pub part : (rest : List Row) × (c.committed ++ rest ≡ c.taken)
  pub counted : c.total_rows ≡ length c.committed

abbrev pub Accounted : Copier → Type 0
Accounted c = c.lost ≡ 0 → IsAccounted c

module _ (conf : Settings) where
  -- A step that neither moves rows nor gives up.
  kept :
      (c d : Copier)
      → d.committed ≡ c.committed
      → on_way d ≡ on_way c
      → d.taken ≡ c.taken
      → d.write_err ≡ c.write_err
      → d.total_rows ≡ c.total_rows
      → IsAccounted c
      → IsAccounted d
  kept c d e1 e2 e3 e4 e5 h = record {
    whole = λ w. ap₂ ◌++◌ e1 e2 ∙ h.whole (sym e4 ∙ w) ∙ sym e3;
    part = (h.part.0, ap (λ r. r ++ h.part.0) e1 ∙ h.part.1 ∙ sym e3);
    counted = cc (h.counted);
  }

  on_way-snoc :
      (xs ys zs : List Row) (v : Row) → xs ++ (ys ++ (zs ++ v ∷ [])) ≡ (xs ++ (ys ++ zs)) ++ v ∷ []
  on_way-snoc xs ys zs v = simp append_assoc

  reads-IsAccounted :
      (c : Copier) (rest : List ReadResult) (v : Row)
      → IsAccounted c
      → IsAccounted (put conf c rest v)
  unfolding put
  reads-IsAccounted c rest v h = record {
    whole = λ w.
        ap (◌++◌ c.committed) (on_way-snoc (in_hand c.writer) (concat c.channel) c.batch v)
        ∙ sym (append_assoc c.committed (on_way c) (v ∷ []))
        ∙ ap (λ r. r ++ v ∷ []) (h.whole w);
    part = (
      h.part.0 ++ v ∷ [],
      sym (append_assoc c.committed h.part.0 (v ∷ [])) ∙ ap (λ r. r ++ v ∷ []) h.part.1,
    );
    counted = h.counted;
  }

  sent :
      (c : Copier)
      → in_hand c.writer ++ (concat (c.channel ++ c.batch ∷ []) ++ [])
        ≡ in_hand c.writer ++ (concat c.channel ++ c.batch)
  sent c = ap (λ r. in_hand c.writer ++ r) (append-nil _ ∙ concat-snoc c.channel c.batch)

  gives_up-IsAccounted : (c : Copier) (e : Text) → IsAccounted c → IsAccounted (give_up c e)
  gives_up-IsAccounted c e h = record {
    whole = λ w. absurd (cc w);
    part = h.part;
    counted = h.counted;
  }

  commits-IsAccounted :
      (c : Copier) (b : List Row) (n k : ℕ)
      → c.writer ≡ flushing b n
      → c.write_err ≡ none
      → IsAccounted c
      → IsAccounted (record c {
        writer = idle;
        committed = c.committed ++ b;
        total_rows = c.total_rows + length b;
        batch_count = k;
      })
  commits-IsAccounted c b n k e w h =
      let left = concat c.channel ++ c.batch in
      let all : (c.committed ++ b) ++ left ≡ c.taken =
        append_assoc c.committed b left
        ∙ sym (ap (λ p. c.committed ++ (in_hand p ++ left)) e)
        ∙ h.whole w in
      record {
        whole = λ _. all;
        part = (left, all);
        counted = omega (arith, h.counted, length-append c.committed b);
      }

  pub Accounted-Step : (c d : Copier) → Step conf c d → IsOrderly c → Accounted c → Accounted d
  unfolding put
  Accounted-Step c d (acquires n e) o h z = kept c d refl refl refl refl refl (h z)
  Accounted-Step c d (acquires_later n e f) o h z = kept c d refl refl refl refl refl (h z)
  Accounted-Step c d (acquires_none n m e f) o h z = kept c d refl refl refl refl refl (h z)
  Accounted-Step c d (sets e) o h z = kept c d refl refl refl refl refl (h z)
  Accounted-Step c d (sets_not m e f) o h z = kept c d refl refl refl refl refl (h z)
  Accounted-Step c _ (reads_row r v rest e f g) o h z = reads-IsAccounted c rest v (h z)
  Accounted-Step c d (reads_failure m rest e f) o h z = kept c d refl refl refl refl refl (h z)
  Accounted-Step c d (reads_end e f) o h z = kept c d refl refl refl refl refl (h z)
  Accounted-Step c d (hears m e f) o h z = kept c d refl refl refl refl refl (h z)
  Accounted-Step c d (sees_cancel e f) o h z = kept c d refl refl refl refl refl (h z)
  Accounted-Step c d (sends e f) o h z = kept c d refl (sent c) refl refl refl (h z)
  Accounted-Step c d (sends_last e f) o h z = kept c d refl (sent c) refl refl refl (h z)
  Accounted-Step c d (closes e) o h z = kept c d refl refl refl refl refl (h z)
  Accounted-Step c d (returns e f) o h z = kept c d refl refl refl refl refl (h z)
  Accounted-Step c d (takes b rest e f) o h z =
      kept c d refl
        (sym (
          ap₂ (λ w ch. in_hand w ++ (concat ch ++ c.batch)) e f
          ∙ append_assoc b (concat rest) c.batch))
        refl refl refl (h z)
  Accounted-Step c d (ends e f g) o h z =
      kept c d refl (sym (ap (λ w. in_hand w ++ (concat c.channel ++ c.batch)) e)) refl refl refl
        (h z)
  Accounted-Step c d (commits b n e) o h z =
      commits-IsAccounted c b n (suc c.batch_count) e (ground (arith, o.working)) (h z)
  Accounted-Step c d (fails b n e) o h z =
      kept c d refl (sym (ap (λ w. in_hand w ++ (concat c.channel ++ c.batch)) e)) refl refl refl
        (h z)
  Accounted-Step c d (fails_last b m e) o h z = gives_up-IsAccounted c _ (h z)
  Accounted-Step c d (loses b n e) o h z = absurd (omega arith)
  Accounted-Step c d (loses_last b m e) o h z = absurd (omega arith)
  Accounted-Step c d (interrupted b n e f g) o h z = gives_up-IsAccounted c _ (h z)
  Accounted-Step c d (drains b rest e f) o h z = record {
    whole = λ w. absurd (ground (arith, o.given_up));
    part = (h z).part;
    counted = (h z).counted;
  }
  Accounted-Step c d (drained e f g) o h z =
      kept c d refl (sym (ap (λ w. in_hand w ++ (concat c.channel ++ c.batch)) e)) refl refl refl
        (h z)
  Accounted-Step c d cancels o h z = kept c d refl refl refl refl refl (h z)

  -- What holds wherever a call leads to.
  pub IsOrderly-Reachable :
      (input : List ReadResult) (c : Copier) → Reachable conf input c → IsOrderly c
  IsOrderly-Reachable input _ started = ground arith
  IsOrderly-Reachable input d (next {c} r s) =
      IsOrderly-Step conf c d s (IsOrderly-Reachable input c r)

  pub Accounted-Reachable :
      (input : List ReadResult) (c : Copier) → Reachable conf input c → Accounted c
  Accounted-Reachable input _ started z = record {
    whole = λ _. refl;
    part = ([], refl);
    counted = refl;
  }
  Accounted-Reachable input d (next {c} r s) z =
      Accounted-Step c d s (IsOrderly-Reachable input c r) (Accounted-Reachable input c r) z
