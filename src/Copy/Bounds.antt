-- ===== src/Copy/Bounds.antt =====
-- The sizes of the batches of CopyData of internal/postgres/writer.go.
use existora2pg.Copy.{
  Row, ReadResult, Settings, Reader, Writing, Copier, Step, Reachable, put, is_full, rows_per_batch,
  buf_cap, acquiring, setting, selecting, sending, sending_last, closing, flushing, acquires,
  acquires_later, acquires_none, sets, sets_not, reads_row, reads_failure, reads_end, hears,
  sees_cancel, sends, sends_last, closes, returns, takes, ends, commits, fails, fails_last, loses,
  loses_last, interrupted, drains, drained, cancels, started, next,
}
use existora2pg.Prelude.{
  ℕ, ◌≤◌, ◌<◌, ◌≡◌, refl, Bool, true, false, List, [], ◌∷◌, ◌++◌, length, length-append, arith,
  is_nil, subst, ap, if◌then◌else◌, ltb, All, All-append,
}

module _ (conf : Settings) where
  -- A batch that may be sent: not empty, and of so many rows at most.
  abbrev pub IsBatch : List Row → Type 0
  IsBatch b = (0 < length b) × (length b ≤ rows_per_batch conf)

  -- What the size of the batch in front of each select is.
  abbrev Fits : Reader → ℕ → Type 0
  Fits (acquiring k) n = n ≡ 0
  Fits setting n = n ≡ 0
  Fits selecting n = n < rows_per_batch conf
  Fits sending n = (0 < n) × (n ≤ rows_per_batch conf)
  Fits sending_last n = (0 < n) × (n ≤ rows_per_batch conf)
  Fits _ n = Unit

  abbrev Held : Writing → Type 0
  Held (flushing b n) = IsBatch b
  Held _ = Unit

  record IsBounded (c : Copier) : Type 0 where
    own : Fits c.reader (length c.batch)
    room : length c.channel ≤ buf_cap conf
    channel : All IsBatch c.channel
    hand : Held c.writer

  rows_per_batch-pos : 0 < rows_per_batch conf
  unfolding rows_per_batch
  rows_per_batch-pos = ground arith

  Fits-if :
      (full : Bool) (n : ℕ)
      → 0 < n
      → n ≤ rows_per_batch conf
      → (full ≡ false → n < rows_per_batch conf)
      → Fits (if full then sending else selecting) n
  Fits-if true n p q r = (p, q)
  Fits-if false n p q r = r refl

  own-put :
      (batch : List Row) (v : Row) (k : ℕ)
      → length batch < rows_per_batch conf
      → Fits
          (if is_full conf (batch ++ v ∷ []) k then sending else selecting)
          (length (batch ++ v ∷ []))
  unfolding is_full
  own-put batch v k h =
      Fits-if (is_full conf (batch ++ v ∷ []) k) _ (omega (arith, length-append batch (v ∷ [])))
        (omega (arith, length-append batch (v ∷ []))) (λ e. ground arith)

  own-end :
      (batch : List Row)
      → length batch < rows_per_batch conf
      → Fits (if is_nil batch then closing else sending_last) (length batch)
  own-end [] h = tt
  own-end (r ∷ rs) h = (omega arith, omega arith)

  IsBounded-Step : (c d : Copier) → Step conf c d → IsBounded c → IsBounded d
  unfolding put
  IsBounded-Step c _ (acquires n e) h = record {
    own = (subst (λ r. Fits r (length c.batch)) e h.own);
    room = h.room;
    channel = h.channel;
    hand = h.hand;
  }
  IsBounded-Step c _ (acquires_later n e f) h = record {
    own = (subst (λ r. Fits r (length c.batch)) e h.own);
    room = h.room;
    channel = h.channel;
    hand = h.hand;
  }
  IsBounded-Step c _ (acquires_none n m e f) h = record {
    own = tt;
    room = h.room;
    channel = h.channel;
    hand = h.hand;
  }
  IsBounded-Step c _ (sets e) h = record {
    own =
        (let z = (subst (λ r. Fits r (length c.batch)) e h.own) in
          omega (arith, z, rows_per_batch-pos));
    room = h.room;
    channel = h.channel;
    hand = h.hand;
  }
  IsBounded-Step c _ (sets_not m e f) h = record {
    own = tt;
    room = h.room;
    channel = h.channel;
    hand = h.hand;
  }
  IsBounded-Step c _ (reads_row r v rest e f g) h = record {
    own = own-put c.batch v _ (subst (λ r. Fits r (length c.batch)) e h.own);
    room = h.room;
    channel = h.channel;
    hand = h.hand;
  }
  IsBounded-Step c _ (reads_failure m rest e f) h = record {
    own = tt;
    room = h.room;
    channel = h.channel;
    hand = h.hand;
  }
  IsBounded-Step c _ (reads_end e f) h = record {
    own = own-end c.batch (subst (λ r. Fits r (length c.batch)) e h.own);
    room = h.room;
    channel = h.channel;
    hand = h.hand;
  }
  IsBounded-Step c _ (hears m e f) h = record {
    own = tt;
    room = h.room;
    channel = h.channel;
    hand = h.hand;
  }
  IsBounded-Step c _ (sees_cancel e f) h = record {
    own = tt;
    room = h.room;
    channel = h.channel;
    hand = h.hand;
  }
  IsBounded-Step c _ (sends e f) h = record {
    own = rows_per_batch-pos;
    room = omega (arith, length-append c.channel (c.batch ∷ []));
    channel =
        All-append IsBatch c.channel (c.batch ∷ []) h.channel
          ((subst (λ r. Fits r (length c.batch)) e h.own), tt);
    hand = h.hand;
  }
  IsBounded-Step c _ (sends_last e f) h = record {
    own = tt;
    room = omega (arith, length-append c.channel (c.batch ∷ []));
    channel =
        All-append IsBatch c.channel (c.batch ∷ []) h.channel
          ((subst (λ r. Fits r (length c.batch)) e h.own), tt);
    hand = h.hand;
  }
  IsBounded-Step c _ (closes e) h = record {
    own = tt;
    room = h.room;
    channel = h.channel;
    hand = h.hand;
  }
  IsBounded-Step c _ (returns e f) h = record {
    own = tt;
    room = h.room;
    channel = h.channel;
    hand = h.hand;
  }
  IsBounded-Step c _ (takes b rest e f) h = record {
    own = h.own;
    room = (omega (arith, h.room, ap length f));
    channel = (subst (All IsBatch) f h.channel).1;
    hand = (subst (All IsBatch) f h.channel).0;
  }
  IsBounded-Step c _ (ends e f g) h = record {
    own = h.own;
    room = h.room;
    channel = h.channel;
    hand = tt;
  }
  IsBounded-Step c _ (commits b n e) h = record {
    own = h.own;
    room = h.room;
    channel = h.channel;
    hand = tt;
  }
  IsBounded-Step c _ (fails b n e) h = record {
    own = h.own;
    room = h.room;
    channel = h.channel;
    hand = (subst Held e h.hand);
  }
  IsBounded-Step c _ (fails_last b m e) h = record {
    own = h.own;
    room = h.room;
    channel = h.channel;
    hand = tt;
  }
  IsBounded-Step c _ (loses b n e) h = record {
    own = h.own;
    room = h.room;
    channel = h.channel;
    hand = (subst Held e h.hand);
  }
  IsBounded-Step c _ (loses_last b m e) h = record {
    own = h.own;
    room = h.room;
    channel = h.channel;
    hand = tt;
  }
  IsBounded-Step c _ (interrupted b n e f g) h = record {
    own = h.own;
    room = h.room;
    channel = h.channel;
    hand = tt;
  }
  IsBounded-Step c _ (drains b rest e f) h = record {
    own = h.own;
    room = (omega (arith, h.room, ap length f));
    channel = (subst (All IsBatch) f h.channel).1;
    hand = h.hand;
  }
  IsBounded-Step c _ (drained e f g) h = record {
    own = h.own;
    room = h.room;
    channel = h.channel;
    hand = tt;
  }
  IsBounded-Step c _ cancels h = record {
    own = h.own;
    room = h.room;
    channel = h.channel;
    hand = h.hand;
  }

  IsBounded-Reachable :
      (input : List ReadResult) (c : Copier) → Reachable conf input c → IsBounded c
  IsBounded-Reachable input _ started = record {
    own = refl;
    room = omega arith;
    channel = tt;
    hand = tt;
  }
  IsBounded-Reachable input d (next {c} r s) = IsBounded-Step c d s (IsBounded-Reachable input c r)

  -- At every moment of a copy the channel holds at most as many batches as its capacity, 4 for
  -- UNLOGGED tables and 2 for others, and no batch in it is empty or larger than the batch size,
  -- which is 50000 where none is set.
  pub Reachable_bounds :
      (input : List ReadResult) (c : Copier)
      → Reachable conf input c
      → (length c.channel ≤ (if conf.unlogged then 4 else 2))
        × All
            (λ b.
              (0 < length b)
              × (length b ≤ (if ltb 0 conf.batch_size then conf.batch_size else 50000)))
            c.channel
  unfolding buf_cap rows_per_batch
  Reachable_bounds input c r = let b = IsBounded-Reachable input c r in (b.room, b.channel)
