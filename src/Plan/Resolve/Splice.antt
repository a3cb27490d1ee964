-- ===== src/Plan/Resolve/Splice.antt =====
-- Lemmas on the splice of internal/migration/plan.go.
use native.Mathlib.Nat.{suc-add, zero-add}
use existora2pg.Plan.Resolve.{splice}
use existora2pg.Prelude.{[], ◌∷◌, drop_left, take_left, ◌≡◌, ◌++◌, ◌+◌, drop, length, List, ℕ}

drop-add_left :
    (k : ℕ) {A : Type 0} (pre xs : List A) → drop (length pre + k) (pre ++ xs) ≡ drop k xs
drop-add_left k [] xs = rw zero-add
drop-add_left k (x ∷ pre) xs = rw suc-add (drop-add_left k pre xs)

-- A splice that starts behind a prefix and takes out a middle part.
pub splice_middle :
    {A : Type 0} (pre old repl rest : List A)
    → splice (length pre) (length old) repl (pre ++ (old ++ rest)) ≡ pre ++ (repl ++ rest)
unfolding splice
splice_middle pre old repl rest =
    rw (
      take_left pre (old ++ rest),
      drop-add_left (length old) pre (old ++ rest),
      drop_left old rest,
    )
