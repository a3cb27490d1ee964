-- ===== src/PlSql/Arguments.antt =====
-- What splitTopLevel of internal/plsql/convert.go finds.
use existora2pg.PlSql.{deeper, shallower, split_at_depth, split_top_level}
use mathlib.Core.Path.{ap₂}
use existora2pg.Prelude.Int.{ℤ, pos, is_int}
use existora2pg.Prelude.{
  ℕ, zero, suc, ◌≡◌, refl, sym, ap, ◌∙◌, ◌==◌, ◌&&◌, Bool, true, false, Text, List, [], ◌∷◌, ◌++◌,
  if◌then◌else◌, onto_first, join, All, arith, Bool-cases, inl, inr, append-nil,
}

module _ (sep : ℕ) where
  -- From a depth on, the parentheses are closed in order, down to the depth 0 at the end, and no
  -- separator stands at the depth 0.
  unfoldable pub is_closed : ℕ → Text → Bool
  is_closed zero [] = true
  is_closed (suc n) [] = false
  is_closed zero (c ∷ s) =
      let inside = is_closed 1 s in
      let rest = is_closed 0 s in
      if c == b'(' then inside else if c == b')' then false else if c == sep then false else rest
  is_closed (suc n) (c ∷ s) =
      let inside = is_closed (suc (suc n)) s in
      let outside = is_closed n s in
      let rest = is_closed (suc n) s in
      if c == b'(' then inside else if c == b')' then outside else rest

  -- A text in front of the first part.
  abbrev onto : Text → List Text → List Text
  onto a [] = a ∷ []
  onto a (p ∷ ps) = (a ++ p) ∷ ps

  onto_first-onto : (c : ℕ) (a : Text) (ps : List Text) → onto_first c (onto a ps) ≡ onto (c ∷ a) ps
  onto_first-onto c a [] = refl
  onto_first-onto c a (p ∷ ps) = refl

  onto_first-onto_nil : (c : ℕ) (ps : List Text) → onto [] (onto_first c ps) ≡ onto_first c ps
  onto_first-onto_nil c [] = refl
  onto_first-onto_nil c (p ∷ ps) = refl

  -- There is a first part.
  onto_nil : (d : ℤ) (s : Text) → onto [] (split_at_depth sep d s) ≡ split_at_depth sep d s
  unfolding split_at_depth
  onto_nil d [] = refl
  onto_nil d (c ∷ s) = elim (Bool-cases (c == b'(')) [
    | inl opens ↦ rw opens (onto_first-onto_nil c (split_at_depth sep (deeper d) s))
    | inr e ↦ rw e (elim (Bool-cases (c == b')')) [
      | inl shuts ↦ rw shuts (onto_first-onto_nil c (split_at_depth sep (shallower d) s))
      | inr f ↦ rw f (elim (Bool-cases (c == sep && is_int d 0)) [
        | inl parts ↦ rw parts refl
        | inr g ↦ rw g (onto_first-onto_nil c (split_at_depth sep d s))
      ])
    ])
  ]

  closed_step :
      (c : ℕ) (a rest : Text) (r : List Text)
      → r ≡ onto a (split_at_depth sep (pos 0) rest)
      → onto_first c r ≡ onto (c ∷ a) (split_at_depth sep (pos 0) rest)
  closed_step c a rest r e =
      ap (onto_first c) e ∙ onto_first-onto c a (split_at_depth sep (pos 0) rest)

  deep : (n : ℕ) → suc n == 0 ≡ false
  deep n = ground arith

  split_at_depth-closed :
      (n : ℕ) (a rest : Text)
      → is_closed n a ≡ true
      → split_at_depth sep (pos n) (a ++ rest) ≡ onto a (split_at_depth sep (pos 0) rest)
  unfolding is_closed split_at_depth
  split_at_depth-closed zero [] rest h = sym (onto_nil (pos 0) rest)
  split_at_depth-closed (suc n) [] rest h = absurd (cc h)
  split_at_depth-closed zero (c ∷ a) rest h = elim (Bool-cases (c == b'(')) [
    | inl opens ↦ rw opens (closed_step c a rest _ (split_at_depth-closed 1 a rest (rw opens at h)))
    | inr e ↦ elim (Bool-cases (c == b')')) [
      | inl shuts ↦ absurd (cc (rw (e, shuts) at h))
      | inr f ↦ elim (Bool-cases (c == sep)) [
        | inl parts ↦ absurd (cc (rw (e, f, parts) at h))
        | inr g ↦
            rw (e, f, g)
              (closed_step c a rest _ (split_at_depth-closed 0 a rest (rw (e, f, g) at h)))
      ]
    ]
  ]
  split_at_depth-closed (suc n) (c ∷ a) rest h = elim (Bool-cases (c == b'(')) [
    | inl opens ↦
        rw opens
          (closed_step c a rest _ (split_at_depth-closed (suc (suc n)) a rest (rw opens at h)))
    | inr e ↦ elim (Bool-cases (c == b')')) [
      | inl shuts ↦
          rw (e, shuts)
            (closed_step c a rest _ (split_at_depth-closed n a rest (rw (e, shuts) at h)))
      | inr f ↦
          rw (e, f)
            (elim (Bool-cases (c == sep)) [
              | inl parts ↦
                  rw (parts, deep n)
                    (closed_step c a rest _ (split_at_depth-closed (suc n) a rest (rw (e, f) at h)))
              | inr g ↦
                  rw g
                    (closed_step c a rest _ (split_at_depth-closed (suc n) a rest (rw (e, f) at h)))
            ])
    ]
  ]

  split_at_depth-sep :
      (s : Text)
      → sep == b'(' ≡ false
      → sep == b')' ≡ false
      → split_at_depth sep (pos 0) (sep ∷ s) ≡ [] ∷ split_at_depth sep (pos 0) s
  unfolding split_at_depth
  split_at_depth-sep s e f = let here : sep == sep ≡ true = ground arith in rw (e, f, here) refl

  -- The arguments of a call are found again in its text: where each of them has its parentheses
  -- closed in order, and no separator outside of them (also none in a string literal), and the
  -- separator is no parenthesis, splitTopLevel on the arguments, joined by the separator, yields the
  -- arguments.
  pub split_top_level-join :
      (a : Text) (rest : List Text)
      → sep == b'(' ≡ false
      → sep == b')' ≡ false
      → All (λ s. is_closed 0 s ≡ true) (a ∷ rest)
      → split_top_level (join (sep ∷ []) (a ∷ rest)) sep ≡ a ∷ rest
  unfolding split_top_level join split_at_depth
  split_top_level-join a [] e f h =
      ap (split_at_depth sep (pos 0)) (sym (append-nil a))
      ∙ split_at_depth-closed 0 a [] h.0
      ∙ ap (λ t. t ∷ []) (append-nil a)
  split_top_level-join a (b ∷ rest) e f h =
      split_at_depth-closed 0 a (sep ∷ join (sep ∷ []) (b ∷ rest)) h.0
      ∙ ap (onto a) (split_at_depth-sep (join (sep ∷ []) (b ∷ rest)) e f)
      ∙ ap₂ (λ t ts. t ∷ ts) (append-nil a) (split_top_level-join b rest e f h.1)
