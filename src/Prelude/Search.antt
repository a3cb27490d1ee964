-- ===== src/Prelude/Search.antt =====
-- Where a text stands in another one, behind bytes that it does not start with.
use existora2pg.Prelude.{
  ℕ, ◌≡◌, refl, ap, arith, true, false, Text, [], ◌∷◌, ◌++◌, some, none, length, any, ◌==◌,
  has_prefix, contains, index_of, index_byte, next_index, ||-eq_false,
}

-- The byte is not in the text.
abbrev pub HasNo : ℕ → Text → Type 0
HasNo b s = any (λ c. c == b) s ≡ false

pub HasNo-head : (b c : ℕ) (s : Text) → HasNo b (c ∷ s) → c == b ≡ false
HasNo-head b c s h = (||-eq_false (c == b) (any (λ d. d == b) s) h).0

pub HasNo-tail : (b c : ℕ) (s : Text) → HasNo b (c ∷ s) → HasNo b s
HasNo-tail b c s h = (||-eq_false (c == b) (any (λ d. d == b) s) h).1

pub has_prefix-append : (p t : Text) → has_prefix (p ++ t) p ≡ true
unfolding has_prefix
has_prefix-append [] [] = refl
has_prefix-append [] (c ∷ t) = refl
has_prefix-append (c ∷ p) t = ground (arith, has_prefix-append p t)

has_prefix-other : (b c : ℕ) (p s : Text) → c == b ≡ false → has_prefix (c ∷ s) (b ∷ p) ≡ false
unfolding has_prefix
has_prefix-other b c p s h = rw h refl

module _ (b : ℕ) (p : Text) where
  pub index_of-append :
      (s t : Text) → HasNo b s → index_of (s ++ ((b ∷ p) ++ t)) (b ∷ p) ≡ some (length s)
  unfolding index_of
  index_of-append [] t h = rw (has_prefix-append (b ∷ p) t) refl
  index_of-append (c ∷ s) t h =
      rw (has_prefix-other b c p (s ++ ((b ∷ p) ++ t)) (HasNo-head b c s h))
        (ap next_index (index_of-append s t (HasNo-tail b c s h)))

  pub index_of-none : (s : Text) → HasNo b s → index_of s (b ∷ p) ≡ none
  unfolding index_of has_prefix
  index_of-none [] h = refl
  index_of-none (c ∷ s) h =
      rw (HasNo-head b c s h) (ap next_index (index_of-none s (HasNo-tail b c s h)))

  pub contains-append : (s t : Text) → contains (s ++ ((b ∷ p) ++ t)) (b ∷ p) ≡ true
  unfolding contains
  contains-append [] t = rw (has_prefix-append (b ∷ p) t) refl
  contains-append (c ∷ s) t = ground (arith, contains-append s t)

  pub contains-none : (s : Text) → HasNo b s → contains s (b ∷ p) ≡ false
  unfolding contains has_prefix
  contains-none [] h = refl
  contains-none (c ∷ s) h = rw (HasNo-head b c s h) (contains-none s (HasNo-tail b c s h))

  pub has_prefix-none : (s : Text) → HasNo b s → has_prefix s (b ∷ p) ≡ false
  unfolding has_prefix
  has_prefix-none [] h = refl
  has_prefix-none (c ∷ s) h = rw (HasNo-head b c s h) refl

pub index_byte-append :
    (b : ℕ) (s t : Text) → HasNo b s → index_byte (s ++ b ∷ t) b ≡ some (length s)
unfolding index_byte
index_byte-append b [] t h = ground arith
index_byte-append b (c ∷ s) t h =
    rw (HasNo-head b c s h) (ap next_index (index_byte-append b s t (HasNo-tail b c s h)))
