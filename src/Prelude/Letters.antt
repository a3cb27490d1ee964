-- ===== src/Prelude/Letters.antt =====
-- The case of ASCII letters, converted twice and in parts.
use existora2pg.Prelude.{
  ℕ, Text, [], ◌∷◌, ◌++◌, ◌≡◌, refl, ap, arith, to_lower, to_upper, lower_byte, upper_byte,
  map-append, ◌∙◌,
}

lower_byte_idem : (c : ℕ) → lower_byte (lower_byte c) ≡ lower_byte c
lower_byte_idem c = ground arith

upper_byte-lower_byte : (c : ℕ) → upper_byte (lower_byte c) ≡ upper_byte c
upper_byte-lower_byte c = ground arith

pub to_lower_idem : (s : Text) → to_lower (to_lower s) ≡ to_lower s
unfolding to_lower
to_lower_idem [] = refl
to_lower_idem (c ∷ s) = rw (lower_byte_idem c) (ap (λ r. lower_byte c ∷ r) (to_lower_idem s))

pub to_upper-to_lower : (s : Text) → to_upper (to_lower s) ≡ to_upper s
unfolding to_lower to_upper
to_upper-to_lower [] = refl
to_upper-to_lower (c ∷ s) =
    rw (upper_byte-lower_byte c) (ap (λ r. upper_byte c ∷ r) (to_upper-to_lower s))

pub to_lower-append : (s t : Text) → to_lower (s ++ t) ≡ to_lower s ++ to_lower t
unfolding to_lower
to_lower-append s t = map-append lower_byte s t

pub to_upper-append : (s t : Text) → to_upper (s ++ t) ≡ to_upper s ++ to_upper t
unfolding to_upper
to_upper-append s t = map-append upper_byte s t

-- A text that starts with the lower-case form of `s`, and with `s`: they are the same.
pub to_lower-eq_of_prefix : (s x y : Text) → to_lower s ++ x ≡ s ++ y → to_lower s ≡ s
unfolding to_lower
to_lower-eq_of_prefix [] x y e = refl
to_lower-eq_of_prefix (c ∷ s) x y e = cc (e, to_lower-eq_of_prefix s x y (cc e))

-- Two lower-case texts joined by an underscore.
pub to_lower-joined :
    (s t : Text) → to_lower (to_lower s ++ b'_' ∷ to_lower t) ≡ to_lower s ++ b'_' ∷ to_lower t
unfolding to_lower
to_lower-joined s t =
    to_lower-append (to_lower s) (b'_' ∷ to_lower t)
    ∙ ap (λ r. r ++ b'_' ∷ to_lower (to_lower t)) (to_lower_idem s)
    ∙ ap (λ r. to_lower s ++ b'_' ∷ r) (to_lower_idem t)

pub to_upper-joined :
    (s t : Text) → to_upper (to_lower s ++ b'_' ∷ to_lower t) ≡ to_upper s ++ b'_' ∷ to_upper t
unfolding to_upper
to_upper-joined s t =
    to_upper-append (to_lower s) (b'_' ∷ to_lower t)
    ∙ ap (λ r. r ++ b'_' ∷ to_upper (to_lower t)) (to_upper-to_lower s)
    ∙ ap (λ r. to_upper s ++ b'_' ∷ r) (to_upper-to_lower t)
