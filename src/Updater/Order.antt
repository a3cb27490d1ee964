-- ===== src/Updater/Order.antt =====
-- The order of versions in internal/updater/updater.go, and the file that is offered.
use existora2pg.Prelude.Int.{ℤ, pos, negsuc}
use existora2pg.Updater.{
  int_ltb, newer_parts, is_newer, parse_version, platform_pattern, first_with, find_asset, Asset,
}
use existora2pg.Prelude.{
  Bool, ◌≡◌, refl, true, false, Text, codes, text_eq, List, [], ◌∷◌, some, arith, contains,
  has_prefix,
}

int_ltb_irrefl : (a : ℤ) → int_ltb a a ≡ false
int_ltb_irrefl (pos m) = ground arith
int_ltb_irrefl (negsuc m) = ground arith

-- The order of two numbers, and of three, by their Boolean tests.
int_ltb_trans : (a b c : ℤ) → int_ltb b a ≡ false → int_ltb c b ≡ false → int_ltb c a ≡ false
int_ltb_trans (pos a) (pos b) (pos c) h k = ground arith
int_ltb_trans (pos a) (pos b) (negsuc c) h k = cc k
int_ltb_trans (pos a) (negsuc b) c h k = cc h
int_ltb_trans (negsuc a) (pos b) (pos c) h k = refl
int_ltb_trans (negsuc a) (pos b) (negsuc c) h k = cc k
int_ltb_trans (negsuc a) (negsuc b) (pos c) h k = refl
int_ltb_trans (negsuc a) (negsuc b) (negsuc c) h k = ground arith

int_ltb-asym : (a b : ℤ) → int_ltb a b ≡ true → int_ltb b a ≡ false
int_ltb-asym (pos a) (pos b) h = ground arith
int_ltb-asym (pos a) (negsuc b) h = absurd (cc h)
int_ltb-asym (negsuc a) (pos b) h = refl
int_ltb-asym (negsuc a) (negsuc b) h = ground arith

not_true : (b : Bool) → (b ≡ true → ⊥) → b ≡ false
not_true true h = absurd (h refl)
not_true false h = refl

-- The empty text stands in every text.
contains-nil : (s : Text) → contains s [] ≡ true
unfolding contains has_prefix
contains-nil [] = refl
contains-nil (c ∷ s) = refl

newer_parts_irrefl : (v : List ℤ) → newer_parts v v ≡ false
unfolding newer_parts
newer_parts_irrefl [] = refl
newer_parts_irrefl (a ∷ v) = ground (arith, int_ltb_irrefl a, newer_parts_irrefl v)

newer_parts_trans :
    (u v w : List ℤ) → newer_parts u v ≡ true → newer_parts v w ≡ true → newer_parts u w ≡ true
unfolding newer_parts
newer_parts_trans [] v w h k = absurd (cc h)
newer_parts_trans (a ∷ u) [] w h k = absurd (cc h)
newer_parts_trans (a ∷ u) (b ∷ v) [] h k = absurd (cc k)
newer_parts_trans (a ∷ u) (b ∷ v) (c ∷ w) h k = ground (
  arith,
  int_ltb-asym a b,
  int_ltb-asym b c,
  int_ltb_trans a b c,
  int_ltb_trans b c a,
  int_ltb_trans c a b,
  newer_parts_trans u v w,
)

-- Whether a release is newer is a strict order of the versions: no version is newer than itself, and
-- what is newer than a newer one is newer; so no two versions are each newer than the other, and an
-- updated program is not offered the version that it has replaced.
pub is_newer-IsStrict :
    (u v w : Text)
    → (is_newer u u ≡ false)
      × (is_newer u v ≡ true → is_newer v w ≡ true → is_newer u w ≡ true)
      × (is_newer u v ≡ true → is_newer v u ≡ false)
unfolding is_newer
is_newer-IsStrict u v w =
    let a = parse_version u in
    let b = parse_version v in
    (
      newer_parts_irrefl a,
      newer_parts_trans a b (parse_version w),
      λ h. not_true (newer_parts b a) (λ k. cc (newer_parts_irrefl a, newer_parts_trans a b a h k)),
    )

-- On a system other than Windows, macOS and Linux the first file of the release is offered, whatever
-- system it is for.
pub find_asset_other :
    (os arch : Text) (a : Asset) (rest : List Asset)
    → text_eq os (codes "windows") ≡ false
    → text_eq os (codes "darwin") ≡ false
    → text_eq os (codes "linux") ≡ false
    → find_asset os arch (a ∷ rest) ≡ some a
unfolding find_asset platform_pattern first_with
find_asset_other os arch a rest windows darwin linux =
    rw (windows, darwin, linux, contains-nil a.name) refl
