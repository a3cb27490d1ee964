-- ===== src/Updater.antt =====
-- internal/updater/updater.go: whether a release is newer than the program, and which file of it is
-- offered. The answer of GitHub is an argument; the download and the exchange of the binary are left
-- out.
pub mod Order
use existora2pg.Prelude.Int.{ℤ, pos, negsuc}
use existora2pg.Prelude.{
  ℕ, zero, suc, ◌+◌, ◌-◌, ◌*◌, ◌≤◌, ◌==◌, Bool, true, false, ◌&&◌, ◌||◌, not, Text, codes, text_eq,
  List, [], ◌∷◌, ◌++◌, Option, none, some, ltb, leb, is_nil, contains, has_prefix, trim_left,
  if◌then◌else◌,
}

pub record Asset : Type 0 where
  pub name : Text
  pub browser_download_url : Text
  pub size : ℕ

pub record Release : Type 0 where
  pub tag_name : Text
  pub body : Text
  pub html_url : Text
  pub assets : List Asset

pub record UpdateInfo : Type 0 where
  pub available : Bool
  pub current_version : Text
  pub latest_version : Text
  pub release_notes : Text
  pub release_url : Text
  pub download_url : Text
  pub asset_size : ℕ

-- Go's `<` on integers.
abbrev pub int_ltb : ℤ → ℤ → Bool
int_ltb (pos m) (pos n) = ltb m n
int_ltb (pos m) (negsuc n) = false
int_ltb (negsuc m) (pos n) = true
int_ltb (negsuc m) (negsuc n) = ltb n m

abbrev pub is_digit : ℕ → Bool
is_digit c = leb b'0' c && leb c b'9'

-- The digits that a text starts with, as a number, and what is behind them.
unfoldable pub digits_from : ℕ → Text → ℕ × Text
digits_from acc [] = (acc, [])
digits_from acc (c ∷ s) =
    let rest = digits_from (acc * 10 + (c - b'0')) s in if is_digit c then rest else (acc, c ∷ s)

-- `2^63`, the first number that an int does not hold.
abbrev pub int_limit : ℕ
int_limit = 9223372036854775808

abbrev pub signed : Bool → ℕ → ℤ
signed negative zero = pos 0
signed negative (suc n) = if negative then negsuc n else pos (suc n)

-- Digits behind a sign, if they are a number of type int.
abbrev pub checked_digits : Bool → Text → Option (ℤ × Text)
unfolding digits_from
checked_digits negative [] = none
checked_digits negative (c ∷ s) =
    let (n, rest) = digits_from 0 (c ∷ s) in
    if is_digit c && ltb n int_limit then some (signed negative n, rest) else none

-- The verb %d of fmt.Sscanf: spaces, a sign, and digits.
abbrev pub scan_signed : Text → Option (ℤ × Text)
scan_signed [] = none
scan_signed (c ∷ s) =
    if c == b'-'
    then checked_digits true s
    else if c == b'+'
    then checked_digits false s
    else checked_digits false (c ∷ s)

unfoldable pub scan_int : Text → Option (ℤ × Text)
unfolding trim_left
scan_int s = scan_signed (trim_left (λ c. c == 32 || c == 9) s)

-- The format of numbers with a dot between two: each number that was read, and 0 for the others.
abbrev pub zeros : ℕ → List ℤ
zeros zero = []
zeros (suc n) = pos 0 ∷ zeros n

abbrev pub behind_dot : (Text → List ℤ) → ℕ → Text → List ℤ
behind_dot scan n [] = zeros n
behind_dot scan n (c ∷ s) = if c == b'.' then scan s else zeros n

abbrev pub scan_next : (Text → List ℤ) → ℕ → Option (ℤ × Text) → List ℤ
scan_next scan n none = pos 0 ∷ zeros n
scan_next scan n (some (v, rest)) = v ∷ behind_dot scan n rest

unfoldable pub scan_version : ℕ → Text → List ℤ
unfolding scan_int
scan_version zero s = []
scan_version (suc n) s = scan_next (scan_version n) n (scan_int s)

-- strings.TrimPrefix(v, "v")
abbrev pub trim_v : Text → Text
trim_v [] = []
trim_v (c ∷ s) = if c == b'v' then s else c ∷ s

-- parseVersion
unfoldable pub parse_version : Text → List ℤ
unfolding scan_version
parse_version v = scan_version 3 (trim_v v)

-- The loop of isNewer over the parts of the two versions.
unfoldable pub newer_parts : List ℤ → List ℤ → Bool
newer_parts [] lat = false
newer_parts (c ∷ cur) [] = false
newer_parts (c ∷ cur) (l ∷ lat) =
    let rest = newer_parts cur lat in
    if int_ltb c l then true else if int_ltb l c then false else rest

-- isNewer
unfoldable pub is_newer : Text → Text → Bool
unfolding parse_version newer_parts
is_newer current latest = newer_parts (parse_version current) (parse_version latest)

-- The part of a file's name that stands for an operating system and an architecture.
unfoldable pub platform_pattern : Text → Text → Text
platform_pattern os arch =
    if text_eq os (codes "windows")
    then codes "windows-amd64.zip"
    else if text_eq os (codes "darwin")
    then if text_eq arch (codes "arm64")
      then codes "darwin-arm64.tar.gz"
      else codes "darwin-amd64.tar.gz"
    else if text_eq os (codes "linux")
    then codes "linux-amd64.tar.gz"
    else []

abbrev pub first_with : Text → List Asset → Option Asset
unfolding contains
first_with pattern [] = none
first_with pattern (a ∷ rest) =
    let later = first_with pattern rest in if contains a.name pattern then some a else later

-- findAsset
unfoldable pub find_asset : Text → Text → List Asset → Option Asset
unfolding platform_pattern first_with
find_asset os arch assets = first_with (platform_pattern os arch) assets

abbrev pub with_asset : UpdateInfo → Option Asset → UpdateInfo
with_asset info none = info
with_asset info (some a) = record info {
  download_url = a.browser_download_url;
  asset_size = a.size;
}

-- How a check ends.
pub data Checked : Type 0 where
  checked : UpdateInfo → Checked
  failed : Text → Checked

module _ (os arch : Text) where
  abbrev pub info_of : Text → Release → UpdateInfo
  unfolding is_newer find_asset
  info_of current r =
      let info : UpdateInfo = record {
        available = is_newer current r.tag_name;
        current_version = current;
        latest_version = r.tag_name;
        release_notes = r.body;
        release_url = r.html_url;
        download_url = [];
        asset_size = 0;
      } in
      if is_newer current r.tag_name then with_asset info (find_asset os arch r.assets) else info

  abbrev pub check_release : Text → Option Release → Text → Checked
  unfolding info_of
  check_release current none e = failed (codes "check update: " ++ e)
  check_release current (some r) e = checked (info_of current r)

  -- CheckUpdate, with the latest release, or the text of the error in its place.
  unfoldable pub check_update : Text → Option Release → Text → Checked
  unfolding check_release
  check_update current latest e =
      if is_nil current || text_eq current (codes "dev")
      then checked (record {
        available = false;
        current_version = current;
        latest_version = codes "unknown";
        release_notes = [];
        release_url = [];
        download_url = [];
        asset_size = 0;
      })
      else check_release current latest e
