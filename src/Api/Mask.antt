-- ===== src/Api/Mask.antt =====
-- maskDSN of pkg/api/types.go: a connection string without its password.
pub mod Hidden
use existora2pg.Prelude.{
  ℕ, suc, ◌+◌, Text, codes, [], ◌∷◌, ◌++◌, Option, none, some, is_nil, contains, index_of,
  index_byte, take, drop, if◌then◌else◌,
}

-- The text behind "://", and what stands up to there; the whole text where there is none.
abbrev pub scheme_end : Option ℕ → ℕ
scheme_end none = 0
scheme_end (some i) = i + 3

abbrev pub mask_user : Text → Text → Text → Text → Option ℕ → Text
mask_user dsn scheme user host none = dsn
mask_user dsn scheme user host (some i) = scheme ++ (take i user ++ (codes ":****" ++ host))

abbrev pub mask_rest : Text → Text → Text → Option ℕ → Text
unfolding index_byte
mask_rest dsn scheme rest none = dsn
mask_rest dsn scheme rest (some i) =
    mask_user dsn scheme (take i rest) (drop i rest) (index_byte (take i rest) (b':'))

-- maskURIDSN
unfoldable pub mask_uri_dsn : Text → Text
unfolding index_of index_byte
mask_uri_dsn dsn =
    let n = scheme_end (index_of dsn (codes "://")) in
    mask_rest dsn (take n dsn) (drop n dsn) (index_byte (drop n dsn) (b'@'))

abbrev pub mask_slash : Text → Text → Text → Option ℕ → Text
mask_slash dsn text host none = dsn
mask_slash dsn text host (some i) = take i text ++ (codes "/****" ++ host)

abbrev pub mask_at : Text → Option ℕ → Text
unfolding index_byte
mask_at dsn none = mask_slash dsn dsn [] (index_byte dsn (b'/'))
mask_at dsn (some i) = mask_slash dsn (take i dsn) (drop i dsn) (index_byte (take i dsn) (b'/'))

-- maskOracleDSN
unfoldable pub mask_oracle_dsn : Text → Text
unfolding mask_at
mask_oracle_dsn dsn = mask_at dsn (index_byte dsn (b'@'))

-- maskDSN
unfoldable pub mask_dsn : Text → Text
unfolding contains mask_uri_dsn mask_oracle_dsn
mask_dsn dsn =
    if is_nil dsn
    then []
    else if contains dsn (codes "://")
    then mask_uri_dsn dsn
    else mask_oracle_dsn dsn
