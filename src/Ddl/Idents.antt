-- ===== src/Ddl/Idents.antt =====
-- Names in the statements of internal/postgres/ddl.go, as PostgreSQL reads them.
use existora2pg.Ddl.{double_quotes, quote_ident, qualified_name}
use existora2pg.Prelude.{
  ◌∙◌, Text, codes, [], ◌∷◌, ◌++◌, Option, none, some, false, if◌then◌else◌, ◌==◌, ◌||◌, text_eq,
  is_nil, ◌≡◌, refl, sym, ap, ℕ, append_assoc, Bool-cases, inl, inr, ==_iff,
}

-- Lexical structure of PostgreSQL: within a quoted identifier a doubled quote stands for a quote,
-- and a single quote ends it.
abbrev cons_to : ℕ → Option (Text × Text) → Option (Text × Text)
cons_to c none = none
cons_to c (some (s, rest)) = some (c ∷ s, rest)

unfoldable pub read_body : Text → Option (Text × Text)
read_body [] = none
read_body (c ∷ []) = if c == b'"' then some ([], []) else none
read_body (c ∷ d ∷ s) =
    let inner = read_body s in
    let next = read_body (d ∷ s) in
    if c == b'"'
    then if d == b'"' then cons_to (b'"') inner else some ([], d ∷ s)
    else cons_to c next

unfoldable pub read_ident : Text → Option (Text × Text)
unfolding read_body
read_ident [] = none
read_ident (c ∷ s) = let body = read_body s in if c == b'"' then body else none

abbrev then_name : Text → Option (Text × Text) → Option (Option Text × Text × Text)
then_name schema none = none
then_name schema (some (name, rest)) = some (some schema, name, rest)

abbrev with_schema : Option (Text × Text) → Option (Option Text × Text × Text)
unfolding read_ident
with_schema none = none
with_schema (some (s, [])) = some (none, s, [])
with_schema (some (s, c ∷ rest)) =
    let qualified = then_name s (read_ident rest) in
    if c == b'.' then qualified else some (none, s, c ∷ rest)

-- A name with or without a schema before it, and what stands behind it.
unfoldable pub read_name : Text → Option (Option Text × Text × Text)
unfolding read_ident
read_name text = with_schema (read_ident text)

-- A text that does not go on with the given byte.
abbrev pub IsBefore : ℕ → Text → Type 0
IsBefore b [] = Unit
IsBefore b (c ∷ s) = c == b ≡ false

read_body-cons :
    (c : ℕ) (s : Text) → c == b'"' ≡ false → read_body (c ∷ s) ≡ cons_to c (read_body s)
unfolding read_body
read_body-cons c [] h = rw h refl
read_body-cons c (d ∷ s) h = rw h refl

read_body-end : (rest : Text) → IsBefore (b'"') rest → read_body (b'"' ∷ rest) ≡ some ([], rest)
unfolding read_body
read_body-end [] h = refl
read_body-end (d ∷ s) h = rw h refl

read_body-quote : (s : Text) → read_body (b'"' ∷ b'"' ∷ s) ≡ cons_to (b'"') (read_body s)
unfolding read_body
read_body-quote s = refl

read_body-double_quotes :
    (name rest : Text)
    → IsBefore (b'"') rest
    → read_body (double_quotes name ++ b'"' ∷ rest) ≡ some (name, rest)
unfolding double_quotes
read_body-double_quotes [] rest h = read_body-end rest h
read_body-double_quotes (c ∷ s) rest h = elim (Bool-cases (c == b'"')) [
  | inl quote ↦
      rw (quote, read_body-quote (double_quotes s ++ b'"' ∷ rest), read_body-double_quotes s rest h)
        (ap (λ b. some (b ∷ s, rest)) (sym ((==_iff c (b'"')).0 quote)))
  | inr plain ↦
      rw
        (
          plain,
          read_body-cons c (double_quotes s ++ b'"' ∷ rest) plain,
          read_body-double_quotes s rest h,
        )
        refl
]

-- A quoted identifier, followed by anything but a quote, is read back as the name.
pub read_ident-quote_ident :
    (name rest : Text)
    → IsBefore (b'"') rest
    → read_ident (quote_ident name ++ rest) ≡ some (name, rest)
unfolding quote_ident read_ident
read_ident-quote_ident name rest h =
    rw (append_assoc (double_quotes name) (b'"' ∷ []) rest) (read_body-double_quotes name rest h)

with_schema_plain :
    (name rest : Text)
    → IsBefore (b'.') rest
    → with_schema (some (name, rest)) ≡ some (none, name, rest)
unfolding with_schema
with_schema_plain name [] h = refl
with_schema_plain name (c ∷ rest) h = rw h refl

read_name-quoted :
    (name rest : Text)
    → IsBefore (b'"') rest
    → read_name (quote_ident name ++ rest) ≡ with_schema (some (name, rest))
unfolding read_name
read_name-quoted name rest h = ap with_schema (read_ident-quote_ident name rest h)

read_name-dotted :
    (pg_schema name rest : Text)
    → IsBefore (b'"') rest
    → read_name ((quote_ident pg_schema ++ (b'.' ∷ quote_ident name)) ++ rest)
      ≡ some (some pg_schema, name, rest)
unfolding with_schema
read_name-dotted pg_schema name rest h =
    ap read_name (append_assoc (quote_ident pg_schema) (b'.' ∷ quote_ident name) rest)
    ∙ read_name-quoted pg_schema (b'.' ∷ (quote_ident name ++ rest)) refl
    ∙ ap (then_name pg_schema) (read_ident-quote_ident name rest h)

-- A generated name, followed by neither a quote nor a dot, is read back: the name is the one that
-- was meant, and the schema too, where it is not left out as the default one.
pub read_name-qualified_name :
    (pg_schema name rest : Text)
    → IsBefore (b'"') rest
    → IsBefore (b'.') rest
    → read_name (qualified_name pg_schema name ++ rest)
      ≡ some (
        (if is_nil pg_schema || text_eq pg_schema (codes "public") then none else some pg_schema),
        name,
        rest,
      )
unfolding qualified_name
read_name-qualified_name pg_schema name rest h k =
    elim (Bool-cases (is_nil pg_schema || text_eq pg_schema (codes "public"))) [
      | inl default ↦ rw default (read_name-quoted name rest h ∙ with_schema_plain name rest k)
      | inr other ↦ rw other (read_name-dotted pg_schema name rest h)
    ]
