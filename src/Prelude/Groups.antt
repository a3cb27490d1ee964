-- ===== src/Prelude/Groups.antt =====
-- Grouping a list by a text key, in a map from keys to lists that keeps the order of insertion.
use existora2pg.Prelude.{
  if◌then◌else◌, ℕ, ◌+◌, ◌≡◌, refl, sym, ap, ◌∙◌, Option, none, some, inl, inr, List, [], ◌∷◌, ◌++◌,
  append-nil, append_assoc, arith, Text, text_eq, text_eq_iff, eq_of_text_eq, Bool-cases, select,
  length, length-append,
}
use existora2pg.Prelude.Dict.{lookup, insert, lookup-insert}

module _ {ℓ} {A : Type ℓ} where
  abbrev pub list_or_nil : Option (List A) → List A
  list_or_nil none = []
  list_or_nil (some xs) = xs

  -- `groups[key] = append(groups[key], x)`
  unfoldable pub append_to : Text → A → List (Text × List A) → List (Text × List A)
  append_to k x groups = insert k (list_or_nil (lookup k groups) ++ x ∷ []) groups

  -- `for _, x := range xs { groups[key(x)] = append(groups[key(x)], x) }`
  unfoldable pub group_by : (A → Text) → List (Text × List A) → List A → List (Text × List A)
  unfolding append_to
  group_by key groups [] = groups
  group_by key groups (x ∷ xs) = group_by key (append_to (key x) x groups) xs

  -- Each key once.
  abbrev pub IsDistinct : List (Text × List A) → Type ℓ
  IsDistinct [] = Unit
  IsDistinct ((k, xs) ∷ groups) = (lookup k groups ≡ none) × IsDistinct groups

  -- The number of entries of all groups.
  abbrev pub total : List (Text × List A) → ℕ
  total [] = 0
  total ((k, xs) ∷ groups) = length xs + total groups

  insert-IsDistinct :
      (k : Text) (xs : List A) (groups : List (Text × List A))
      → IsDistinct groups
      → IsDistinct (insert k xs groups)
  unfolding insert lookup
  insert-IsDistinct k xs [] h = (refl, tt)
  insert-IsDistinct k xs ((j, ys) ∷ groups) h = elim (Bool-cases (text_eq j k)) [
    | inl same ↦ rw same (rw (eq_of_text_eq j k same) at h.0, h.1)
    | inr other ↦ rw other (
      ground (arith, lookup-insert k j xs groups, text_eq_iff j k, text_eq_iff k j),
      insert-IsDistinct k xs groups h.1,
    )
  ]

  total-insert :
      (k : Text) (xs : List A) (groups : List (Text × List A))
      → total (insert k xs groups) + length (list_or_nil (lookup k groups))
        ≡ total groups + length xs
  unfolding insert lookup
  total-insert k xs [] = omega arith
  total-insert k xs ((j, ys) ∷ groups) = ground (arith, total-insert k xs groups)

  -- An invariant of the groups holds at the end if each append keeps it.
  pub group_by_ind {κ} :
      (P : List (Text × List A) → List A → Type κ) (key : A → Text)
      → ((groups : List (Text × List A)) (x : A) (xs : List A)
          → P groups (x ∷ xs)
          → P (append_to (key x) x groups) xs)
      → (groups : List (Text × List A)) (xs : List A) → P groups xs
      → P (group_by key groups xs) []
  unfolding group_by
  group_by_ind P key step groups [] h = h
  group_by_ind P key step groups (x ∷ xs) h =
      group_by_ind P key step (append_to (key x) x groups) xs (step groups x xs h)

  pub group_by-IsDistinct : (key : A → Text) (xs : List A) → IsDistinct (group_by key [] xs)
  unfolding append_to
  group_by-IsDistinct key xs =
      group_by_ind (λ groups _. IsDistinct groups) key
        (λ groups x _ h. insert-IsDistinct (key x) _ groups h) [] xs tt

  total-append_to :
      (k : Text) (x : A) (groups : List (Text × List A))
      → total (append_to k x groups) ≡ total groups + 1
  unfolding append_to
  total-append_to k x groups =
      let old = list_or_nil (lookup k groups) in
      omega (arith, total-insert k (old ++ x ∷ []) groups, length-append old (x ∷ []))

  pub total-group_by : (key : A → Text) (xs : List A) → total (group_by key [] xs) ≡ length xs
  total-group_by key xs =
      let e =
        group_by_ind (λ groups rest. total groups + length rest ≡ length xs) key
          (λ groups x rest h. omega (arith, total-append_to (key x) x groups)) [] xs
          (omega arith) in
      omega arith

  pub lookup-append_to :
      (k j : Text) (x : A) (groups : List (Text × List A))
      → list_or_nil (lookup j (append_to k x groups))
        ≡ list_or_nil (lookup j groups) ++ (if text_eq k j then x ∷ [] else [])
  unfolding append_to
  lookup-append_to k j x groups = ground (
    arith,
    lookup-insert k j (list_or_nil (lookup k groups) ++ x ∷ []) groups,
    text_eq_iff k j,
    append-nil (list_or_nil (lookup j groups)),
  )

  -- Under a key stand the entries with that key, in their order.
  pub lookup-group_by :
      (key : A → Text) (k : Text) (groups : List (Text × List A)) (xs : List A)
      → list_or_nil (lookup k (group_by key groups xs))
        ≡ list_or_nil (lookup k groups) ++ select (λ x. text_eq (key x) k) xs
  unfolding group_by
  lookup-group_by key k groups [] = sym (append-nil _)
  lookup-group_by key k groups (x ∷ xs) =
      let old = list_or_nil (lookup (key x) groups) in
      let rest = select (λ y. text_eq (key y) k) xs in
      lookup-group_by key k (append_to (key x) x groups) xs
      ∙ elim (Bool-cases (text_eq (key x) k)) [
        | inl same ↦
            rw (lookup-insert (key x) k (old ++ x ∷ []) groups, same)
              (append_assoc old (x ∷ []) rest
                ∙ ap (λ j. list_or_nil (lookup j groups) ++ x ∷ rest) (eq_of_text_eq _ _ same))
        | inr other ↦ rw (lookup-insert (key x) k (old ++ x ∷ []) groups, other) refl
      ]
