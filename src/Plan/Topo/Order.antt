-- ===== src/Plan/Topo/Order.antt =====
-- topoSortTables of internal/migration/plan.go: the places of the tables in the result.
use mathlib.Core.Bool.{false≢true}
use existora2pg.Prelude.{
  ℕ, zero, suc, ◌≤◌, ◌<◌, ◌≡◌, ◌⊎◌, sym, ap, ◌∙◌, subst, true, false, List, [], ◌∷◌, ◌++◌,
  append-nil, append_assoc, Text, text_eq, text_eq_refl, eq_of_text_eq, is_some, arith, inl, inr,
  Bool-cases, All, Option-cases,
}
use existora2pg.Prelude.Dict.{insert, lookup}
use existora2pg.Schema.{Table}
use existora2pg.Plan.Topo.{
  Graph, Search, flag, deps_of, table_of, start, visit_all, visit, option_list, visit_tables,
}
use existora2pg.Plan.Topo.Visit.{
  visit_active, visit_fresh, visit_all_there, visit_seen, visit_all_absent, flag-insert,
  visit_all-Extends, visit-Extends,
}
use existora2pg.Plan.Topo.Complete.{
  named, has_name, IsNamed, IsExact, IsVisited, IsVisited-of_visit, visit-IsExact,
}

-- What must stand before table `t`: each table that it refers to, if there is one, but itself.
abbrev pub RefsBefore : Graph → List Table → Table → Type 0
RefsBefore g pre t =
    All (λ d. is_some (table_of g d) ≡ true → (d ≡ t.name) ⊎ (has_name d pre ≡ true))
      (deps_of g t.name)

abbrev pub IsOrdered : Graph → List Table → List Table → Type 0
IsOrdered g pre [] = Unit
IsOrdered g pre (t ∷ ts) = RefsBefore g pre t × IsOrdered g (pre ++ t ∷ []) ts

IsOrdered-snoc :
    (g : Graph) (pre ts : List Table) (t : Table)
    → IsOrdered g pre ts
    → RefsBefore g (pre ++ ts) t
    → IsOrdered g pre (ts ++ t ∷ [])
IsOrdered-snoc g pre [] t h r = (subst (λ l. RefsBefore g l t) (append-nil pre) r, tt)
IsOrdered-snoc g pre (u ∷ ts) t h r = (
  h.0,
  IsOrdered-snoc g (pre ++ u ∷ []) ts t h.1
      (subst (λ l. RefsBefore g l t) (sym (append_assoc pre (u ∷ []) ts)) r),
)

IsVisited-pos :
    (g : Graph) (fuel : ℕ) (name : Text) (st : Search)
    → 1 ≤ fuel
    → flag st.visiting name ≡ false
    → IsVisited (visit g fuel name st) name
IsVisited-pos g zero name st h q = absurd (omega arith)
IsVisited-pos g (suc fuel) name st h q = IsVisited-of_visit g fuel name st q

has_name_of_named :
    (k : Text) (ts : List Table) (t : Table) → named k ts ≡ t ∷ [] → has_name k ts ≡ true
has_name_of_named k [] t h = cc
has_name_of_named k (u ∷ ts) t h = ground (arith, has_name_of_named k ts t)

module _ (g : Graph) (names : IsNamed g.table_map) (rank : Text → ℕ)
    (ranked : (k : Text) → All (λ d. (d ≡ k) ⊎ (rank d < rank k)) (deps_of g k)) where
  -- The tables being visited have at least this rank.
  abbrev IsBelow : ℕ → Search → Type 0
  IsBelow r st = (k : Text) → flag st.visiting k ≡ true → r ≤ rank k

  pub record Inv (st : Search) : Type 0 where
    pub exact : IsExact g names st
    pub ordered : IsOrdered g [] st.sorted

  -- What a call on a dependency keeps.
  abbrev Step : ℕ → Type 0
  Step fuel =
      (d : Text) (s : Search)
      → rank d < fuel
      → IsBelow (suc (rank d)) s
      → Inv s
      → Inv (visit g fuel d s)

  not_active : (d : Text) (s : Search) → IsBelow (suc (rank d)) s → flag s.visiting d ≡ false
  not_active d s below = elim (Bool-cases (flag s.visiting d)) [
    | inl active ↦ absurd (omega (arith, below d active))
    | inr quiet ↦ quiet
  ]

  abbrev Done : Text → Search → Text → Type 0
  Done name st d = is_some (table_of g d) ≡ true → (d ≡ name) ⊎ IsVisited st d

  abbrev Result : Text → List Text → Search → Type 0
  Result name ds st = Inv st × All (Done name st) ds

  -- A dependency of lower rank is visited by its call, and stays so.
  visit_dep :
      (fuel : ℕ) (name d : Text) (ds : List Text) (st : Search)
      → rank d < rank name
      → rank name ≤ fuel
      → flag st.visiting name ≡ true
      → IsBelow (rank name) st
      → Inv (visit g fuel d st)
      → ((s : Search)
          → flag s.visiting name ≡ true
          → IsBelow (rank name) s
          → Inv s
          → Result name ds (visit_all g (visit g fuel) ds s))
      → Result name (d ∷ ds) (visit_all g (visit g fuel) ds (visit g fuel d st))
  visit_dep fuel name d ds st less f active below inv rest =
      let next = visit g fuel d st in
      let e = visit-Extends g fuel d st in
      let quiet = not_active d st (λ k h. omega (arith, below k h)) in
      let seen = IsVisited-pos g fuel d st (omega arith) quiet in
      let kept = (visit_all-Extends g (visit g fuel) ds next (visit-Extends g fuel)).keeps d seen in
      let (i, done) =
        rest next (e.same_visiting name ∙ active) (λ k h. below k (sym (e.same_visiting k) ∙ h))
          inv in
      (i, ((λ p. inr kept), done))

  visit_all-Inv :
      (fuel : ℕ) (name : Text) (ds : List Text) (st : Search)
      → Step fuel
      → rank name ≤ fuel
      → All (λ d. (d ≡ name) ⊎ (rank d < rank name)) ds
      → flag st.visiting name ≡ true
      → IsBelow (rank name) st
      → Inv st
      → Result name ds (visit_all g (visit g fuel) ds st)
  unfolding visit_all
  visit_all-Inv fuel name [] st step f a active below inv = (inv, tt)
  visit_all-Inv fuel name (d ∷ ds) st step f a active below inv =
      elim (Bool-cases (is_some (table_of g d))) [
        | inr absent ↦
            let (i, done) = visit_all-Inv fuel name ds st step f a.1 active below inv in
            subst (Result name (d ∷ ds)) (sym (visit_all_absent g (visit g fuel) d ds st absent))
              (i, ((λ p. cc), done))
        | inl there ↦
            subst (Result name (d ∷ ds)) (sym (visit_all_there g (visit g fuel) d ds st there))
              (elim a.0 [
                | inl self ↦
                    let same = visit_active g fuel d st (ap (flag st.visiting) self ∙ active) in
                    let (i, done) = visit_all-Inv fuel name ds st step f a.1 active below inv in
                    subst (λ s. Result name (d ∷ ds) (visit_all g (visit g fuel) ds s)) (sym same)
                      (i, ((λ p. inl self), done))
                | inr less ↦
                    visit_dep fuel name d ds st less f active below
                      (step d st (omega arith) (λ k h. omega (arith, below k h)) inv)
                      (λ s act bel i. visit_all-Inv fuel name ds s step f a.1 act bel i)
              ])
      ]

  sorted_of_visited :
      (d : Text) (st : Search)
      → IsExact g names st
      → is_some (table_of g d) ≡ true
      → IsVisited st d
      → has_name d st.sorted ≡ true
  sorted_of_visited d st x there seen = elim (Option-cases (table_of g d)) [
    | inl absent ↦ cc
    | inr (t, found) ↦ has_name_of_named d st.sorted t (x.exact d ∙ rw (seen, found))
  ]

  RefsBefore-Done :
      (name : Text) (ds : List Text) (st : Search)
      → IsExact g names st
      → All (Done name st) ds
      → All (λ d. is_some (table_of g d) ≡ true → (d ≡ name) ⊎ (has_name d st.sorted ≡ true)) ds
  RefsBefore-Done name [] st x a = tt
  RefsBefore-Done name (d ∷ ds) st x a = (
    λ there. elim (a.0 there) [
      | inl self ↦ inl self
      | inr seen ↦ inr (sorted_of_visited d st x there seen)
    ],
    RefsBefore-Done name ds st x a.1,
  )

  finish-IsOrdered :
      (name : Text) (st : Search)
      → Inv st
      → All (Done name st) (deps_of g name)
      → IsOrdered g [] (st.sorted ++ option_list (table_of g name))
  unfolding table_of
  finish-IsOrdered name st inv done = elim (Option-cases (lookup name g.table_map)) [
    | inl absent ↦ rw (absent, append-nil st.sorted) inv.ordered
    | inr (t, found) ↦
        let before = RefsBefore-Done name (deps_of g name) st inv.exact done in
        rw found (
          IsOrdered-snoc g [] st.sorted t inv.ordered (
            subst
              (λ n.
                All (λ d. is_some (table_of g d) ≡ true → (d ≡ n) ⊎ (has_name d st.sorted ≡ true))
                  (deps_of g n))
              (sym (names name t found)) before))
  ]

  start-IsBelow :
      (name : Text) (st : Search)
      → IsBelow (suc (rank name)) st
      → IsBelow (rank name) (start g name st)
  start-IsBelow name st below k h = elim (Bool-cases (text_eq name k)) [
    | inl same ↦ rw (eq_of_text_eq name k same) (omega arith)
    | inr other ↦
        let e : flag st.visiting k ≡ true = ground (arith, flag-insert name k true st.visiting) in
        omega (arith, below k e)
  ]

  visit-Inv : (fuel : ℕ) → Step fuel
  visit-Inv zero name st r below inv = absurd (omega arith)
  visit-Inv (suc fuel) name st r below inv = elim (Bool-cases (flag st.visited name)) [
    | inl seen ↦ rw (visit_seen g fuel name st seen) inv
    | inr unseen ↦
        let quiet = not_active name st below in
        let marked : flag (insert name true st.visiting) name ≡ true =
          flag-insert name name true st.visiting ∙ rw (text_eq_refl name) in
        let opened : Inv (start g name st) = record {
          exact = record { exact = inv.exact.exact };
          ordered = inv.ordered;
        } in
        let (inner, done) =
          visit_all-Inv fuel name (deps_of g name) (start g name st) (visit-Inv fuel) (omega arith)
            (ranked name) marked (start-IsBelow name st below) opened in
        rw (visit_fresh g fuel name st unseen quiet) (record {
          exact =
              subst (IsExact g names) (visit_fresh g fuel name st unseen quiet)
                (visit-IsExact g names (suc fuel) name st inv.exact);
          ordered = finish-IsOrdered name _ inner done;
        })
  ]

  pub visit_tables-Inv :
      (fuel : ℕ) (ts : List Table) (st : Search)
      → All (λ t. rank t.name < fuel) ts
      → ((k : Text) → flag st.visiting k ≡ false)
      → Inv st
      → Inv (visit_tables g fuel ts st)
  unfolding visit_tables
  visit_tables-Inv fuel [] st a quiet inv = inv
  visit_tables-Inv fuel (t ∷ ts) st a quiet inv =
      let e = visit-Extends g fuel t.name st in
      visit_tables-Inv fuel ts (visit g fuel t.name st) a.1 (λ k. e.same_visiting k ∙ quiet k)
        (visit-Inv fuel t.name st a.0 (λ k h. absurd (false≢true (sym (quiet k) ∙ h))) inv)
