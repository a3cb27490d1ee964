-- ===== src/Plan/Topo/Visit.antt =====
-- topoSortTables of internal/migration/plan.go: the marks of `visit`.
use existora2pg.Prelude.{
  ℕ, zero, suc, ◌≡◌, refl, ◌∙◌, Bool, true, false, List, [], ◌∷◌, Text, text_eq, text_eq_iff,
  if◌then◌else◌, is_some, arith, inl, inr, Bool-cases,
}
use existora2pg.Prelude.Dict.{insert, lookup-insert}
use existora2pg.Plan.Topo.{Graph, Search, flag, deps_of, table_of, start, finish, visit_all, visit}

pub flag-insert :
    (k j : Text) (b : Bool) (m : List (Text × Bool))
    → flag (insert k b m) j ≡ (if text_eq k j then b else flag m j)
unfolding flag
flag-insert k j b m = ground (arith, lookup-insert k j b m)

-- A visit leaves the marks of the tables being visited as they were, forgets no visited table, and
-- visits none that is being visited.
pub record Extends (st st' : Search) : Type 0 where
  pub same_visiting : (k : Text) → flag st'.visiting k ≡ flag st.visiting k
  pub keeps : (k : Text) → flag st.visited k ≡ true → flag st'.visited k ≡ true
  pub holds : (k : Text) → flag st.visiting k ≡ true → flag st'.visited k ≡ flag st.visited k

pub Extends-refl : (st : Search) → Extends st st
Extends-refl st = record { same_visiting = λ k. refl; keeps = λ k h. h; holds = λ k h. refl }

pub Extends-trans : {s t u : Search} → Extends s t → Extends t u → Extends s u
Extends-trans p q = record {
  same_visiting = λ k. q.same_visiting k ∙ p.same_visiting k;
  keeps = λ k h. q.keeps k (p.keeps k h);
  holds = λ k h. q.holds k (p.same_visiting k ∙ h) ∙ p.holds k h;
}

module _ (g : Graph) where
  pub visit_all-Extends :
      (f : Text → Search → Search) (ds : List Text) (st : Search)
      → ((d : Text) (s : Search) → Extends s (f d s))
      → Extends st (visit_all g f ds st)
  unfolding visit_all
  visit_all-Extends f [] st h = Extends-refl st
  visit_all-Extends f (d ∷ ds) st h = elim (Bool-cases (is_some (table_of g d))) [
    | inl there ↦ rw there (Extends-trans (h d st) (visit_all-Extends f ds (f d st) h))
    | inr absent ↦ rw absent (visit_all-Extends f ds st h)
  ]

  finish-Extends :
      (name : Text) (st st' : Search)
      → flag st.visiting name ≡ false
      → Extends (start g name st) st'
      → Extends st (finish g name st')
  finish-Extends name st st' fresh e = record {
    same_visiting = λ k. ground (
      arith,
      flag-insert name k false st'.visiting,
      flag-insert name k true st.visiting,
      e.same_visiting k,
      text_eq_iff name k,
    );
    keeps = λ k h. ground (arith, flag-insert name k true st'.visited, e.keeps k h);
    holds = λ k h. ground (
      arith,
      flag-insert name k true st'.visited,
      flag-insert name k true st.visiting,
      e.holds k,
      text_eq_iff name k,
    );
  }

  pub visit-Extends : (fuel : ℕ) (name : Text) (st : Search) → Extends st (visit g fuel name st)
  unfolding visit
  visit-Extends zero name st = Extends-refl st
  visit-Extends (suc fuel) name st = elim (Bool-cases (flag st.visited name)) [
    | inl seen ↦ rw seen (Extends-refl st)
    | inr unseen ↦ elim (Bool-cases (flag st.visiting name)) [
      | inl active ↦ rw (unseen, active) (Extends-refl st)
      | inr fresh ↦
          rw (unseen, fresh)
            (finish-Extends name st _ fresh (
              visit_all-Extends (visit g fuel) (deps_of g name) (start g name st)
                (visit-Extends fuel)))
    ]
  ]

pub visit_active :
    (g : Graph) (fuel : ℕ) (name : Text) (st : Search)
    → flag st.visiting name ≡ true
    → visit g fuel name st ≡ st
unfolding visit
visit_active g zero name st h = refl
visit_active g (suc fuel) name st h = rw h (ground arith)

pub visit_all_there :
    (g : Graph) (f : Text → Search → Search) (d : Text) (ds : List Text) (st : Search)
    → is_some (table_of g d) ≡ true
    → visit_all g f (d ∷ ds) st ≡ visit_all g f ds (f d st)
unfolding visit_all
visit_all_there g f d ds st h = rw h

pub visit_all_absent :
    (g : Graph) (f : Text → Search → Search) (d : Text) (ds : List Text) (st : Search)
    → is_some (table_of g d) ≡ false
    → visit_all g f (d ∷ ds) st ≡ visit_all g f ds st
unfolding visit_all
visit_all_absent g f d ds st h = rw h

pub visit_seen :
    (g : Graph) (fuel : ℕ) (name : Text) (st : Search)
    → flag st.visited name ≡ true
    → visit g (suc fuel) name st ≡ st
unfolding visit
visit_seen g fuel name st h = rw h

pub visit_fresh :
    (g : Graph) (fuel : ℕ) (name : Text) (st : Search)
    → flag st.visited name ≡ false
    → flag st.visiting name ≡ false
    → visit g (suc fuel) name st
      ≡ finish g name (visit_all g (visit g fuel) (deps_of g name) (start g name st))
unfolding visit
visit_fresh g fuel name st h q = rw (h, q)
