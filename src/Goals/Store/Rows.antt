-- ===== src/Goals/Store/Rows.antt =====
-- The rows of the `goal` table: their keys, and how many of them are active.
use mathlib.Core.Path.{subst}
use johnny.Prelude.{
  ℕ, suc, ◌≤◌, ◌<◌, ◌≡◌, ◌≢◌, refl, ap, ◌⊎◌, inl, inr, true, false, List, [], ◌∷◌, ◌++◌, map, eqb,
  arith, All, All-append, select, count, Bool-cases,
}
use johnny.Goals.Store.{GoalRow, Table, is_active, update}

-- No number stands twice.
abbrev pub Distinct : List ℕ → Type 0
Distinct [] = Unit
Distinct (i ∷ is) = All (λ j. i ≢ j) is × Distinct is

pub All_below : (n : ℕ) (is : List ℕ) → All (λ i. i < n) is → All (λ i. i < suc n) is
All_below n [] h = tt
All_below n (i ∷ is) h = (omega arith, All_below n is h.1)

pub Distinct-append :
    (n : ℕ) (is : List ℕ) → Distinct is → All (λ i. i < n) is → Distinct (is ++ n ∷ [])
Distinct-append n [] d h = (tt, tt)
Distinct-append n (i ∷ is) d h = (
  All-append (λ j. i ≢ j) is (n ∷ []) d.0 ((λ e. omega (arith, h.0, e)), tt),
  Distinct-append n is d.1 h.1,
)

module _ {W : Type 0} where
  abbrev pub ids : List (GoalRow W) → List ℕ
  ids = map (λ row. row.id)

  -- Keys are unique and below the next one, and at most one row is active.
  pub record IsSingle (table : Table W) : Type 0 where
    pub distinct : Distinct (ids table.rows)
    pub fresh : All (λ i. i < table.next_id) (ids table.rows)
    pub single : count is_active table.rows ≤ 1

  ids-update :
      (id : ℕ) (change : GoalRow W → GoalRow W) (rows : List (GoalRow W))
      → ((row : GoalRow W) → (change row).id ≡ row.id)
      → ids (update id change rows) ≡ ids rows
  unfolding update
  ids-update id change [] h = refl
  ids-update id change (row ∷ rows) h = elim (Bool-cases (eqb row.id id)) [
    | inl e ↦ rw e (ap (λ i. i ∷ ids rows) (h row))
    | inr e ↦ rw e (ap (λ is. row.id ∷ is) (ids-update id change rows h))
  ]

  -- A change that makes no row active.
  abbrev pub Calms : (GoalRow W → GoalRow W) → Type 0
  Calms change = (row : GoalRow W) → is_active (change row) ≡ true → is_active row ≡ true

  count-update :
      (id : ℕ) (change : GoalRow W → GoalRow W) (rows : List (GoalRow W))
      → Calms change
      → count is_active (update id change rows) ≤ count is_active rows
  unfolding update
  count-update id change [] h = omega arith
  count-update id change (row ∷ rows) h = ground (arith, h row, count-update id change rows h)

  pub ids-append : (xs ys : List (GoalRow W)) → ids (xs ++ ys) ≡ ids xs ++ ids ys
  ids-append [] ys = refl
  ids-append (x ∷ xs) ys = ap (λ is. x.id ∷ is) (ids-append xs ys)

  pub update-IsSingle :
      (id : ℕ) (change : GoalRow W → GoalRow W) (table : Table W)
      → ((row : GoalRow W) → (change row).id ≡ row.id)
      → Calms change
      → IsSingle table
      → IsSingle (record { next_id = table.next_id; rows = update id change table.rows })
  update-IsSingle id change table same calms s =
      let e = ids-update id change table.rows same in
      let less = count-update id change table.rows calms in
      record {
        distinct = rw e s.distinct;
        fresh = rw e s.fresh;
        single = omega (arith, less, s.single);
      }

  -- The rows that are active: none where they count 0, one where they count 1.
  pub select_none :
      (rows : List (GoalRow W)) → count is_active rows ≡ 0 → select is_active rows ≡ []
  select_none [] h = refl
  select_none (row ∷ rows) h = elim (Bool-cases (is_active row)) [
    | inl e ↦ ground (arith, e, h)
    | inr e ↦ rw e (select_none rows (ground (arith, e, h)))
  ]

  abbrev pub SelectCases : List (GoalRow W) → Type 0
  SelectCases rows =
      (select is_active rows ≡ [])
      ⊎ ((row : GoalRow W) × (select is_active rows ≡ row ∷ []) × (is_active row ≡ true))

  pub select_cases : (rows : List (GoalRow W)) → count is_active rows ≤ 1 → SelectCases rows
  select_cases [] h = inl refl
  select_cases (row ∷ rows) h = elim (Bool-cases (is_active row)) [
    | inl e ↦ inr (row, rw e (ap (λ rs. row ∷ rs) (select_none rows (ground (arith, e, h)))), e)
    | inr e ↦ rw e (select_cases rows (ground (arith, e, h)))
  ]

  head_active :
      (x row : GoalRow W) (xs : List (GoalRow W))
      → is_active x ≡ true
      → select is_active (x ∷ xs) ≡ row ∷ []
      → (x ≡ row) × (select is_active xs ≡ [])
  head_active x row xs a e =
      let e' : x ∷ select is_active xs ≡ row ∷ [] = rw a at e in (cc (e'), cc (e'))

  tail_active :
      (x row : GoalRow W) (xs : List (GoalRow W))
      → is_active x ≡ false
      → select is_active (x ∷ xs) ≡ row ∷ []
      → select is_active xs ≡ row ∷ []
  tail_active x row xs a e = rw a at e

  pub count_none : (rows : List (GoalRow W)) → select is_active rows ≡ [] → count is_active rows ≡ 0
  count_none [] e = refl
  count_none (x ∷ xs) e = elim (Bool-cases (is_active x)) [
    | inl a ↦ ground (arith, a, e)
    | inr a ↦ ground (arith, a, count_none xs (rw a at e))
  ]

  -- What holds of all rows holds of the one that is active.
  pub All-select :
      (P : ℕ → Type 0) (row : GoalRow W) (rows : List (GoalRow W))
      → select is_active rows ≡ row ∷ []
      → All P (ids rows)
      → P row.id
  All-select P row [] e h = ground (arith, e)
  All-select P row (x ∷ xs) e h = elim (Bool-cases (is_active x)) [
    | inl a ↦ subst (λ (y : GoalRow W). P y.id) (head_active x row xs a e).0 h.0
    | inr a ↦ All-select P row xs (tail_active x row xs a e) h.1
  ]

  -- To close the active row leaves none.
  pub count-close :
      (row : GoalRow W) (change : GoalRow W → GoalRow W) (rows : List (GoalRow W))
      → select is_active rows ≡ row ∷ []
      → Distinct (ids rows)
      → is_active (change row) ≡ false
      → count is_active (update row.id change rows) ≡ 0
  unfolding update
  count-close row change [] e d c = refl
  count-close row change (x ∷ xs) e d c = elim (Bool-cases (is_active x)) [
    | inl a ↦
        let (same, rest) = head_active x row xs a e in
        let off : is_active (change x) ≡ false = rw same c in
        ground (arith, off, ap (λ (y : GoalRow W). y.id) same, count_none xs rest)
    | inr a ↦
        let rest = tail_active x row xs a e in
        let other = All-select (λ j. x.id ≢ j) row xs rest d.0 in
        ground (arith, a, other, count-close row change xs rest d.1 c)
  ]

  pub select_last :
      (row : GoalRow W) (rows : List (GoalRow W))
      → is_active row ≡ true
      → count is_active rows ≡ 0
      → select is_active (rows ++ row ∷ []) ≡ row ∷ []
  select_last row [] a z = rw a refl
  select_last row (x ∷ xs) a z = elim (Bool-cases (is_active x)) [
    | inl b ↦ ground (arith, b, z)
    | inr b ↦ rw b (select_last row xs a (ground (arith, b, z)))
  ]
