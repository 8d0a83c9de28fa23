-- ===== src/Memory/Stores/Upserted.antt =====
-- brain/memory/semantic.py: the table after an upsert.
use johnny.Prelude.{
  arith, eq_iff, ℕ, ◌≤◌, ◌≡◌, refl, String, true, false, List, [], ◌∷◌, ◌++◌, any, map, count,
  count-append, Bool-cases, inl, inr,
}
use johnny.Float.{Float}
use johnny.Memory.Rows.{SemanticFactRow}
use johnny.Memory.Tables.{Serial}
use johnny.Memory.Stores.{is_fact, asserted, new_fact, upsert_fact}

module _ {W : Type 0} ⦃f : Float W⦄ (embed : String → List W) (ratio : ℕ → ℕ → W) where
  -- The facts with a subject and a predicate
  abbrev pub about : String → String → List (SemanticFactRow W) → ℕ
  about s p rows = count (is_fact embed ratio s p) rows

  module _ (subject predicate object : String) (confidence : W) (sources : List ℕ) (now : ℕ) where
    abbrev assert : SemanticFactRow W → SemanticFactRow W
    assert = asserted embed ratio subject predicate object confidence sources now

    asserted-is_fact :
        (s p : String) (row : SemanticFactRow W)
        → is_fact embed ratio s p (assert row) ≡ is_fact embed ratio s p row
    asserted-is_fact s p row = elim (Bool-cases (is_fact embed ratio subject predicate row)) [
      | inl e ↦ rw e refl
      | inr e ↦ rw e refl
    ]

    map-about :
        (s p : String) (rows : List (SemanticFactRow W))
        → about s p (map assert rows) ≡ about s p rows
    map-about s p [] = refl
    map-about s p (row ∷ rows) = rw (asserted-is_fact s p row, map-about s p rows) refl

    about-none :
        (s p : String) (rows : List (SemanticFactRow W))
        → any (is_fact embed ratio s p) rows ≡ false
        → about s p rows ≡ 0
    about-none s p [] h = refl
    about-none s p (row ∷ rows) h = ground (arith, h, about-none s p rows)

    about-some :
        (s p : String) (rows : List (SemanticFactRow W))
        → any (is_fact embed ratio s p) rows ≡ true
        → 1 ≤ about s p rows
    about-some s p [] h = ground (arith, h)
    about-some s p (row ∷ rows) h = ground (arith, h, about-some s p rows)

    pushed-about :
        (s p : String) (id : ℕ) (rows : List (SemanticFactRow W))
        → any (is_fact embed ratio subject predicate) rows ≡ false
        → about s p rows ≤ 1
        → about s p
            (rows ++ new_fact embed ratio subject predicate object confidence sources now id ∷ [])
          ≤ 1
    pushed-about s p id rows e h =
        let new = new_fact embed ratio subject predicate object confidence sources now id in
        elim (Bool-cases (is_fact embed ratio s p new)) [
          | inl g ↦
              let same_s : subject ≡ s = (eq_iff subject s).0 (ground (arith, g)) in
              let same_p : predicate ≡ p = (eq_iff predicate p).0 (ground (arith, g)) in
              let gone : about s p rows ≡ 0 =
                rw (same_s, same_p) at (about-none subject predicate rows e) in
              let more = count-append (is_fact embed ratio s p) rows (new ∷ []) in
              ground (arith, gone, more)
          | inr g ↦
              let more = count-append (is_fact embed ratio s p) rows (new ∷ []) in
              ground (arith, g, h, more)
        ]

    pushed-one :
        (id : ℕ) (rows : List (SemanticFactRow W))
        → any (is_fact embed ratio subject predicate) rows ≡ false
        → about subject predicate
            (rows ++ new_fact embed ratio subject predicate object confidence sources now id ∷ [])
          ≡ 1
    pushed-one id rows e =
        let new = new_fact embed ratio subject predicate object confidence sources now id in
        let gone = about-none subject predicate rows e in
        let more = count-append (is_fact embed ratio subject predicate) rows (new ∷ []) in
        ground (arith, gone, more, eq_iff subject subject, eq_iff predicate predicate)

    -- When no two facts have the same subject and predicate, no two have them after an upsert, and
    -- exactly one has those that were asserted.
    pub upsert_fact-about :
        (table : Serial (SemanticFactRow W))
        → ((s p : String) → about s p table.rows ≤ 1)
        → ((s p : String)
            → about s p
                (upsert_fact embed ratio subject predicate object confidence sources now table).rows
              ≤ 1)
          × (about subject predicate
                (upsert_fact embed ratio subject predicate object confidence sources now table).rows
              ≡ 1)
    unfolding upsert_fact
    upsert_fact-about table h =
        elim (Bool-cases (any (is_fact embed ratio subject predicate) table.rows)) [
          | inl e ↦ rw e (
            λ s p. omega (arith, map-about s p table.rows, h s p),
            omega (
              arith,
              map-about subject predicate table.rows,
              h subject predicate,
              about-some subject predicate table.rows e,
            ),
          )
          | inr e ↦ rw e (
            λ s p. pushed-about s p table.next_id table.rows e (h s p),
            pushed-one table.next_id table.rows e,
          )
        ]
