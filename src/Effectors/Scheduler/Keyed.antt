-- ===== src/Effectors/Scheduler/Keyed.antt =====
-- With unique keys, `mark_fired` marks the due rows and no other.
use johnny.Prelude.{
  ℕ, ◌+◌, ◌≤◌, ◌≡◌, refl, ap, Bool, true, false, List, [], ◌∷◌, map, All, select, count,
  count-append, arith, any, eqb, leb, not, ◌&&◌, String, Bool-cases, inl, inr, if◌then◌else◌,
}
use johnny.Prelude.Sort.{sort_desc-count}
use johnny.Effectors.Scheduler.{
  ScheduledWakeup, WakeupTable, is_due, due_pending, mark_fired, as_fired, ids_of, schedule,
}
use johnny.Prelude.{ltb}

abbrev pub has_key : ℕ → ScheduledWakeup → Bool
has_key k row = eqb k row.id

-- The keys of the table are unique and below the next one.
abbrev pub IsKeyed : WakeupTable → Type 0
IsKeyed table = (k : ℕ) → count (has_key k) table.rows + (if leb table.next_id k then 1 else 0) ≤ 1

-- What a due check at `now` has to make of a row.
abbrev pub fire_if_due : ℕ → ScheduledWakeup → ScheduledWakeup
fire_if_due now row = if is_due now row then as_fired row else row

abbrev is_spared : ℕ → ℕ → ScheduledWakeup → Bool
is_spared now k row = has_key k row && not (is_due now row)

any-count :
    (k : ℕ) (rows : List ScheduledWakeup)
    → 1 ≤ count (has_key k) rows
    → any (eqb k) (ids_of rows) ≡ true
any-count k [] h = ground (arith, h)
any-count k (row ∷ rows) h = ground (arith, h, any-count k rows)

any-none :
    (k : ℕ) (rows : List ScheduledWakeup)
    → count (has_key k) rows ≡ 0
    → any (eqb k) (ids_of rows) ≡ false
any-none k [] h = refl
any-none k (row ∷ rows) h = ground (arith, h, any-none k rows)

module _ (now : ℕ) where
  count-select :
      (k : ℕ) (rows : List ScheduledWakeup)
      → count (has_key k) (select (is_due now) rows) + count (is_spared now k) rows
        ≡ count (has_key k) rows
  count-select k [] = refl
  count-select k (row ∷ rows) = ground (arith, count-select k rows)

  -- A claimed key is the key of a due row.
  claimed :
      (rows rest : List ScheduledWakeup)
      → ((k : ℕ) → count (has_key k) rows ≤ 1)
      → ((k : ℕ)
          → count (has_key k) (select (is_due now) rest)
            ≤ count (has_key k) (select (is_due now) rows))
      → ((k : ℕ) → count (is_spared now k) rest ≤ count (is_spared now k) rows)
      → All (λ row. any (eqb row.id) (ids_of (due_pending now rows)) ≡ is_due now row) rest
  unfolding due_pending
  claimed rows [] one h g = tt
  claimed rows (row ∷ rest) one h g = (
    elim (Bool-cases (is_due now row)) [
      | inl e ↦ rw e (any-count row.id (due_pending now rows) (ground (arith, e, h row.id, sorted)))
      | inr e ↦ rw e (
          any-none row.id (due_pending now rows)
            (ground (arith, e, g row.id, sorted, one row.id, count-select row.id rows)))
    ],
    claimed rows rest one (λ k. ground (arith, h k)) (λ k. ground (arith, g k)),
  )
    where
      sorted :
          count (has_key row.id) (due_pending now rows)
          ≡ count (has_key row.id) (select (is_due now) rows)
      sorted =
          sort_desc-count (λ a b. ltb b a) (λ r. r.fire_at) (has_key row.id)
            (select (is_due now) rows)

  mark-each :
      (ids : List ℕ) (rows : List ScheduledWakeup)
      → All (λ row. any (eqb row.id) ids ≡ is_due now row) rows
      → mark_fired ids rows ≡ map (fire_if_due now) rows
  unfolding mark_fired
  mark-each ids [] h = refl
  mark-each ids (row ∷ rows) h =
      rw h.0 (ap (λ rest. fire_if_due now row ∷ rest) (mark-each ids rows h.1))

  pub mark_fired-claimed :
      (rows : List ScheduledWakeup)
      → ((k : ℕ) → count (has_key k) rows ≤ 1)
      → mark_fired (ids_of (due_pending now rows)) rows ≡ map (fire_if_due now) rows
  mark_fired-claimed rows one =
      mark-each (ids_of (due_pending now rows)) rows
        (claimed rows rows one (λ k. omega arith) (λ k. omega arith))

  pub count-fire_if_due :
      (k : ℕ) (rows : List ScheduledWakeup)
      → count (has_key k) (map (fire_if_due now) rows) ≡ count (has_key k) rows
  count-fire_if_due k [] = refl
  count-fire_if_due k (row ∷ rows) = ground (arith, count-fire_if_due k rows)

pub IsKeyed-one : (table : WakeupTable) → IsKeyed table → (k : ℕ) → count (has_key k) table.rows ≤ 1
IsKeyed-one table h k = omega (arith, h k)

pub schedule-IsKeyed :
    (delay : ℕ) (reason : String) (now created : ℕ) (table : WakeupTable)
    → IsKeyed table
    → IsKeyed (schedule delay reason now created table).1
unfolding schedule
schedule-IsKeyed delay reason now created table h k = ground (
  arith,
  h k,
  count-append (has_key k) table.rows ((schedule delay reason now created table).0 ∷ []),
)
