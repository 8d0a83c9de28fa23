-- ===== src/Effectors/Scheduler/Once.antt =====
-- No wakeup fires twice, over any sequence of schedules and due checks.
use johnny.Prelude.{
  Option, String, ℕ, ◌+◌, ◌≤◌, ◌≡◌, refl, Bool, true, false, List, [], ◌∷◌, ◌++◌, map, select,
  count, count-append, arith, ltb, eq_iff, ◌==◌, ◌&&◌, Bool-cases, inl, inr, ◌∙◌,
}
use johnny.Prelude.Sort.{sort_desc-count}
use johnny.Sensorium.{RawInput, InputQueue}
use johnny.Effectors.Scheduler.{
  ScheduledWakeup, WakeupTable, status_pending, status_fired, is_due, due_pending, as_fired,
  fire_due, percept, schedule,
}
use johnny.Effectors.Scheduler.Keyed.{IsKeyed, fire_if_due, count-fire_if_due, schedule-IsKeyed}
use johnny.Effectors.Scheduler.Due.{fire_due_lem}

-- A schedule or a due check.
pub data Turn : Type 0 where
  scheduled : (delay : ℕ) → String → (now created : ℕ) → Turn
  checked : ℕ → Turn

-- The table and the queue after a sequence of turns. Each push may be refused.
unfoldable pub perform_all :
    (InputQueue → RawInput → Option String)
    → List Turn
    → WakeupTable
    → InputQueue
    → WakeupTable × InputQueue
unfolding schedule fire_due
perform_all refusal [] table queue = (table, queue)
perform_all refusal (scheduled delay reason now created ∷ turns) table queue =
    perform_all refusal turns (schedule delay reason now created table).1 queue
perform_all refusal (checked now ∷ turns) table queue =
    let (result, (table', queue')) = fire_due refusal now table queue in
    perform_all refusal turns table' queue'

-- The row has fired, and its percept passes the test.
abbrev pub has_fired : (RawInput → Bool) → ScheduledWakeup → Bool
has_fired p row = (row.status == status_fired) && p (percept row)

count-map :
    {A B : Type 0} (p : B → Bool) (g : A → B) (xs : List A)
    → count p (map g xs) ≡ count (λ x. p (g x)) xs
count-map p g [] = refl
count-map p g (x ∷ xs) = ground (arith, count-map p g xs)

count-select :
    {A : Type 0} (p q : A → Bool) (xs : List A) → count q (select p xs) ≡ count (λ x. p x && q x) xs
count-select p q [] = refl
count-select p q (x ∷ xs) = ground (arith, count-select p q xs)

is_due-pending :
    (now : ℕ) (row : ScheduledWakeup) → is_due now row ≡ true → (row.status == status_fired) ≡ false
is_due-pending now row e =
    let pending : row.status ≡ status_pending =
      ground (arith, e, eq_iff row.status status_pending) in
    rw pending refl

module _ (refusal : InputQueue → RawInput → Option String) (p : RawInput → Bool) where
  count-fired :
      (now : ℕ) (rows : List ScheduledWakeup)
      → count (has_fired p) (map (fire_if_due now) rows)
        ≡ count (has_fired p) rows + count (λ row. is_due now row && p (percept row)) rows
  count-fired now [] = refl
  count-fired now (row ∷ rows) = elim (Bool-cases (is_due now row)) [
    | inl e ↦ rw e (ground (arith, is_due-pending now row e, count-fired now rows))
    | inr e ↦ rw e (ground (arith, count-fired now rows))
  ]

  count-due :
      (now : ℕ) (rows : List ScheduledWakeup)
      → count p (map percept (map as_fired (due_pending now rows)))
        ≡ count (λ row. is_due now row && p (percept row)) rows
  unfolding due_pending
  count-due now rows =
      count-map p percept (map as_fired (due_pending now rows))
      ∙ (count-map (λ row. p (percept row)) as_fired (due_pending now rows)
          ∙ (sort_desc-count (λ a b. ltb b a) (λ row. row.fire_at) (λ row. p (percept row))
                (select (is_due now) rows)
              ∙ count-select (is_due now) (λ row. p (percept row)) rows))

  count-sent :
      (sent rest fired : List ScheduledWakeup)
      → fired ≡ sent ++ rest
      → count p (map percept sent) ≤ count p (map percept fired)
  count-sent sent rest fired e = rw e (start sent)
    where
      start :
          (xs : List ScheduledWakeup)
          → count p (map percept xs) ≤ count p (map percept (xs ++ rest))
      start [] = omega arith
      start (x ∷ xs) = omega (arith, start xs)

  -- A test that as many more inputs of the queue pass as rows have fired that pass it, or fewer.
  abbrev Paid : WakeupTable × InputQueue → WakeupTable × InputQueue → Type 0
  Paid (table, queue) (table', queue') =
      count p queue' + count (has_fired p) table.rows
      ≤ count p queue + count (has_fired p) table'.rows

  fire_due-Paid :
      (now : ℕ) (table : WakeupTable) (queue : InputQueue)
      → IsKeyed table
      → Paid (table, queue) (fire_due refusal now table queue).1
        × IsKeyed (fire_due refusal now table queue).1.0
  fire_due-Paid now table queue keyed =
      let (claimed, sorted, next, rows, (sent, rest, all, pushed, end_)) =
        fire_due_lem refusal now table queue keyed in
      let fired = map as_fired (due_pending now table.rows) in
      (
        rw (rows, pushed)
            (omega (
              arith,
              count-append p queue (map percept sent),
              count-sent sent rest fired all,
              count-due now table.rows,
              count-fired now table.rows,
            )),
        λ k. rw (rows, next) (omega (arith, keyed k, count-fire_if_due now k table.rows)),
      )

  schedule-Paid :
      (delay : ℕ) (reason : String) (now created : ℕ) (table : WakeupTable)
      → count (has_fired p) (schedule delay reason now created table).1.rows
        ≡ count (has_fired p) table.rows
  unfolding schedule
  schedule-Paid delay reason now created table = ground (
    arith,
    count-append (has_fired p) table.rows ((schedule delay reason now created table).0 ∷ []),
  )

  perform_all-Paid :
      (turns : List Turn) (table : WakeupTable) (queue : InputQueue)
      → IsKeyed table
      → Paid (table, queue) (perform_all refusal turns table queue)
  unfolding perform_all
  perform_all-Paid [] table queue keyed = omega arith
  perform_all-Paid (scheduled delay reason now created ∷ turns) table queue keyed = omega (
    arith,
    schedule-Paid delay reason now created table,
    perform_all-Paid turns (schedule delay reason now created table).1 queue
        (schedule-IsKeyed delay reason now created table keyed),
  )
  perform_all-Paid (checked now ∷ turns) table queue keyed =
      let (paid, keyed') = fire_due-Paid now table queue keyed in
      let (result, (table', queue')) = fire_due refusal now table queue in
      omega (arith, paid, perform_all-Paid turns table' queue' keyed')

-- Over any sequence of schedules and due checks on a table with unique keys, whichever pushes are
-- refused, the queue gets at most one percept for each row that turns fired: of the percepts that pass
-- any given test, it has at most as many more as there are more fired rows whose percept passes it.
pub fires-once :
    (refusal : InputQueue → RawInput → Option String) (turns : List Turn) (table : WakeupTable)
    (queue : InputQueue)
    → IsKeyed table
    → (p : RawInput → Bool)
    → let (table', queue') = perform_all refusal turns table queue in
      count p queue' + count (has_fired p) table.rows
      ≤ count p queue + count (has_fired p) table'.rows
fires-once refusal turns table queue keyed p = perform_all-Paid refusal p turns table queue keyed
