-- ===== src/Effectors/Scheduler/Due.antt =====
-- What one `fire_due` does: it claims the due wakeups, in order, and pushes them until Redis refuses one.
use johnny.Prelude.{
  ℕ, ◌≡◌, refl, sym, ◌∙◌, List, [], ◌∷◌, ◌++◌, map, All, select, arith, ap, Option, none, some,
  String, ltb,
}
use johnny.Prelude.Sort.{IsDesc, Before, sort_desc-perm, sort_desc-IsDesc}
use johnny.Prelude.Exec.{Outcome, returned, raised}
use johnny.Sensorium.{RawInput, InputQueue, push}
use johnny.Effectors.Scheduler.{
  ScheduledWakeup, WakeupTable, is_due, due_pending, as_fired, fire_due, push_all, push_next,
  percept, fired_or,
}
use johnny.Effectors.Scheduler.Keyed.{IsKeyed, IsKeyed-one, fire_if_due, mark_fired-claimed}
use mathlib.Core.List.{Perm, append-nil, append_assoc}

module _ (refusal : InputQueue → RawInput → Option String) where
  -- How the loop ends, by the wakeups that it has not pushed: with the result `ok` if there are none,
  -- else by the exception with which the queue refuses the first of them.
  abbrev pub Ended :
      {A : Type 0} → A → List ScheduledWakeup → Outcome String A → InputQueue → Type 0
  Ended ok [] result queue = result ≡ returned ok
  Ended ok (w ∷ ws) result queue =
      (e : String) × (result ≡ raised e) × (refusal queue (percept w) ≡ some e)

  -- The loop has pushed a first part of the wakeups.
  abbrev pub Pushed :
      {A : Type 0} → A → List ScheduledWakeup → InputQueue → Outcome String A → InputQueue → Type 0
  Pushed ok wakeups queue result queue' =
      (sent : List ScheduledWakeup) × (rest : List ScheduledWakeup) × (wakeups ≡ sent ++ rest)
      × (queue' ≡ queue ++ map percept sent)
      × Ended ok rest result queue'

  pub push_all-Pushed :
      (wakeups : List ScheduledWakeup) (queue : InputQueue)
      → let (result, queue') = push_all refusal wakeups queue in
        Pushed tt wakeups queue result queue'
  unfolding push_all push
  push_all-Pushed [] queue = ([], [], refl, sym (append-nil queue), refl)
  push_all-Pushed (w ∷ ws) queue =
      let queue1 = queue ++ percept w ∷ [] in
      next (refusal queue (percept w)) refl (push_all refusal ws queue1) (push_all-Pushed ws queue1)
    where
      next :
          (r : Option String)
          → refusal queue (percept w) ≡ r
          → (out : Outcome String (Unit {0}) × InputQueue)
          → Pushed tt ws (queue ++ percept w ∷ []) out.0 out.1
          → let (result, queue') = push_next r out queue in Pushed tt (w ∷ ws) queue result queue'
      next none e (result, queue') (sent, rest, all, pushed, end_) = (
        w ∷ sent,
        rest,
        ap (λ xs. w ∷ xs) all,
        pushed ∙ append_assoc queue (percept w ∷ []) (map percept sent),
        end_,
      )
      next (some x) e out h = ([], w ∷ ws, refl, sym (append-nil queue), (x, refl, e))

  reported :
      (fired rest : List ScheduledWakeup) (result : Outcome String (Unit {0})) (queue : InputQueue)
      → Ended tt rest result queue
      → Ended fired rest (fired_or refusal fired result) queue
  reported fired [] result queue h = ap (fired_or refusal fired) h
  reported fired (w ∷ ws) result queue (e, h, r) = (e, ap (fired_or refusal fired) h, r)

-- The order of two wakeups that are claimed together.
abbrev pub NotLater : ScheduledWakeup → ScheduledWakeup → Type 0
NotLater = Before (λ a b. ltb b a) (λ row. row.fire_at)

due_pending-IsDesc :
    (now : ℕ) (rows : List ScheduledWakeup)
    → IsDesc (λ a b. ltb b a) (λ row. row.fire_at) (due_pending now rows)
unfolding due_pending
due_pending-IsDesc now rows =
    sort_desc-IsDesc (λ a b. ltb b a) (λ row. row.fire_at) (λ row. Unit {0})
      (λ x y gx gy h. ground (arith, h)) (λ x y z gx gy gz h k. ground (arith, h, k))
      (select (is_due now) rows) (all_units (select (is_due now) rows))
  where
    all_units : (xs : List ScheduledWakeup) → All (λ row. Unit {0}) xs
    all_units [] = tt
    all_units (x ∷ xs) = (tt, all_units xs)

-- On a table with unique keys, a due check claims exactly the pending wakeups whose time has come, the
-- earliest first: it makes each of them fired and changes no other row. It pushes the reasons of the
-- first of them to the end of the input queue, in that order: of all of them, which it returns, or of
-- those before the first that the queue refuses, whose exception it raises.
pub fire_due_lem :
    (refusal : InputQueue → RawInput → Option String) (now : ℕ) (table : WakeupTable)
    (queue : InputQueue)
    → IsKeyed table
    → let (result, (table', queue')) = fire_due refusal now table queue in
      let due = due_pending now table.rows in
      let fired = map as_fired due in
      Perm due (select (is_due now) table.rows)
      × IsDesc (λ a b. ltb b a) (λ row. row.fire_at) due
      × (table'.next_id ≡ table.next_id)
      × (table'.rows ≡ map (fire_if_due now) table.rows)
      × Pushed refusal fired fired queue result queue'
unfolding fire_due due_pending
fire_due_lem refusal now table queue keyed =
    let fired = map as_fired (due_pending now table.rows) in
    let (sent, rest, all, pushed, end_) = push_all-Pushed refusal fired queue in
    let (result, queue') = push_all refusal fired queue in
    (
      sort_desc-perm (λ a b. ltb b a) (λ row. row.fire_at) (select (is_due now) table.rows),
      due_pending-IsDesc now table.rows,
      refl,
      mark_fired-claimed now table.rows (IsKeyed-one table keyed),
      (sent, rest, all, pushed, reported refusal fired rest result queue' end_),
    )
