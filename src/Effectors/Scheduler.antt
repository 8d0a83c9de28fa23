-- ===== src/Effectors/Scheduler.antt =====
-- brain/effectors/scheduler.py: wakeups that are stored, claimed when due and pushed as self-percepts.
pub mod Keyed
pub mod Once
pub mod Due
use johnny.Prelude.{
  none, some, Option, ℕ, suc, ◌+◌, String, Bool, true, false, not, Option, none, some, List, [],
  ◌∷◌, ◌++◌, map, if◌then◌else◌, ◌==◌, ◌&&◌, ltb, leb, eqb, any, select, take,
}
use johnny.Prelude.Sort.{sort_desc}
use johnny.Prelude.Exec.{Outcome, returned, raised}
use johnny.Sensorium.{RawInput, InputQueue, push, modality_text}

abbrev pub status_pending : String
status_pending = "pending"

abbrev pub status_fired : String
status_fired = "fired"

abbrev pub wakeup_source : String
wakeup_source = "scheduled_wakeup"

-- `ScheduledWakeupRow`, and `ScheduledWakeup` of a stored row. Times are in microseconds.
pub record ScheduledWakeup : Type 0 where
  pub id : ℕ
  pub fire_at : ℕ
  pub reason : String
  pub status : String
  pub created_at : ℕ

pub record WakeupTable : Type 0 where
  pub next_id : ℕ
  pub rows : List ScheduledWakeup

abbrev pub is_pending : ScheduledWakeup → Bool
is_pending row = row.status == status_pending

abbrev pub is_due : ℕ → ScheduledWakeup → Bool
is_due now row = is_pending row && leb row.fire_at now

-- Ascending by time; SQL leaves the order among equal times open, here it is the order of the rows.
abbrev pub by_fire_at : List ScheduledWakeup → List ScheduledWakeup
by_fire_at = sort_desc (λ a b. ltb b a) (λ row. row.fire_at)

unfoldable pub due_pending : ℕ → List ScheduledWakeup → List ScheduledWakeup
due_pending now rows = by_fire_at (select (is_due now) rows)

abbrev pub as_fired : ScheduledWakeup → ScheduledWakeup
as_fired row = record row { status = status_fired }

abbrev pub ids_of : List ScheduledWakeup → List ℕ
ids_of = map (λ row. row.id)

unfoldable pub mark_fired : List ℕ → List ScheduledWakeup → List ScheduledWakeup
mark_fired ids [] = []
mark_fired ids (row ∷ rows) =
    (if any (eqb row.id) ids then as_fired row else row) ∷ mark_fired ids rows

-- `ScheduledWakeupRepository.pending`
unfoldable pub pending : ℕ → WakeupTable → List ScheduledWakeup
pending limit table = take limit (by_fire_at (select is_pending table.rows))

-- `created` is the default of the column, the time of the database.
unfoldable pub schedule :
    (delay : ℕ) → String → (now created : ℕ) → WakeupTable → ScheduledWakeup × WakeupTable
schedule delay reason now created table =
    let row : ScheduledWakeup = record {
      id = table.next_id;
      fire_at = now + delay;
      reason = reason;
      status = status_pending;
      created_at = created;
    } in
    (row, record { next_id = suc table.next_id; rows = table.rows ++ row ∷ [] })

abbrev pub percept : ScheduledWakeup → RawInput
percept wakeup = record { raw = wakeup.reason; source = wakeup_source; modality = modality_text }

-- How the loop over the claimed wakeups goes on after a push: Redis may refuse one, and the exception
-- ends the loop.
abbrev pub push_next :
    Option String
    → Outcome String (Unit {0}) × InputQueue
    → InputQueue
    → Outcome String (Unit {0}) × InputQueue
push_next none rest queue = rest
push_next (some e) rest queue = (raised e, queue)

module _ (refusal : InputQueue → RawInput → Option String) where
  unfoldable pub push_all :
      List ScheduledWakeup → InputQueue → Outcome String (Unit {0}) × InputQueue
  unfolding push
  push_all [] queue = (returned tt, queue)
  push_all (w ∷ ws) queue =
      push_next (refusal queue (percept w))
        (push_all ws (push w.reason wakeup_source modality_text queue)) queue

  abbrev pub fired_or :
      List ScheduledWakeup → Outcome String (Unit {0}) → Outcome String (List ScheduledWakeup)
  fired_or fired (returned _) = returned fired
  fired_or fired (raised e) = raised e

  -- `Scheduler.fire_due`: the claimed wakeups or the exception of a push, the table once the claim is
  -- committed, and the queue. With no row due, the claim and the loop over it change nothing, as the
  -- early return does.
  unfoldable pub fire_due :
      ℕ
      → WakeupTable
      → InputQueue
      → Outcome String (List ScheduledWakeup) × (WakeupTable × InputQueue)
  unfolding due_pending mark_fired push_all
  fire_due now table queue =
      let due = due_pending now table.rows in
      let fired = map as_fired due in
      let (result, queue') = push_all fired queue in
      (
        fired_or fired result,
        (record { next_id = table.next_id; rows = mark_fired (ids_of due) table.rows }, queue'),
      )
