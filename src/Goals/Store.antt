-- ===== src/Goals/Store.antt =====
-- brain/goals/store.py: the `goal` table and the life cycle of its rows.
pub mod Rows
use johnny.Prelude.{
  ℕ, suc, String, Bool, true, false, not, Option, none, some, List, [], ◌∷◌, ◌++◌, map,
  if◌then◌else◌, ◌==◌, ltb, eqb, select, take,
}
use johnny.Prelude.Sort.{sort_desc}
use johnny.Json.{Fields, end}

abbrev pub status_active : String
status_active = "active"

abbrev pub status_resolved : String
status_resolved = "resolved"

abbrev pub status_abandoned : String
status_abandoned = "abandoned"

-- Times are in microseconds.
pub record GoalRow (W : Type 0) : Type 0 where
  pub id : ℕ
  pub source : String
  pub description : String
  pub priority : W
  pub status : String
  pub plan : Fields
  pub outcome : Fields
  pub created_at : ℕ
  pub resolved_at : Option ℕ

pub record Goal (W : Type 0) : Type 0 where
  pub id : Option ℕ
  pub source : String
  pub description : String
  pub priority : W
  pub status : String
  pub plan : Fields
  pub outcome : Fields
  pub created_at : Option ℕ
  pub resolved_at : Option ℕ

-- The table: its rows, and the next value of its key, which Postgres counts up.
pub record Table (W : Type 0) : Type 0 where
  pub next_id : ℕ
  pub rows : List (GoalRow W)

-- `<` of two optional times, where NULL stands last
abbrev null_last : Option ℕ → Option ℕ → Bool
null_last none _ = false
null_last (some a) none = true
null_last (some a) (some b) = ltb a b

abbrev pub or_now : Option ℕ → ℕ → ℕ
or_now none now = now
or_now (some t) now = t

module _ {W : Type 0} where
  abbrev pub row_to_goal : GoalRow W → Goal W
  row_to_goal row = record {
    id = some row.id;
    source = row.source;
    description = row.description;
    priority = row.priority;
    status = row.status;
    plan = row.plan;
    outcome = row.outcome;
    created_at = some row.created_at;
    resolved_at = row.resolved_at;
  }

  abbrev pub is_active : GoalRow W → Bool
  is_active row = row.status == status_active

  -- `GoalRepository.active` and `recent_closed`. SQL leaves the order among equal times open; here it is
  -- the order of the rows. Postgres sorts a NULL time above all others in a descending order.
  unfoldable pub active_rows : Table W → List (GoalRow W)
  active_rows table = sort_desc ltb (λ row. row.created_at) (select is_active table.rows)

  unfoldable pub recent_closed_rows : Table W → ℕ → List (GoalRow W)
  recent_closed_rows table limit = take limit (
      sort_desc null_last (λ row. row.resolved_at) (select (λ row. not (is_active row)) table.rows))

  unfoldable pub active : Table W → List (Goal W)
  unfolding active_rows
  active table = map row_to_goal (active_rows table)

  unfoldable pub recent_closed : Table W → ℕ → List (Goal W)
  unfolding recent_closed_rows
  recent_closed table limit = map row_to_goal (recent_closed_rows table limit)

  abbrev pub new_row : ℕ → Goal W → ℕ → GoalRow W
  new_row id goal now = record {
    id = id;
    source = goal.source;
    description = goal.description;
    priority = goal.priority;
    status = status_active;
    plan = goal.plan;
    outcome = end;
    created_at = or_now goal.created_at now;
    resolved_at = none;
  }

  -- `now` is the reading of the store's clock, which is taken where the goal has no time.
  unfoldable pub promote : Goal W → ℕ → Table W → Goal W × Table W
  promote goal now table =
      let row = new_row table.next_id goal now in
      (row_to_goal row, record { next_id = suc table.next_id; rows = table.rows ++ row ∷ [] })

  -- `get` by the key, and the change of the row that it finds.
  unfoldable pub update : ℕ → (GoalRow W → GoalRow W) → List (GoalRow W) → List (GoalRow W)
  update id change [] = []
  update id change (row ∷ rows) =
      if eqb row.id id then change row ∷ rows else row ∷ update id change rows

  abbrev pub planned : Fields → GoalRow W → GoalRow W
  planned plan row = record row { plan = plan }

  abbrev pub closed : String → Fields → ℕ → GoalRow W → GoalRow W
  closed status outcome now row = record row {
    status = status;
    outcome = outcome;
    resolved_at = some now;
  }

  unfoldable pub set_plan : ℕ → Fields → Table W → Table W
  unfolding update
  set_plan id plan table = record {
    next_id = table.next_id;
    rows = update id (planned plan) table.rows;
  }

  unfoldable pub close : ℕ → String → Fields → ℕ → Table W → Table W
  unfolding update
  close id status outcome now table = record {
    next_id = table.next_id;
    rows = update id (closed status outcome now) table.rows;
  }

  unfoldable pub resolve : ℕ → Fields → ℕ → Table W → Table W
  unfolding close
  resolve id outcome now table = close id status_resolved outcome now table

  unfoldable pub abandon : ℕ → Fields → ℕ → Table W → Table W
  unfolding close
  abandon id outcome now table = close id status_abandoned outcome now table
