-- ===== src/Goals/Arbiter/Single.antt =====
-- The arbiter and its callers keep a single active goal, which is the one that `arbitrate` returns.
use johnny.Prelude.{
  ℕ, suc, ◌<◌, ◌≡◌, refl, inl, inr, Option, none, some, List, [], ◌∷◌, arith, All-append, select,
  count, count-append,
}
use johnny.Prelude.Sort.{sort_desc, sort_into, insert_desc}
use johnny.Json.{Fields}
use johnny.Float.{Float}
use johnny.Drives.Engine.{Urge}
use johnny.Goals.Store.{
  GoalRow, Goal, Table, row_to_goal, is_active, active, active_rows, promote, set_plan, close,
  resolve, abandon, planned, closed, new_row,
}
use johnny.Goals.Store.Rows.{
  Distinct-append, All_below, ids, ids-append, IsSingle, update-IsSingle, select_cases, count-close,
  count_none, select_last,
}
use johnny.Goals.Arbiter.{Mood, Arbiter, arbitrate, settle, displace, select_goal, abandoned_for}

module _ {W : Type 0} where
  set_plan-IsSingle :
      (id : ℕ) (plan : Fields) (table : Table W)
      → IsSingle table
      → IsSingle (set_plan id plan table)
  unfolding set_plan
  set_plan-IsSingle id plan table s =
      update-IsSingle id (planned plan) table (λ row. refl) (λ row h. h) s

  resolve-IsSingle :
      (id : ℕ) (outcome : Fields) (now : ℕ) (table : Table W)
      → IsSingle table
      → IsSingle (resolve id outcome now table)
  unfolding resolve close
  resolve-IsSingle id outcome now table s =
      update-IsSingle id (closed "resolved" outcome now) table (λ row. refl) (λ row h. cc (h)) s

  -- The goals that a result names: none or one.
  abbrev pub goals_of : Option (Goal W) → List (Goal W)
  goals_of none = []
  goals_of (some goal) = goal ∷ []

  abbrev pub Settled : Option (Goal W) × Table W → Type 0
  Settled (goal, table) = IsSingle table × (active table ≡ goals_of goal)

  active_none : (table : Table W) → select is_active table.rows ≡ [] → active table ≡ []
  unfolding active active_rows sort_desc sort_into
  active_none table e = rw e refl

  active_one :
      (row : GoalRow W) (table : Table W)
      → select is_active table.rows ≡ row ∷ []
      → active table ≡ row_to_goal row ∷ []
  unfolding active active_rows sort_desc sort_into insert_desc
  active_one row table e = rw e refl

  promote-Settled :
      (goal : Goal W) (now : ℕ) (table : Table W)
      → IsSingle table
      → count is_active table.rows ≡ 0
      → Settled (let (g, t) = promote goal now table in (some g, t))
  unfolding promote
  promote-Settled goal now table s z =
      let row = new_row table.next_id goal now in
      let e = ids-append table.rows (row ∷ []) in
      (
        record {
          distinct = rw e (Distinct-append table.next_id (ids table.rows) s.distinct s.fresh);
          fresh = rw e (
              All-append (λ i. i < suc table.next_id) (ids table.rows) (table.next_id ∷ [])
                (All_below table.next_id (ids table.rows) s.fresh) (omega arith, tt));
          single = omega (arith, count-append is_active table.rows (row ∷ []), z);
        },
        active_one row (promote goal now table).1 (select_last row table.rows refl z),
      )

  settle-Settled :
      (now : ℕ) (table : Table W) (decision : Option (Goal W))
      → IsSingle table
      → Settled (settle (active table) now table decision)
  unfolding settle displace abandon close
  settle-Settled now table decision s = elim (select_cases table.rows s.single) [
    | inl e ↦ rw (active_none table e) (without decision e)
    | inr (row, e, a) ↦ rw (active_one row table e) (instead row e decision)
  ]
    where
      without :
          (decision : Option (Goal W))
          → select is_active table.rows ≡ []
          → Settled (settle [] now table decision)
      without none e = (s, active_none table e)
      without (some goal) e = promote-Settled goal now table s (count_none table.rows e)

      instead :
          (row : GoalRow W)
          → select is_active table.rows ≡ row ∷ []
          → (decision : Option (Goal W))
          → Settled (settle (row_to_goal row ∷ []) now table decision)
      instead row e none = (s, active_one row table e)
      instead row e (some goal) =
          let change = closed "abandoned" (abandoned_for goal) now in
          promote-Settled goal now (displace (row_to_goal row ∷ []) goal now table)
            (update-IsSingle row.id change table (λ r. refl) (λ r h. cc h) s)
            (count-close row change table.rows e s.distinct refl)

-- What deliberation does with the store: it arbitrates, records a plan and resolves a goal.
pub data Move (W : Type 0) : Type 0 where
  arbitrated : Arbiter W → Option (Mood W) → List (Urge W) → (reference created now : ℕ) → Move W
  planned_goal : ℕ → Fields → Move W
  resolved_goal : ℕ → Fields → ℕ → Move W

module _ {W : Type 0} ⦃f : Float W⦄ where
  -- A goal that `arbitrate` returns is the single active one afterwards; where it returns none, there
  -- is none. This holds from any table with unique keys and at most one active goal.
  pub arbitrate-Settled :
      (arbiter : Arbiter W) (mood : Option (Mood W)) (urges : List (Urge W))
      (reference created now : ℕ) (table : Table W)
      → IsSingle table
      → Settled (arbitrate arbiter mood urges reference created now table)
  unfolding arbitrate
  arbitrate-Settled arbiter mood urges reference created now table s =
      settle-Settled now table (select_goal arbiter mood urges reference created (active table)) s

  unfoldable pub perform : Move W → Table W → Table W
  unfolding arbitrate set_plan resolve
  perform (arbitrated arbiter mood urges reference created now) table =
      (arbitrate arbiter mood urges reference created now table).1
  perform (planned_goal id plan) table = set_plan id plan table
  perform (resolved_goal id outcome now) table = resolve id outcome now table

  unfoldable pub perform_all : List (Move W) → Table W → Table W
  unfolding perform
  perform_all [] table = table
  perform_all (move ∷ moves) table = perform_all moves (perform move table)

  perform-IsSingle :
      (move : Move W) (table : Table W) → IsSingle table → IsSingle (perform move table)
  unfolding perform
  perform-IsSingle (arbitrated arbiter mood urges reference created now) table s =
      (arbitrate-Settled arbiter mood urges reference created now table s).0
  perform-IsSingle (planned_goal id plan) table s = set_plan-IsSingle id plan table s
  perform-IsSingle (resolved_goal id outcome now) table s = resolve-IsSingle id outcome now table s

  -- Whatever sequence of arbitrations, plans and resolutions runs on a table with unique keys and at
  -- most one active goal, the keys stay unique and at most one goal is active.
  pub perform_all-IsSingle :
      (moves : List (Move W)) (table : Table W)
      → IsSingle table
      → IsSingle (perform_all moves table)
  unfolding perform_all
  perform_all-IsSingle [] table s = s
  perform_all-IsSingle (move ∷ moves) table s =
      perform_all-IsSingle moves (perform move table) (perform-IsSingle move table s)
