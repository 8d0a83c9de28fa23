-- ===== src/Attention/Tests.antt =====
-- The selection at a concrete input.
use johnny.Prelude.{arith, ℕ, ◌≤◌, some, String, List, [], ◌∷◌, length}
use johnny.Prelude.Keys.{IsDistinct}
use johnny.Json.{end}
use johnny.Float.{Milli, milli_float}
use johnny.Workspace.{WorkspaceItem}
use johnny.Attention.{Attention, AttentionState, select_items}
use johnny.Attention.Selected.{contents, select_items-Selected}

-- Room for one item and a memory of one content.
abbrev narrow : Attention Milli
narrow = record {
  capacity = 1;
  weight_salience = some 700;
  weight_novelty = some 300;
  repeat_penalty = some 500;
  weight_arousal = some 500;
  novelty_horizon = 1;
  arousal_neutral = some 300;
  half = some 500;
  power = λ penalty n. penalty;
}

abbrev calm : AttentionState Milli
calm = record { recent = "tea" ∷ []; bias = record { arousal = some 300; kind_boosts = [] } }

abbrev remark_of : String → ℕ → WorkspaceItem Milli
remark_of text salience = record {
  id = "r";
  kind = "input";
  content = text;
  salience = some salience;
  source = "dan";
  metadata = end;
}

abbrev remarks : List (WorkspaceItem Milli)
remarks = remark_of "tea" 400 ∷ remark_of "rain" 200 ∷ remark_of "tea" 900 ∷ []

select_items-Selected_example :
    let (selected, t) = select_items narrow [] remarks calm in
    (length selected ≤ 1) × IsDistinct (contents selected) × (length t.recent ≤ 1)
select_items-Selected_example = select_items-Selected narrow [] remarks calm (omega arith)
