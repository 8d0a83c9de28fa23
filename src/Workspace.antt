-- ===== src/Workspace.antt =====
-- brain/workspace.py: what goes over the bus and what lies on the blackboard.
pub mod Bus
mod Tests
use johnny.Prelude.{ℕ, String, Option, none}
use johnny.Json.{Fields}

pub record WorkspaceEvent : Type 0 where
  pub id : Option ℕ
  pub ts : Option ℕ
  pub sender : String
  pub kind : String
  pub payload : Fields
  pub hops : ℕ

-- `WorkspaceEvent(module=…, type=…, payload=…)`; `sender` is its `module`, `kind` its `type`
abbrev pub new_event : String → String → Fields → WorkspaceEvent
new_event sender kind payload = record {
  id = none;
  ts = none;
  sender = sender;
  kind = kind;
  payload = payload;
  hops = 0;
}

-- The salience is a float, of a type `W` that the users of an item give.
pub record WorkspaceItem {ℓ} (W : Type ℓ) : Type ℓ where
  pub id : String
  pub kind : String
  pub content : String
  pub salience : W
  pub source : String
  pub metadata : Fields
