-- ===== src/Json.antt =====
-- JSON-like values, `dict[str, object]`, as payloads, tool arguments and outputs have them.
use johnny.Prelude.{ℕ, String, Bool}

-- A number that is not a natural one is kept as its text.
mutual
  pub data Json : Type 0 where
    null : Json
    bool : Bool → Json
    int : ℕ → Json
    num : String → Json
    str : String → Json
    arr : Items → Json
    obj : Fields → Json

  pub data Items : Type 0 where
    nil : Items
    cons : Json → Items → Items

  pub data Fields : Type 0 where
    end : Fields
    field : String → Json → Fields → Fields
