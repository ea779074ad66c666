-- ===== src/Models/Json.antt =====
-- The values of `Record<string, unknown>`: JSON values whose numbers are natural.
use backend_task_orchestrati.Prelude.{ℕ, String, Bool}

mutual
  pub data Json : Type 0 where
    null : Json
    bool : Bool → Json
    num : ℕ → Json
    str : String → Json
    arr : Items → Json
    obj : Fields → Json

  pub data Items : Type 0 where
    nil : Items
    cons : Json → Items → Items

  -- The properties of an object, in their order of insertion.
  pub data Fields : Type 0 where
    end : Fields
    field : String → Json → Fields → Fields
