-- ===== src/Json.antt =====
-- The JSON values that the engine stores and hands on. It never computes with them.
use flow_speckit.Prelude.{ℕ, Bool, Text}

mutual
  pub data Json : Type 0 where
    null : Json
    boolean : Bool → Json
    number : ℕ → Json
    text : Text → Json
    array : Items → Json
    object : Fields → Json

  pub data Items : Type 0 where
    nil : Items
    cons : Json → Items → Items

  pub data Fields : Type 0 where
    end : Fields
    field : Text → Json → Fields → Fields
