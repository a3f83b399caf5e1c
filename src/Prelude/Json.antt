-- ===== src/Prelude/Json.antt =====
-- The values that `json.loads` gives: dict[str, Any] payloads of events and requests.
use Prim.Native.String.{String}
use mathlib.Core.Bool.{Bool}
use aw_bot.Prelude.Int.{ℤ}

-- A float is kept by its literal, which the program never looks into.
mutual
  pub data Json : Type 0 where
    null : Json
    bool : Bool → Json
    int : ℤ → Json
    float : String → Json
    str : String → Json
    arr : Items → Json
    obj : Fields → Json

  pub data Items : Type 0 where
    nil : Items
    cons : Json → Items → Items

  pub data Fields : Type 0 where
    end : Fields
    field : String → Json → Fields → Fields
