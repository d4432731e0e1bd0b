-- ===== src/Json.antt =====
-- The values that pass through the program as `Any`, `dict[str, Any]` and JSON.
pub mod Dict
pub mod Convert
use gitvibe_dev.Prelude.{ℕ, String, Bool, List, [], ◌∷◌}
use gitvibe_dev.Prelude.Int.{ℤ}

-- A float is a whole number of millionths: the program's floats are times in seconds.
mutual
  pub data Value : Type 0 where
    null : Value
    bool : Bool → Value
    int : ℤ → Value
    float : ℤ → Value
    str : String → Value
    arr : Items → Value
    obj : Fields → Value

  -- A dict, in the order of insertion.
  pub data Fields : Type 0 where
    end : Fields
    field : String → Value → Fields → Fields

  pub data Items : Type 0 where
    nil : Items
    cons : Value → Items → Items

abbrev pub of_strings : List String → Items
of_strings [] = nil
of_strings (s ∷ ss) = cons (str s) (of_strings ss)

-- `[item for item in items if isinstance(item, str)]`
abbrev pub strings_of : Items → List String
strings_of nil = []
strings_of (cons (str s) vs) = s ∷ strings_of vs
strings_of (cons _ vs) = strings_of vs
