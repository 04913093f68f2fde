-- ===== src/Json.antt =====
-- The values of Go's `interface{}` as `encoding/json` makes them. A float64 is kept as its text.
use rulego.Prelude.{String, Bool, List, [], ◌∷◌}
use rulego.Prelude.Dict.{Map}

mutual
  pub data Value : Type 0 where
    null : Value
    boolean : Bool → Value
    number : String → Value
    text : String → Value
    array : Items → Value
    object : Fields → Value

  pub data Items : Type 0 where
    end : Items
    item : Value → Items → Items

  pub data Fields : Type 0 where
    last : Fields
    field : String → Value → Fields → Fields

abbrev pub items : Items → List Value
items end = []
items (item v vs) = v ∷ items vs

abbrev pub fields : Fields → Map String Value
fields last = []
fields (field k v fs) = (k, v) ∷ fields fs
