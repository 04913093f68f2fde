-- ===== src/Nodes/Iterator.antt =====
-- components/action/iterator_node.go, and `Get` of utils/maps/maps.go: the node that tells each item of
-- an array, or each value of a map. `strings.Split(s, ".")` is by characters. A loop over a map goes
-- through it from its head. The answer of the script for an item and its index or key is the
-- parameter `execute`; a node without a script has none.
use rulego.Prelude.{
  ℕ, suc, String, Bool, true, false, Option, none, some, List, [], ◌∷◌, if◌then◌else◌, ◌==◌,
  string_eq, nat_key,
}
use rulego.Prelude.Dict.{Map, get}
use Prim.Native.Char.{code}
use Prim.Native.String.{[] as end_of_text, ◌∷◌ as ◌then◌, ◌++◌ as ◌+++◌}
use rulego.Result.{Result, ok, err}
use rulego.Json.{Value, null, boolean, array, object, items, fields}
use rulego.Msg.{RuleMsg, Metadata}
use rulego.Nodes.{Tell, tell_next, tell_success, tell_failure, Codec, to_string, data_of}

abbrev to_first : String → List String → List String
to_first part [] = part ∷ []
to_first part (first ∷ rest) = (part +++ first) ∷ rest

unfoldable pub split_dot : String → List String
split_dot end_of_text = "" ∷ []
split_dot (c then s) =
    let rest = split_dot s in
    if code c == b'.' then "" ∷ rest else to_first (c then end_of_text) rest

abbrev pub sub_field : String → Value → Option Value
sub_field name (object fs) = get name (fields fs)
sub_field name _ = none

abbrev pub or_null : Option Value → (Value → Value) → Value
or_null none next = null
or_null (some w) next = next w

-- `maps.Get` along the parts of a name; a field that is missing is nil, as a field of the value null.
unfoldable pub get_fields : Value → List String → Value
get_fields v [] = v
get_fields v (name ∷ names) = or_null (sub_field name v) (λ w. get_fields w names)

unfoldable pub maps_get : Value → String → Value
unfolding get_fields split_dot
maps_get input field_name = get_fields input (split_dot field_name)

-- An index of an array, or a key of a map.
pub data Index : Type 0 where
  index : ℕ → Index
  key : String → Index

abbrev pub ItemFilter : Type 0
ItemFilter = Value → Index → Metadata → Result Value

abbrev pub is_true : Value → Bool
is_true (boolean true) = true
is_true _ = false

module _ (codec : Codec) (execute : Option ItemFilter) where
  abbrev tell_item : RuleMsg → Value → Result Value → Tell × Bool
  tell_item msg v (err e) = (tell_failure msg e, false)
  tell_item msg v (ok out) = (
    tell_next (record msg { content = to_string codec v })
        (if is_true out then "True" else "False"),
    true,
  )

  -- What is told for an item, and whether the loop goes on.
  unfoldable pub execute_item : RuleMsg → Value → Index → Tell × Bool
  execute_item msg v i = elim execute [
    | some filter_item ↦ tell_item msg v (filter_item v i msg.metadata)
    | none ↦ tell_item msg v (ok (boolean true))
  ]

  -- The loop; `TellSuccess` after the last item has the message as it came.
  unfoldable pub iterate : RuleMsg → List (Value × Index) → List Tell
  unfolding execute_item
  iterate msg [] = tell_success msg ∷ []
  iterate msg ((v, i) ∷ vs) =
      let rest = iterate msg vs in
      let (told, on) = execute_item msg v i in if on then told ∷ rest else told ∷ []

  abbrev indexed : ℕ → List Value → List (Value × Index)
  indexed n [] = []
  indexed n (v ∷ vs) = (v, index n) ∷ indexed (suc n) vs

  abbrev keyed : Map String Value → List (Value × Index)
  keyed [] = []
  keyed ((k, v) ∷ m) = (v, key k) ∷ keyed m

  abbrev iterate_value : RuleMsg → Value → List Tell
  unfolding iterate
  iterate_value msg (array vs) = iterate msg (indexed 0 (items vs))
  iterate_value msg (object fs) = iterate msg (keyed (fields fs))
  iterate_value msg _ = tell_failure msg "value is not array or {key:value} type" ∷ []

  abbrev iterate_field : RuleMsg → String → Value → List Tell
  unfolding iterate
  iterate_field msg name null = tell_failure msg ("field=" +++ name +++ " not found") ∷ []
  iterate_field msg name v = iterate_value msg v

  unfoldable pub on_msg : (field_name : String) → RuleMsg → List Tell
  unfolding data_of maps_get iterate
  on_msg field_name msg =
      let v = data_of codec msg in
      if field_name == ""
      then iterate_value msg v
      else iterate_field msg field_name (maps_get v field_name)
