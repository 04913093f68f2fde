-- ===== src/Nodes/Scripts.antt =====
-- components/filter/js_filter_node.go, components/filter/js_switch_node.go,
-- components/transform/js_transform_node.go and components/filter/expr_filter_node.go: the nodes that
-- ask a script or an expression. What its engine answers is the parameter `execute` or `run`.
use rulego.Prelude.{
  String, true, Option, none, some, List, [], ◌∷◌, if◌then◌else◌, ◌==◌, string_eq, nat_key,
}
use rulego.Prelude.Dict.{Map, get, put}
use rulego.Result.{Result, ok, err}
use rulego.Json.{Value, boolean, text, array, object, last, items, fields}
use rulego.Msg.{RuleMsg, Metadata, json_type, build_metadata}
use rulego.Nodes.{
  Tell, tell_next, tell_success, tell_failure, Codec, to_string, data_of, map_data_of,
}

-- The answer of a filter: `true`, and nothing else, is the relation True.
abbrev pub relation_of : Value → String
relation_of (boolean true) = "True"
relation_of _ = "False"

abbrev pub tell_relation : RuleMsg → Result Value → List Tell
tell_relation msg (err e) = tell_failure msg e ∷ []
tell_relation msg (ok out) = tell_next msg (relation_of out) ∷ []

-- Data, metadata and message type, to the answer.
abbrev pub Script : Type 0
Script = Value → Metadata → String → Result Value

module _ (codec : Codec) (execute : Script) where
  unfoldable pub js_filter : RuleMsg → List Tell
  unfolding data_of
  js_filter msg = tell_relation msg (execute (data_of codec msg) msg.metadata msg.type)

  abbrev tell_relations : RuleMsg → List Value → List Tell
  tell_relations msg [] = []
  tell_relations msg (v ∷ vs) = tell_next msg (to_string codec v) ∷ tell_relations msg vs

  abbrev switched : RuleMsg → Result Value → List Tell
  switched msg (err e) = tell_failure msg e ∷ []
  switched msg (ok (array vs)) = tell_relations msg (items vs)
  switched msg (ok out) = tell_failure msg "return the value is not an array" ∷ []

  unfoldable pub js_switch : RuleMsg → List Tell
  unfolding map_data_of
  js_switch msg = switched msg (execute (map_data_of codec msg) msg.metadata msg.type)

  -- A message that is declared as JSON and is none gives the script a map without keys.
  abbrev transform_data : RuleMsg → Value
  transform_data msg =
      if msg.data_type == json_type
      then elim (codec.unmarshal msg.content) [ ok v ↦ v | err e ↦ object last ]
      else text msg.content

  abbrev string_values : List (String × Value) → Metadata → Metadata
  string_values [] md = md
  string_values ((k, v) ∷ fs) md = string_values fs (put k (to_string codec v) md)

  abbrev decoded_values : Result Value → Metadata
  decoded_values (ok (object fs)) = string_values (fields fs) []
  decoded_values _ = []

  -- str.ToStringMapString for the values of a script; a text is decoded.
  unfoldable pub to_string_map_string : Value → Metadata
  to_string_map_string (object fs) = string_values (fields fs) []
  to_string_map_string (text s) = decoded_values (codec.unmarshal s)
  to_string_map_string _ = []

  abbrev with_type : Map String Value → RuleMsg → RuleMsg
  with_type out msg = elim (get "msgType" out) [
    | none ↦ msg
    | some v ↦ record msg { type = to_string codec v }
  ]

  abbrev with_metadata : Map String Value → RuleMsg → RuleMsg
  unfolding to_string_map_string build_metadata
  with_metadata out msg = elim (get "metadata" out) [
    | none ↦ msg
    | some v ↦ record msg { metadata = build_metadata (to_string_map_string v) }
  ]

  abbrev tell_data : RuleMsg → Option Value → List Tell
  tell_data msg none = tell_next msg "Success" ∷ []
  tell_data msg (some v) = elim (codec.to_string_maybe_err v) [
    | ok content ↦ tell_next (record msg { content = content }) "Success" ∷ []
    | err e ↦ tell_failure msg e ∷ []
  ]

  abbrev transformed : RuleMsg → Result Value → List Tell
  unfolding to_string_map_string build_metadata
  transformed msg (err e) = tell_failure msg e ∷ []
  transformed msg (ok (object fs)) =
      let out = fields fs in tell_data (with_metadata out (with_type out msg)) (get "msg" out)
  transformed msg (ok out) = tell_failure msg "return the value is not a map" ∷ []

  unfoldable pub js_transform : RuleMsg → List Tell
  unfolding to_string_map_string build_metadata
  js_transform msg = transformed msg (execute (transform_data msg) msg.metadata msg.type)

module _ {P : Type 0} (compile : String → Result P) where
  -- `Init` of the expression filter: the program, and the error. The error of the compiler is in a
  -- variable of its own that nobody reads.
  abbrev program_of : Result P → Option P
  program_of (ok p) = some p
  program_of (err e) = none

  unfoldable pub expr_filter_init : String → Option P × Option String
  expr_filter_init expr = (program_of (compile expr), none)

  module _ (codec : Codec) (run : P → Value → RuleMsg → Result Value) where
    -- `OnMsg`; without a program it panics.
    unfoldable pub expr_filter : Option P → RuleMsg → Option (List Tell)
    unfolding map_data_of
    expr_filter none msg = none
    expr_filter (some p) msg = some (tell_relation msg (run p (map_data_of codec msg) msg))

-- components/action/js_log_node.go: what is told, and what is written to the log.
module _ (codec : Codec) (execute : Script) where
  abbrev logged : RuleMsg → Result Value → List Tell × List String
  logged msg (err e) = (tell_failure msg e ∷ [], [])
  logged msg (ok (text s)) = (tell_success msg ∷ [], s ∷ [])
  logged msg (ok out) = (tell_failure msg "return the value is not a string" ∷ [], [])

  unfoldable pub js_log : RuleMsg → List Tell × List String
  unfolding data_of
  js_log msg = logged msg (execute (data_of codec msg) msg.metadata msg.type)
