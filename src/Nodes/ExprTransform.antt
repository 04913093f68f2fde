-- ===== src/Nodes/ExprTransform.antt =====
-- components/transform/expr_transform_node.go: the node that makes its content from an expression, or
-- from one expression for each key of a mapping. `expr.Compile` is the parameter `compile`, and the
-- run of a program for a message and its data is `run`.
use rulego.Prelude.{String, Option, none, some, [], ◌∷◌, if◌then◌else◌, ◌==◌, string_eq, nat_key}
use rulego.Prelude.Dict.{Map, put}
use rulego.Result.{Result, ok, err}
use rulego.Json.{Value, object, Fields, last, field}
use rulego.Msg.{RuleMsg, json_type}
use rulego.Nodes.{Tell, tell_success, tell_failure, Codec, data_of}

pub record ExprTransformNode (P : Type 0) : Type 0 where
  pub program : Option P
  pub program_mapping : Map String P

module _ {P : Type 0} (trim_space : String → String) (compile : String → Result P) where
  -- The loop of `Init` over the mapping: it ends at the first expression that does not compile.
  unfoldable pub compile_all : Map String String → Map String P → Result (Map String P)
  compile_all [] programs = ok programs
  compile_all ((k, v) ∷ mapping) programs = elim (compile v) [
    | err e ↦ err e
    | ok p ↦ compile_all mapping (put k p programs)
  ]

  abbrev with_program : Result P → Result (ExprTransformNode P)
  with_program (err e) = err e
  with_program (ok p) = ok record { program = some p; program_mapping = [] }

  abbrev with_mapping : Result (Map String P) → Result (ExprTransformNode P)
  with_mapping (err e) = err e
  with_mapping (ok programs) = ok record { program = none; program_mapping = programs }

  unfoldable pub init :
      (expr : String) → (mapping : Map String String) → Result (ExprTransformNode P)
  unfolding compile_all
  init expr mapping =
      let trimmed = trim_space expr in
      if trimmed == ""
      then with_mapping (compile_all mapping [])
      else with_program (compile trimmed)

module _ {P : Type 0} (codec : Codec) (run : P → Value → RuleMsg → Result Value) where
  abbrev to_fields : Map String Value → Fields
  to_fields [] = last
  to_fields ((k, v) ∷ m) = field k v (to_fields m)

  -- The loop over the programs: it ends at the first that fails.
  unfoldable pub run_all : Value → RuleMsg → Map String P → Result (Map String Value)
  run_all data' msg [] = ok []
  run_all data' msg ((k, p) ∷ programs) = elim (run p data' msg) [
    | err e ↦ err e
    | ok v ↦ elim (run_all data' msg programs) [ err e ↦ err e | ok m ↦ ok ((k, v) ∷ m) ]
  ]

  abbrev tell_content : RuleMsg → Result String → Tell
  tell_content msg (err e) = tell_failure msg e
  tell_content msg (ok content) = tell_success (record msg { content = content })

  abbrev tell_value : RuleMsg → RuleMsg → Result Value → Tell
  tell_value msg msg' (err e) = tell_failure msg e
  tell_value msg msg' (ok v) = tell_content msg' (codec.to_string_maybe_err v)

  abbrev object_of : Result (Map String Value) → Result Value
  object_of (err e) = err e
  object_of (ok m) = ok (object (to_fields m))

  -- With a mapping the message is declared as JSON, also where its content then cannot be written.
  unfoldable pub on_msg : ExprTransformNode P → RuleMsg → Tell
  unfolding data_of run_all
  on_msg x msg = elim x.program [
    | some p ↦ tell_value msg msg (run p (data_of codec msg) msg)
    | none ↦
        tell_value msg (record msg { data_type = json_type })
          (object_of (run_all (data_of codec msg) msg x.program_mapping))
  ]
