-- ===== src/Nodes/Tests.antt =====
-- Examples of the nodes that only tell.
use rulego.Prelude.{
  ℕ, String, ◌≡◌, refl, ◌≢◌, true, false, none, some, List, [], ◌∷◌, ◌++◌, map, if◌then◌else◌, ◌==◌,
  string_eq, nat_key, All,
}
use rulego.Prelude.Dict.{get, put, put_all}
use Prim.Native.String.{◌++◌ as ◌+++◌}
use rulego.Result.{Result, ok, err}
use rulego.Json.{Value, null, boolean, number, text, array, object, item, end, field, last}
use rulego.Msg.{RuleMsg, json_type, build_metadata}
use rulego.Text.{contains}
use rulego.Nodes.{tell_next, tell_success, tell_failure, Codec, data_of, map_data_of}
use rulego.Nodes.Scripts.{
  Script, js_switch, js_filter, js_transform, js_log, to_string_map_string, expr_filter_init,
  expr_filter,
}
use rulego.Nodes.ExprTransform
use rulego.Nodes.Iterator.{
  Index, index, ItemFilter, execute_item, iterate, split_dot, get_fields, maps_get,
}
use rulego.Nodes.Iterator
use rulego.Nodes.Functions.{
  FunctionsRegistry, FunctionsNode, Function, register, unregister, get_function, get_function_name,
  init,
}
use rulego.Nodes.Functions
use rulego.Nodes.Flow.{BranchEnd, Joined, on_branch_ends}
use rulego.Nodes.Laws.{
  Answers, HasMap, wrapped, last_value, iterate-outcomes, get_fields-append, functions-registered,
  on_branch_ends-joined,
}

abbrev msg : RuleMsg
msg = record {
  ts = 1;
  id = "m";
  data_type = json_type;
  type = "T";
  content = "[1,2]";
  metadata = ("k", "old") ∷ [];
}

abbrev codec : Codec
codec = record {
  unmarshal = λ s.
      if s == "[1,2]" then ok (array (item (number "1") (item (number "2") end))) else err "bad";
  to_string_maybe_err = λ v. elim v [
    | null ↦ ok ""
    | boolean b ↦ ok "true"
    | number s ↦ ok s
    | text s ↦ ok s
    | array vs ↦ ok "[]"
    | object fs ↦ err "cycle"
  ];
}

abbrev answers : Value → Script
answers v d md type = ok v

-- A switch whose script returns an array without elements tells nothing at all.
switch_silent : js_switch codec (answers (array end)) msg ≡ []
unfolding js_switch map_data_of
switch_silent = refl

transform_test :
    js_transform codec
      (answers (
        object (
          field "metadata" (object (field "a" (text "b") last)) (field "msgType" (text "U") last))))
      msg
    ≡ tell_next (record msg { type = "U"; metadata = ("a", "b") ∷ [] }) "Success" ∷ []
unfolding js_transform to_string_map_string build_metadata get put put_all
transform_test = refl

filter_test : js_filter codec (answers (text "true")) msg ≡ tell_next msg "False" ∷ []
unfolding js_filter data_of
filter_test = refl

log_test : js_log codec (answers (text "line")) msg ≡ (tell_success msg ∷ [], "line" ∷ [])
unfolding js_log data_of
log_test = refl

abbrev no_program : String → Result ℕ
no_program e = err "syntax error"

-- An expression that does not compile is no error of `Init`, and every message panics.
compile_error_lost : expr_filter_init no_program "a >" ≡ (none, none)
unfolding expr_filter_init
compile_error_lost = refl

abbrev run_program : ℕ → Value → RuleMsg → Result Value
run_program p d m = ok (boolean true)

panics_test : expr_filter no_program codec run_program none msg ≡ none
unfolding expr_filter
panics_test = refl

abbrev second_fails : ItemFilter
second_fails v i md = elim i [
  | index n ↦ if n == 1 then err "boom" else ok (boolean true)
  | Index.key k ↦ ok (boolean false)
]

abbrev first_item : Value × Index
first_item = (number "1", index 0)

abbrev second_item : Value × Index
second_item = (number "2", index 1)

iterate_test :
    Iterator.on_msg codec (some second_fails) "" msg
    ≡ tell_next (record msg { content = "1" }) "True" ∷ tell_failure msg "boom" ∷ []
unfolding Iterator.on_msg data_of iterate execute_item
iterate_test = refl

asked_first : Answers second_fails msg ((first_item, boolean true) ∷ [])
asked_first = (refl, tt)

iterate-outcomes_example :
    (iterate codec (some second_fails) msg (first_item ∷ [])
      ≡ tell_next (record msg { content = "1" }) "True" ∷ tell_success msg ∷ [])
    × ((e : String)
        → second_fails (number "2") (index 1) msg.metadata ≡ err e
        → iterate codec (some second_fails) msg (first_item ∷ second_item ∷ [])
          ≡ tell_next (record msg { content = "1" }) "True" ∷ tell_failure msg e ∷ [])
iterate-outcomes_example =
    iterate-outcomes codec second_fails msg ((first_item, boolean true) ∷ []) [] (number "2")
      (index 1) asked_first

abbrev nested : Value
nested = object (field "a" (object (field "b" (number "3") last)) last)

path_test : maps_get nested "a.b" ≡ number "3"
unfolding maps_get split_dot get_fields get
path_test = refl

get_fields-append_test :
    get_fields nested ("a" ∷ "b" ∷ []) ≡ get_fields (get_fields nested ("a" ∷ [])) ("b" ∷ [])
get_fields-append_test = get_fields-append nested ("a" ∷ []) ("b" ∷ [])

abbrev echo : Function
echo m = tell_success m ∷ []

abbrev node : FunctionsNode
node = record { function_name = "echo"; has_vars = false }

init_test : init "echo" ≡ node
unfolding init contains
init_test = refl

named : get_function_name node msg ≡ "echo"
unfolding get_function_name
named = refl

functions-registered_test :
    (Functions.on_msg (register [] "echo" echo) node msg ≡ tell_success msg ∷ [])
    × ((other : String)
        → other ≢ "echo"
        → get_function (register [] "echo" echo) other ≡ get_function [] other)
    × (Functions.on_msg (unregister (register [] "echo" echo) "echo") node msg
        ≡ tell_failure msg ("can not found the function=" +++ "echo") ∷ [])
functions-registered_test = functions-registered [] "echo" echo node msg named

abbrev joined : Joined
joined = record { wrapper_msg = msg; msgs = [] }

abbrev ends : List BranchEnd
ends =
    record { node_id = "n1"; msg = record msg { metadata = ("k", "new") ∷ [] }; err = none }
    ∷ record { node_id = "n2"; msg = record msg { metadata = ("k", "bad") ∷ [] }; err = some "e" }
    ∷ []

last_wins : last_value "k" (some "old") ends ≡ some "new"
unfolding get
last_wins = refl

ends-AreMaps : All HasMap ends
unfolding get
ends-AreMaps = ((refl, tt), ((refl, tt), tt))

on_branch_ends-joined_example :
    ((on_branch_ends joined ends).msgs ≡ [] ++ map wrapped ends)
    × ((k : String)
        → get k (on_branch_ends joined ends).wrapper_msg.metadata
          ≡ last_value k (get k msg.metadata) ends)
on_branch_ends-joined_example = on_branch_ends-joined joined ends ends-AreMaps

abbrev compile_number : String → Result ℕ
compile_number s = if s == "(" then err "syntax error" else ok 1

abbrev same_text : String → String
same_text s = s

mapping_test :
    ExprTransform.init same_text compile_number "" (("a", "x") ∷ ("b", "(") ∷ [])
    ≡ err "syntax error"
unfolding ExprTransform.init ExprTransform.compile_all
mapping_test = refl
