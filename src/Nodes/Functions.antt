-- ===== src/Nodes/Functions.antt =====
-- components/action/functions_node.go: the registry of functions and the node that calls one, and
-- components/filter/msg_type_switch_node.go. A function is what it tells for a message.
use rulego.Prelude.{
  String, Bool, Option, none, some, List, [], ◌∷◌, if◌then◌else◌, string_eq, nat_key,
}
use rulego.Prelude.Dict.{Map, get, put, remove}
use Prim.Native.String.{◌++◌ as ◌+++◌}
use rulego.Msg.{RuleMsg}
use rulego.Text.{contains, sprintf_dict}
use rulego.Nodes.{Tell, tell_next, tell_failure}

abbrev pub Function : Type 0
Function = RuleMsg → List Tell

-- `FunctionsRegistry`
abbrev pub FunctionsRegistry : Type 0
FunctionsRegistry = Map String Function

unfoldable pub register : FunctionsRegistry → String → Function → FunctionsRegistry
register functions name f = put name f functions

unfoldable pub unregister : FunctionsRegistry → String → FunctionsRegistry
unregister functions name = remove name functions

unfoldable pub get_function : FunctionsRegistry → String → Option Function
get_function functions name = get name functions

pub record FunctionsNode : Type 0 where
  pub function_name : String
  pub has_vars : Bool

-- `Init`: variables are looked for by their left mark alone.
unfoldable pub init : String → FunctionsNode
unfolding contains
init function_name = record {
  function_name = function_name;
  has_vars = contains function_name "${";
}

unfoldable pub get_function_name : FunctionsNode → RuleMsg → String
unfolding sprintf_dict
get_function_name x msg =
    if x.has_vars then sprintf_dict x.function_name msg.metadata else x.function_name

abbrev pub call : Option Function → String → RuleMsg → List Tell
call (some f) name msg = f msg
call none name msg = tell_failure msg ("can not found the function=" +++ name) ∷ []

unfoldable pub on_msg : FunctionsRegistry → FunctionsNode → RuleMsg → List Tell
unfolding get_function_name get_function
on_msg functions x msg =
    let name = get_function_name x msg in call (get_function functions name) name msg

-- `OnMsg` of the switch by message types.
unfoldable pub msg_type_switch : RuleMsg → List Tell
msg_type_switch msg = tell_next msg msg.type ∷ []
