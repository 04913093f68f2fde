-- ===== src/Endpoint/Building.antt =====
-- endpoint/endpoint.go: how a router is built (`NewRouter`, `From`, `To`, `ToComponent`), and the
-- factory of executors. `strings.TrimSpace`, `str.ToString`, the component registry and the `Init` of
-- a component are parameters. A call that panics is an error, with the value as it was left.
pub mod Laws
use rulego.Prelude.{
  String, Bool, true, false, not, ◌&&◌, Option, none, some, List, [], ◌∷◌, ◌++◌, if◌then◌else◌,
  ◌==◌, string_eq, nat_key,
}
use rulego.Prelude.Dict.{Map, get, put, put_all}
use Prim.Native.Char.{Char, code}
use Prim.Native.String.{◌++◌ as ◌+++◌}
use Prim.Native.String.{[] as end_of_text, ◌∷◌ as ◌then◌}
use rulego.Result.{Result, ok, err}
use rulego.Json.{Value, text}
use rulego.Dsl.{Configuration}
use rulego.Text.{check_has_var}
use rulego.Endpoint.{
  Executor, chain_executor, component_executor, Process, Engine, To, From, Router,
}

-- strings.Split(s, ":")[0]
unfoldable pub before_colon : String → String
before_colon end_of_text = ""
before_colon (c then s) = let rest = before_colon s in if code c == b':' then "" else c then rest

-- What follows the first colon; a text without one makes `to[len(executorType)+1:]` panic, here with
-- a shorter text than Go's.
unfoldable pub after_colon : String → Option String
after_colon end_of_text = none
after_colon (c then s) = let rest = after_colon s in if code c == b':' then some s else rest

abbrev pub path_key : String
path_key = "_path"

-- The loop over `configs`.
abbrev merge_configs : Configuration → List Configuration → Configuration
merge_configs acc [] = acc
merge_configs acc (item ∷ configs) = merge_configs (put_all acc item) configs

module _ {In Out Node : Type 0} where
  unfoldable pub new_router : (String → Option Engine) → Router In Out Node
  new_router rule_go = record { from = none; rule_go = rule_go; disable = false }

  unfoldable pub router_from : Router In Out Node → String → List Configuration → Router In Out Node
  router_from r from configs = record r {
    from =
        some
          record { from = from; config = merge_configs [] configs; process_list = []; to = none };
  }

  unfoldable pub from_process : From In Out Node → Process In Out → From In Out Node
  from_process f process = record f { process_list = f.process_list ++ (process ∷ []) }

  unfoldable pub to_process : To In Out Node → Process In Out → To In Out Node
  to_process t process = record t { process_list = t.process_list ++ (process ∷ []) }

  unfoldable pub to_wait : To In Out Node → To In Out Node
  to_wait t = record t { wait = true }

  abbrev to_with : String → Option (Executor Node) → To In Out Node
  to_with path executor = record {
    has_vars = false;
    config = [];
    to = path;
    to_path = path;
    process_list = [];
    executor = executor;
    wait = false;
  }

  unfoldable pub to_component :
      (node_type : Node → String) → From In Out Node → Node → From In Out Node
  to_component node_type f node = record f {
    to = some (to_with (node_type node) (some (component_executor (some node))));
  }

-- `ExecutorFactory`
abbrev pub Executors : Type 0 → Type 0
Executors Node = Map String (Executor Node)

module _ {Node : Type 0} where
  unfoldable pub register : Executors Node → String → Executor Node → Executors Node
  register executors name executor = put name executor executors

  -- `New` of the two executors, behind `ExecutorFactory.New`.
  abbrev pub new_executor : Executor Node → Executor Node
  new_executor chain_executor = chain_executor
  new_executor (component_executor component) = component_executor none

  unfoldable pub new : Executors Node → String → Option (Executor Node)
  new executors name = elim (get name executors) [ none ↦ none | some e ↦ some (new_executor e) ]

  abbrev pub is_path_support_var : Executor Node → Bool
  is_path_support_var chain_executor = true
  is_path_support_var (component_executor component) = false

  unfoldable pub default_executors : Executors Node
  unfolding register
  default_executors =
      register (register [] "chain" chain_executor) "component" (component_executor none)

  module _ (new_node : String → Result Node) (init_node : Configuration → Node → Result Node)
      (to_string : Value → String) (trim_space : String → String) where
    -- `Init`: the component is kept when its own `Init` fails.
    abbrev component_init_node : Configuration → Result Node → Executor Node × Option String
    component_init_node config (err e) = (component_executor none, some e)
    component_init_node config (ok node) = elim (init_node config node) [
      | ok node' ↦ (component_executor (some node'), none)
      | err e ↦ (component_executor (some node), some e)
    ]

    unfoldable pub component_init : Configuration → Executor Node × Option String
    component_init config =
        component_init_node config
          (new_node (elim (get path_key config) [ none ↦ "" | some v ↦ to_string v ]))

    unfoldable pub init : Executor Node → Configuration → Executor Node × Option String
    unfolding component_init
    init chain_executor config = (chain_executor, none)
    init (component_executor component) config = component_init config

    module _ {In Out : Type 0} where
      abbrev end_init :
          To In Out Node → Executor Node × Option String → To In Out Node × Option String
      end_init t (executor, none) = (record t { executor = some executor }, none)
      end_init t (executor, some e) = (t, some e)

      abbrev to_path_of :
          To In Out Node → Executor Node → Option String → To In Out Node × Option String
      unfolding init
      to_path_of t executor none = (t, some "slice bounds out of range")
      to_path_of t executor (some rest) =
          let path = trim_space rest in
          let config = put path_key (text path) t.config in
          end_init (record t { to_path = path; config = config }) (init executor config)

      abbrev with_executor :
          To In Out Node
          → (executor_type : String) → Option (Executor Node)
          → To In Out Node × Option String
      unfolding after_colon init
      with_executor t executor_type none =
          (record t { executor = some chain_executor; to_path = t.to }, none)
      with_executor t executor_type (some executor) =
          if t.has_vars && not (is_path_support_var executor)
          then (t, some ("executor=" +++ executor_type +++ ", path not support variables"))
          else to_path_of t executor (after_colon t.to)

      -- The `To` that the router has afterwards, and the panic.
      unfoldable pub make_to :
          Executors Node → String → List Configuration → To In Out Node × Option String
      unfolding new before_colon after_colon init check_has_var
      make_to executors to configs =
          with_executor
            record {
              has_vars = check_has_var to;
              config = merge_configs [] configs;
              to = to;
              to_path = "";
              process_list = [];
              executor = none;
              wait = false;
            }
            (before_colon to) (new executors (before_colon to))

      unfoldable pub from_to :
          Executors Node
          → From In Out Node
          → String
          → List Configuration
          → From In Out Node × Option String
      unfolding make_to
      from_to executors f to configs =
          let (t, panicked) = make_to executors to configs in (record f { to = some t }, panicked)
