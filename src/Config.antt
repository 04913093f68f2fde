-- ===== src/Config.antt =====
-- api/types/config.go: the configuration of an engine, its options, and the lists of aspects that the
-- engine takes from it. A value that the program is given from outside, such as a pool or a logger,
-- is a number that names it. `sort.Slice` is the parameter `sort`: it sorts the slice in place, so
-- each getter returns the configuration too.
pub mod Laws
mod Tests
use rulego.Prelude.{
  ℕ, String, Bool, true, false, Option, none, some, List, [], ◌∷◌, ltb, string_eq, nat_key, filter,
}
use rulego.Prelude.Dict.{Map, put}
use Prim.Native.String.{◌++◌ as ◌+++◌}
use rulego.Msg.{Metadata, new_metadata}
use rulego.Dsl.{ℤ, pos, negsuc}

-- The interfaces of api/types/aspect.go that the getters ask for.
pub data AspectKind : Type 0 where
  around before after : AspectKind
  start end completed : AspectKind
  on_created on_reload on_destroy : AspectKind

pub record Aspect : Type 0 where
  pub name : String
  pub order : ℤ
  pub implements : AspectKind → Bool

-- What a script or a Go function is registered as.
pub data Udf : Type 0 where
  script : (type content : String) → Udf
  function : ℕ → Udf

pub record Config : Type 0 where
  pub on_debug : Option ℕ
  pub on_end : Option ℕ
  pub script_max_execution_time : ℕ  -- in milliseconds
  pub pool : Option ℕ
  pub components_registry : Option ℕ
  pub parser : Option ℕ
  pub logger : Option ℕ
  pub properties : Metadata
  pub udf : Map String Udf
  pub aspects : List Aspect

abbrev pub script_func_separator : String
script_func_separator = "#"

abbrev pub udf_key : String → Udf → String
udf_key name (script type content) = type +++ script_func_separator +++ name
udf_key name (function f) = name

unfoldable pub register_udf : Config → String → Udf → Config
register_udf c name value = record c { udf = put (udf_key name value) value c.udf }

-- An option that fails leaves what it has written; its error is dropped.
abbrev pub ConfigOption : Type 0
ConfigOption = Config → Config × Option String

abbrev pub apply_options : List ConfigOption → Config → Config
apply_options [] c = c
apply_options (opt ∷ opts) c = apply_options opts (opt c).0

unfoldable pub new_config : (default_logger : ℕ) → List ConfigOption → Config
unfolding new_metadata
new_config default_logger opts = apply_options opts record {
  on_debug = none;
  on_end = none;
  script_max_execution_time = 2000;
  pool = none;
  components_registry = none;
  parser = none;
  logger = some default_logger;
  properties = new_metadata;
  udf = [];
  aspects = [];
}

unfoldable pub with_components_registry : ℕ → ConfigOption
with_components_registry r c = (record c { components_registry = some r }, none)

unfoldable pub with_on_debug : ℕ → ConfigOption
with_on_debug f c = (record c { on_debug = some f }, none)

unfoldable pub with_pool : ℕ → ConfigOption
with_pool p c = (record c { pool = some p }, none)

unfoldable pub with_script_max_execution_time : ℕ → ConfigOption
with_script_max_execution_time t c = (record c { script_max_execution_time = t }, none)

unfoldable pub with_parser : ℕ → ConfigOption
with_parser p c = (record c { parser = some p }, none)

unfoldable pub with_logger : ℕ → ConfigOption
with_logger l c = (record c { logger = some l }, none)

unfoldable pub with_aspects : List Aspect → ConfigOption
with_aspects aspects c = (record c { aspects = aspects }, none)

-- `NewConfig` of engine.go: a parser and a registry where no option has set one.
abbrev pub or_default : ℕ → Option ℕ → Option ℕ
or_default d none = some d
or_default d (some v) = some v

unfoldable pub engine_new_config :
    (default_logger json_parser registry : ℕ) → List ConfigOption → Config
unfolding new_config
engine_new_config default_logger json_parser registry opts =
    let c = new_config default_logger opts in
    record c {
      parser = or_default json_parser c.parser;
      components_registry = or_default registry c.components_registry;
    }

-- `a < b` on Go's `int`
abbrev pub int_lt : ℤ → ℤ → Bool
int_lt (pos a) (pos b) = ltb a b
int_lt (pos a) (negsuc b) = false
int_lt (negsuc a) (pos b) = true
int_lt (negsuc a) (negsuc b) = ltb b a

abbrev pub less : Aspect → Aspect → Bool
less a b = int_lt a.order b.order

abbrev of_kind : AspectKind → Aspect → Bool
of_kind kind a = a.implements kind

module _ (sort : (Aspect → Aspect → Bool) → List Aspect → List Aspect) where
  unfoldable pub get_node_aspects : Config → Config × List Aspect × List Aspect × List Aspect
  get_node_aspects c =
      let aspects = sort less c.aspects in
      (
        record c { aspects = aspects },
        filter (of_kind around) aspects,
        filter (of_kind before) aspects,
        filter (of_kind after) aspects,
      )

  unfoldable pub get_chain_aspects : Config → Config × List Aspect × List Aspect × List Aspect
  get_chain_aspects c =
      let aspects = sort less c.aspects in
      (
        record c { aspects = aspects },
        filter (of_kind start) aspects,
        filter (of_kind end) aspects,
        filter (of_kind completed) aspects,
      )

  unfoldable pub get_engine_aspects : Config → Config × List Aspect × List Aspect × List Aspect
  get_engine_aspects c =
      let aspects = sort less c.aspects in
      (
        record c { aspects = aspects },
        filter (of_kind on_created) aspects,
        filter (of_kind on_reload) aspects,
        filter (of_kind on_destroy) aspects,
      )
