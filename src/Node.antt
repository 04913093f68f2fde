-- ===== src/Node.antt =====
-- node.go: the context of one node. The components (`types.Node`) come from the registry and from
-- packages outside the engine: their type `C`, `NewNode` of the registry and `Init` of a component
-- are parameters. The properties of the configuration are a map by value (nil is taken as empty).
pub mod Laws
mod Tests
use rulego.Prelude.{String, Bool, true, false, [], ◌∷◌, string_eq, nat_key}
use rulego.Prelude.Dict.{Map}
use rulego.Json.{Value, text}
use rulego.Text.{sprintf_var}
use rulego.Result.{Result, ok, err, ◌>>=◌}
use rulego.Dsl.{Configuration, RuleNode, RuleNodeId, node}

pub record RuleNodeCtx (C : Type 0) : Type 0 where
  pub component : C
  pub self_definition : RuleNode

-- One entry of the loop: only a text has placeholders.
abbrev pub replace_global : Map String String → Value → Value
replace_global properties (text s) = text (sprintf_var s "global." properties)
replace_global properties v = v

-- The keys of the result are those of the configuration, so writing them one by one makes this list.
unfoldable pub process_global_placeholders : Map String String → Configuration → Configuration
process_global_placeholders properties [] = []
process_global_placeholders properties ((key, value) ∷ rest) =
    (key, replace_global properties value) ∷ process_global_placeholders properties rest

module _ {C : Type 0} (new_node : String → Result C) (init : C → Configuration → Result C)
    (properties : Map String String) where
  unfoldable pub init_rule_node_ctx : RuleNode → Result (RuleNodeCtx C)
  unfolding process_global_placeholders
  init_rule_node_ctx def = do
    fresh ← new_node def.type
    ready ← init fresh (process_global_placeholders properties def.configuration)
    ok (record { component = ready; self_definition = def })

module _ {C : Type 0} where
  unfoldable pub get_node_id : RuleNodeCtx C → RuleNodeId
  get_node_id rn = record { id = rn.self_definition.id; type = node }

  unfoldable pub is_debug_mode : RuleNodeCtx C → Bool
  is_debug_mode rn = rn.self_definition.debug_mode

  -- `Copy` leaves the identifier alone.
  unfoldable pub copy : RuleNodeCtx C → RuleNodeCtx C → RuleNodeCtx C
  copy rn new_ctx = record {
    component = new_ctx.component;
    self_definition = record (rn.self_definition) {
      additional_info = new_ctx.self_definition.additional_info;
      name = new_ctx.self_definition.name;
      type = new_ctx.self_definition.type;
      debug_mode = new_ctx.self_definition.debug_mode;
      configuration = new_ctx.self_definition.configuration;
    };
  }

-- `ReloadSelf` over a decoder for the text: the state after the call with what it returns. The call
-- of `Destroy` on the old component is recorded by the flag.
pub record Reloaded (C : Type 0) : Type 0 where
  pub ctx : RuleNodeCtx C
  pub destroyed : Bool
  pub error : Result (Unit {0})

module _ {C : Type 0} (decode : String → Result (RuleNodeCtx C)) where
  abbrev reload_with : RuleNodeCtx C → Result (RuleNodeCtx C) → Reloaded C
  reload_with rn (ok new_ctx) = record {
    ctx = copy rn new_ctx;
    destroyed = Bool.true;
    error = ok tt;
  }
  reload_with rn (err e) = record { ctx = rn; destroyed = Bool.false; error = err e }

  unfoldable pub reload_self : RuleNodeCtx C → String → Reloaded C
  unfolding copy
  reload_self rn def = reload_with rn (decode def)
