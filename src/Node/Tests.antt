-- ===== src/Node/Tests.antt =====
-- Examples of nodes.
use rulego.Prelude.{String, ◌≡◌, ◌⊎◌, true, false, [], ◌∷◌, string_eq, nat_key}
use rulego.Prelude.Dict.{Map, get}
use mathlib.Core.Option
use rulego.Json.{text}
use rulego.Result.{Result, ok, err}
use rulego.Dsl.{Configuration, RuleNode, pos}
use rulego.Node.{RuleNodeCtx, replace_global, process_global_placeholders, get_node_id, reload_self}
use rulego.Node.Laws.{get-process_global_placeholders, reload_self_outcomes_of_node}

abbrev configuration : Configuration
configuration = ("server", text "tcp://${global.host}") ∷ ("topic", text "a") ∷ []

abbrev properties : Map String String
properties = ("host", "h1") ∷ []

get-process_global_placeholders_test :
    get "server" (process_global_placeholders properties configuration)
    ≡ Option.map (replace_global properties) (get "server" configuration)
get-process_global_placeholders_test =
    get-process_global_placeholders properties configuration "server"

abbrev definition : RuleNode
definition = record {
  id = "s1";
  additional_info = record { description = ""; layout_x = pos 0; layout_y = pos 0 };
  type = "log";
  name = "";
  debug_mode = false;
  configuration = configuration;
}

abbrev old : RuleNodeCtx String
old = record { component = "old"; self_definition = definition }

abbrev decode : String → Result (RuleNodeCtx String)
decode def = ok (record { component = def; self_definition = record definition { id = "s2" } })

reload_self_outcomes_of_node_test :
    let r = reload_self decode old "new" in
    (get_node_id r.ctx ≡ get_node_id old)
    × (((e : String) × (decode "new" ≡ err e)
          × (r.error ≡ err e)
          × (r.ctx ≡ old)
          × (r.destroyed ≡ false))
        ⊎ ((new : RuleNodeCtx String) × (decode "new" ≡ ok new)
            × (r.error ≡ ok tt)
            × (r.ctx.component ≡ new.component)
            × (r.destroyed ≡ true)))
reload_self_outcomes_of_node_test = reload_self_outcomes_of_node decode old "new"
