-- ===== src/ChainLaws/Tests.antt =====
-- A chain of two nodes, with a connection between them and one to another chain.
use rulego.Prelude.{
  ℕ, String, ◌≡◌, refl, ◌⊎◌, true, false, none, some, List, [], ◌∷◌, ◌++◌, map, if◌then◌else◌, ◌==◌,
  string_eq, nat_key, get_elem?, All, none-ne-some,
}
use rulego.Prelude.Dict.{get, put}
use mathlib.Core.Option
use rulego.Text.{itoa}
use rulego.Result.{Result, ok, err, is_ok}
use rulego.Dsl.{pos, negsuc, RuleNodeId, RuleNode, RuleChain, RuleMetadata}
use rulego.Node.{RuleNodeCtx}
use rulego.Chain.{
  node_ref, chain_ref, RuleChainCtx, returned, failed, panicked, node_key, node_relation,
  chain_relation, loaded_ctx, Nodes, load_nodes, load_routes, get_next_nodes, get_node_by_id,
  get_node_routes, next_of_routes, init_rule_chain_ctx, copy, not_nil, root_of,
}
use rulego.ChainLaws.Routes.{relations_of, leaving, relations_of-load_routes}
use rulego.ChainLaws.Cache.{
  Find, IsCoherent, targets, lookups, get_next_nodes-IsCoherent, lookups-targets,
  get_next_nodes_stale,
}
use rulego.ChainLaws.Nodes.{
  named, keys, no_nodes, IsComplete, load_nodes_lists, load_nodes-IsComplete, load_nodes-err,
}
use rulego.ChainLaws.Loaded.{init-root, init-targets, copy-targets, init_cases}

abbrev filter_node : RuleNode
filter_node = record {
  id = "s1";
  additional_info = record { description = ""; layout_x = pos 0; layout_y = pos 0 };
  type = "jsFilter";
  name = "";
  debug_mode = false;
  configuration = [];
}

abbrev unnamed_node : RuleNode
unnamed_node = record filter_node { id = ""; type = "log" }

abbrev wires : RuleMetadata
wires = record {
  first_node_index = pos 0;
  nodes = filter_node ∷ unnamed_node ∷ [];
  connections = record { from_id = "s1"; to_id = "node1"; type = "True" } ∷ [];
  rule_chain_connections = record { from_id = "s1"; to_id = "other"; type = "True" } ∷ [];
}

abbrev def : RuleChain
def = record {
  rule_chain = record {
    id = "c1";
    additional_info = [];
    name = "";
    debug_mode = false;
    root = true;
    configuration = [];
  };
  metadata = wires;
}

-- A component is its type; one type is not registered.
abbrev init : RuleNode → Result (RuleNodeCtx String)
init d =
    if d.type == "missing"
    then err "not found"
    else ok (record { component = d.type; self_definition = d })

abbrev find : Find
find id = if id == "other" then some 4 else none

abbrev nodes : Nodes String
nodes = record {
  definitions = filter_node ∷ record unnamed_node { id = "node1" } ∷ [];
  node_ids = node_key "s1" ∷ node_key "node1" ∷ [];
  nodes =
      (node_key "s1", record { component = "jsFilter"; self_definition = filter_node })
      ∷ (
        node_key "node1",
        record { component = "log"; self_definition = record unnamed_node { id = "node1" } },
      )
      ∷ [];
}

abbrev ctx : RuleChainCtx String
ctx = record (loaded_ctx def nodes) {
  root_rule_context = root_of 1 (some (node_ref (node_key "s1")));
}

loaded_nodes : load_nodes init 0 wires.nodes (no_nodes String) ≡ ok nodes
unfolding load_nodes itoa put
loaded_nodes = refl

loaded : init_rule_chain_ctx find init 1 def ≡ returned ctx
unfolding init_rule_chain_ctx itoa put get
loaded = refl

next_test :
    (get_next_nodes find ctx (node_key "s1") "True").0
    ≡ (node_ref (node_key "node1") ∷ chain_ref 4 ∷ [], true)
unfolding get_next_nodes load_routes get put
next_test = refl

relations_of-load_routes_test :
    relations_of (node_key "s1") (load_routes wires)
    ≡ leaving (node_key "s1") (map node_relation wires.connections)
      ++ leaving (node_key "s1") (map chain_relation wires.rule_chain_connections)
relations_of-load_routes_test = relations_of-load_routes (node_key "s1") wires

empty_cache : IsCoherent find ctx
unfolding get
empty_cache id relation_type list h = absurd (none-ne-some h)

get_next_nodes-IsCoherent_test :
    ((get_next_nodes find ctx (node_key "s1") "True").0.0
      ≡ next_of_routes (get_node_by_id find ctx) "True" (get_node_routes ctx (node_key "s1")))
    × IsCoherent find (get_next_nodes find ctx (node_key "s1") "True").1
get_next_nodes-IsCoherent_test =
    get_next_nodes-IsCoherent find ctx (node_key "s1") "True" empty_cache

abbrev queries : List (RuleNodeId × String)
queries = (node_key "s1", "True") ∷ (node_key "s1", "False") ∷ []

lookups-targets_test : (get_next_nodes find (lookups find ctx queries) (node_key "s1") "True").0 ≡ (
  targets find ctx wires (node_key "s1") "True",
  not_nil (targets find ctx wires (node_key "s1") "True"),
)
lookups-targets_test =
    lookups-targets find ctx wires queries (node_key "s1") "True" refl empty_cache

get_next_nodes_stale_example :
    (get_next_nodes
      (λ id. none)
      (get_next_nodes find ctx (node_key "s1") "True").1
      (node_key "s1")
      "True").0
    ≡ (get_next_nodes find ctx (node_key "s1") "True").0
get_next_nodes_stale_example = get_next_nodes_stale find (λ id. none) ctx (node_key "s1") "True"

load_nodes_lists_test :
    (nodes.definitions ≡ [] ++ named 0 wires.nodes)
    × (nodes.node_ids ≡ [] ++ keys (named 0 wires.nodes))
load_nodes_lists_test = load_nodes_lists init 0 wires.nodes (no_nodes String) nodes loaded_nodes

load_nodes-IsComplete_test : IsComplete init nodes
load_nodes-IsComplete_test =
    load_nodes-IsComplete init 0 wires.nodes (no_nodes String) nodes loaded_nodes tt

abbrev bad_nodes : List RuleNode
bad_nodes = filter_node ∷ record filter_node { type = "missing" } ∷ []

load_nodes-err_test :
    ((ns : Nodes String) × (load_nodes init 0 bad_nodes (no_nodes String) ≡ ok ns))
    ⊎ ((before : List RuleNode) × (item : RuleNode) × (after : List RuleNode) × (e : String)
        × (named 0 bad_nodes ≡ before ++ item ∷ after)
        × All (λ d. is_ok (init d) ≡ true) before
        × (init item ≡ err e)
        × (load_nodes init 0 bad_nodes (no_nodes String) ≡ err e))
load_nodes-err_test = load_nodes-err init 0 bad_nodes (no_nodes String)

init-root_test :
    (n : ℕ) × (pos 0 ≡ pos n)
    × (root_of 1 (some (node_ref (node_key "s1")))
        ≡ root_of 1 (Option.map node_ref (get_elem? (keys (named 0 wires.nodes)) n)))
init-root_test = init-root init find 1 def ctx loaded

init-targets_example : (get_next_nodes find (lookups find ctx queries) (node_key "s1") "True").0 ≡ (
  targets find ctx wires (node_key "s1") "True",
  not_nil (targets find ctx wires (node_key "s1") "True"),
)
init-targets_example = init-targets init find 1 def ctx find queries (node_key "s1") "True" loaded

abbrev used : RuleChainCtx String
used = (get_next_nodes find ctx (node_key "s1") "False").1

copy-targets_example :
    ((get_next_nodes find (lookups find (copy used ctx) queries) (node_key "s1") "True").0 ≡ (
      targets find ctx wires (node_key "s1") "True",
      not_nil (targets find ctx wires (node_key "s1") "True"),
    ))
    × (copy used ctx ≡ record ctx { relation_cache = [] })
    × ((copy used ctx).self_definition.metadata.nodes ≡ named 0 wires.nodes)
    × ((copy used ctx).node_ids ≡ keys (named 0 wires.nodes))
copy-targets_example =
    copy-targets init find 1 def used ctx find queries (node_key "s1") "True" loaded

abbrev unstarted : RuleChain
unstarted = record def { metadata = record wires { first_node_index = negsuc 0 } }

init_cases_example :
    ((rc : RuleChainCtx String) × (n : ℕ) × (init_rule_chain_ctx find init 1 unstarted
        ≡ returned rc)
      × (negsuc 0 ≡ pos n))
    ⊎ ((before : List RuleNode) × (item : RuleNode) × (after : List RuleNode) × (e : String)
        × (init_rule_chain_ctx find init 1 unstarted ≡ failed e)
        × (named 0 wires.nodes ≡ before ++ item ∷ after)
        × All (λ d. is_ok (init d) ≡ true) before
        × (init item ≡ err e))
    ⊎ ((n : ℕ) × (init_rule_chain_ctx find init 1 unstarted ≡ panicked) × (negsuc 0 ≡ negsuc n))
init_cases_example = init_cases init find 1 unstarted
