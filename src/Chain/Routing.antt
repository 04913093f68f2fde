-- ===== src/Chain/Routing.antt =====
-- chain.go: lookups of nodes and of routes, the cache of relations, reloading and copying.
use rulego.Prelude.{
  ℕ, String, Bool, true, false, Option, none, some, List, [], ◌∷◌, if◌then◌else◌, ◌==◌, string_eq,
  nat_key, get_elem?,
}
use rulego.Prelude.Dict.{get, put, has}
use mathlib.Core.Option
use rulego.Result.{Result, ok, err}
use rulego.Dsl.{
  ℤ, pos, negsuc, ComponentType, node, chain, RuleNodeId, rule_node_id_eq, RuleNodeRelation,
  RuleNode, RuleChain,
}
use rulego.Node.{RuleNodeCtx}
use rulego.Chain.Load.{
  NodeRef, node_ref, chain_ref, RelationCache, relation_cache_eq, RootContext, RuleChainCtx,
  Outcome, returned, failed, panicked, chain_key, Nodes, load_nodes, load_routes,
}

-- The loop of `GetNextNodes` over the relations of the node.
unfoldable pub next_nodes :
    (RuleNodeId → Option NodeRef) → String → List RuleNodeRelation → List NodeRef
next_nodes find_node relation_type [] = []
next_nodes find_node relation_type (item ∷ relations) =
    let rest = next_nodes find_node relation_type relations in
    if item.relation_type == relation_type
    then elim (find_node item.out_id) [ none ↦ rest | some ctx ↦ ctx ∷ rest ]
    else rest

abbrev pub next_of_routes :
    (RuleNodeId → Option NodeRef) → String → Option (List RuleNodeRelation) → List NodeRef
next_of_routes find_node relation_type none = []
next_of_routes find_node relation_type (some relations) =
    next_nodes find_node relation_type relations

-- A slice that nothing was appended to is nil.
abbrev pub not_nil : List NodeRef → Bool
not_nil [] = false
not_nil (ctx ∷ list) = true

abbrev pub root_of : ℕ → Option NodeRef → Option RootContext
root_of self none = none
root_of self (some first) = some (record { rule_chain_ctx = self; self = first })

module _ {C : Type 0} where
  unfoldable pub node_by_type :
      ComponentType → (String → Option ℕ) → RuleChainCtx C → RuleNodeId → Option NodeRef
  node_by_type chain find rc id = Option.map chain_ref (find id.id)
  node_by_type node find rc id = if has id rc.nodes then some (node_ref id) else none

  unfoldable pub get_node_by_id : (String → Option ℕ) → RuleChainCtx C → RuleNodeId → Option NodeRef
  unfolding node_by_type
  get_node_by_id find rc id = node_by_type id.type find rc id

  -- `ok` of the source is `some`; an index below 0 is out of the range of the slice.
  unfoldable pub get_node_by_index :
      (String → Option ℕ) → RuleChainCtx C → ℤ → Outcome (Option NodeRef)
  unfolding get_node_by_id
  get_node_by_index find rc (negsuc n) = panicked
  get_node_by_index find rc (pos n) = elim (get_elem? rc.node_ids n) [
    | none ↦ returned none
    | some id ↦ returned (get_node_by_id find rc id)
  ]

  unfoldable pub get_first_node : (String → Option ℕ) → RuleChainCtx C → Outcome (Option NodeRef)
  unfolding get_node_by_index
  get_first_node find rc = get_node_by_index find rc rc.self_definition.metadata.first_node_index

  unfoldable pub get_node_routes : RuleChainCtx C → RuleNodeId → Option (List RuleNodeRelation)
  get_node_routes rc id = get id rc.node_routes

  -- The lookup past the cache, and the write to the cache.
  abbrev pub fresh_next_nodes :
      (String → Option ℕ) → RuleChainCtx C → RuleNodeId → String → List NodeRef
  unfolding get_node_by_id get_node_routes next_nodes
  fresh_next_nodes find rc id relation_type =
      next_of_routes (get_node_by_id find rc) relation_type (get_node_routes rc id)

  unfoldable pub get_next_nodes :
      (String → Option ℕ)
      → RuleChainCtx C
      → RuleNodeId
      → String
      → (List NodeRef × Bool) × RuleChainCtx C
  unfolding get_node_by_id get_node_routes next_nodes
  get_next_nodes find rc id relation_type =
      let key : RelationCache = record { in_node_id = id; relation_type = relation_type } in
      let list = next_of_routes (get_node_by_id find rc) relation_type (get_node_routes rc id) in
      elim (get key rc.relation_cache) [
        | some cached ↦ ((cached, not_nil cached), rc)
        | none ↦
            ((list, not_nil list), record rc { relation_cache = put key list rc.relation_cache })
      ]

  -- `Copy`: the identifier, the definition and the tables of the new context, with an empty cache.
  unfoldable pub copy : RuleChainCtx C → RuleChainCtx C → RuleChainCtx C
  copy rc new_ctx = record {
    id = new_ctx.id;
    self_definition = new_ctx.self_definition;
    initialized = new_ctx.initialized;
    node_ids = new_ctx.node_ids;
    nodes = new_ctx.nodes;
    node_routes = new_ctx.node_routes;
    relation_cache = [];
    root_rule_context = new_ctx.root_rule_context;
    rule_chain_pool = new_ctx.rule_chain_pool;
  }

  unfoldable pub set_rule_chain_pool : RuleChainCtx C → Option ℕ → RuleChainCtx C
  set_rule_chain_pool rc pool = record rc { rule_chain_pool = pool }

  abbrev pub with_root : ℕ → RuleChainCtx C → Outcome (Option NodeRef) → Outcome (RuleChainCtx C)
  with_root self rc (returned first) =
      returned (record rc { root_rule_context = root_of self first })
  with_root self rc (failed e) = failed e
  with_root self rc panicked = panicked

  -- The context before its root context is known. The zero value of an identifier is that of a node
  -- with an empty text.
  abbrev pub loaded_ctx : RuleChain → Nodes C → RuleChainCtx C
  loaded_ctx def ns = record {
    id =
        if def.rule_chain.id == ""
        then record { id = ""; type = node }
        else chain_key def.rule_chain.id;
    self_definition = record def { metadata = record (def.metadata) { nodes = ns.definitions } };
    initialized = true;
    node_ids = ns.node_ids;
    nodes = ns.nodes;
    node_routes = load_routes def.metadata;
    relation_cache = [];
    root_rule_context = none;
    rule_chain_pool = none;
  }

  -- `InitRuleChainCtx`, for a context that is made at the address `self`. While it runs, the pool of
  -- the new context is nil, so `find` is the lookup in the default pool.
  unfoldable pub init_rule_chain_ctx :
      (String → Option ℕ)
      → (RuleNode → Result (RuleNodeCtx C))
      → ℕ
      → RuleChain
      → Outcome (RuleChainCtx C)
  unfolding load_nodes load_routes get_first_node
  init_rule_chain_ctx find init self def =
      elim (load_nodes init 0 def.metadata.nodes
        (record { definitions = []; node_ids = []; nodes = [] })) [
          | err e ↦ failed e
          | ok ns ↦ with_root self (loaded_ctx def ns) (get_first_node find (loaded_ctx def ns))
        ]
