-- ===== src/Chain/Load.antt =====
-- chain.go: `RuleChainCtx` and `InitRuleChainCtx`, which builds its tables from the definition.
use rulego.Prelude.{
  ℕ, suc, String, ◌≡◌, ◌↔◌, Bool, true, ◌&&◌, Option, none, some, List, [], ◌∷◌, ◌++◌, map, arith,
  eq_iff, if◌then◌else◌, Eq, ◌==◌, string_eq, nat_key,
}
use rulego.Prelude.Dict.{Map, get, put}
use Prim.Native.String.{◌++◌ as ◌+++◌}
use rulego.Text.{itoa}
use rulego.Result.{Result, ok, err}
use rulego.Dsl.{
  node, chain, RuleNodeId, rule_node_id_eq, RuleNodeRelation, NodeConnection, RuleNode,
  RuleMetadata, RuleChain,
}
use rulego.Node.{RuleNodeCtx}

-- What a `types.NodeCtx` points to: a node of this chain, or the root chain of an engine.
pub data NodeRef : Type 0 where
  node_ref : RuleNodeId → NodeRef
  chain_ref : ℕ → NodeRef

-- The key of the cache: the node that a relation leaves, and the relation's type.
pub record RelationCache : Type 0 where
  pub in_node_id : RuleNodeId
  pub relation_type : String

abbrev pub same_relation : RelationCache → RelationCache → Bool
same_relation a b = a.in_node_id == b.in_node_id && a.relation_type == b.relation_type

pub same_relation_iff : (a b : RelationCache) → (same_relation a b ≡ true) ↔ (a ≡ b)
same_relation_iff a b = ground (
  arith,
  rule_node_id_eq.beq_iff a.in_node_id b.in_node_id,
  eq_iff a.relation_type b.relation_type,
)

instance abbrev pub relation_cache_eq : Eq RelationCache
relation_cache_eq = record { beq = same_relation; beq_iff = same_relation_iff }

-- The root context: the chain context that it was made for, and the first node.
pub record RootContext : Type 0 where
  pub rule_chain_ctx : ℕ
  pub self : NodeRef

pub record RuleChainCtx (C : Type 0) : Type 0 where
  pub id : RuleNodeId
  pub self_definition : RuleChain
  pub initialized : Bool
  pub node_ids : List RuleNodeId
  pub nodes : Map RuleNodeId (RuleNodeCtx C)
  pub node_routes : Map RuleNodeId (List RuleNodeRelation)
  pub relation_cache : Map RelationCache (List NodeRef)
  pub root_rule_context : Option RootContext
  pub rule_chain_pool : Option ℕ  -- the address of a pool; nil is the default pool

-- A call that returns a value, returns an error or panics.
pub data Outcome {ℓ} (A : Type ℓ) : Type ℓ where
  returned : A → Outcome A
  failed : String → Outcome A
  panicked : Outcome A

abbrev pub default_node_id_prefix : String
default_node_id_prefix = "node"

-- `item.Id` is set in place where it is empty.
unfoldable pub with_id : ℕ → RuleNode → RuleNode
with_id index item =
    if item.id == "" then record item { id = default_node_id_prefix +++ itoa index } else item

abbrev pub node_key : String → RuleNodeId
node_key id = record { id = id; type = node }

abbrev pub chain_key : String → RuleNodeId
chain_key id = record { id = id; type = chain }

-- The variables of the first loop of `InitRuleChainCtx`.
pub record Nodes (C : Type 0) : Type 0 where
  pub definitions : List RuleNode
  pub node_ids : List RuleNodeId
  pub nodes : Map RuleNodeId (RuleNodeCtx C)

abbrev pub add_node : {C : Type 0} → RuleNode → RuleNodeCtx C → Nodes C → Nodes C
add_node item ctx acc = record {
  definitions = acc.definitions ++ item ∷ [];
  node_ids = acc.node_ids ++ node_key item.id ∷ [];
  nodes = put (node_key item.id) ctx acc.nodes;
}

-- The loop over the nodes; it stops at the first node that cannot be initialised.
unfoldable pub load_nodes :
    {C : Type 0}
    → (RuleNode → Result (RuleNodeCtx C))
    → ℕ
    → List RuleNode
    → Nodes C
    → Result (Nodes C)
unfolding with_id
load_nodes init index [] acc = ok acc
load_nodes init index (item ∷ items) acc = elim (init (with_id index item)) [
  | ok ctx ↦ load_nodes init (suc index) items (add_node (with_id index item) ctx acc)
  | err e ↦ err e
]

abbrev pub node_relation : NodeConnection → RuleNodeRelation
node_relation c = record {
  in_id = node_key c.from_id;
  out_id = node_key c.to_id;
  relation_type = c.type;
}

abbrev pub chain_relation : NodeConnection → RuleNodeRelation
chain_relation c = record {
  in_id = node_key c.from_id;
  out_id = chain_key c.to_id;
  relation_type = c.type;
}

-- One round of the loops over the connections.
abbrev pub appended : Option (List RuleNodeRelation) → RuleNodeRelation → List RuleNodeRelation
appended none relation = relation ∷ []
appended (some relations) relation = relations ++ relation ∷ []

unfoldable pub add_route :
    Map RuleNodeId (List RuleNodeRelation)
    → RuleNodeRelation
    → Map RuleNodeId (List RuleNodeRelation)
add_route routes relation =
    put relation.in_id (appended (get relation.in_id routes) relation) routes

unfoldable pub add_routes :
    Map RuleNodeId (List RuleNodeRelation)
    → List RuleNodeRelation
    → Map RuleNodeId (List RuleNodeRelation)
unfolding add_route
add_routes routes [] = routes
add_routes routes (relation ∷ relations) = add_routes (add_route routes relation) relations

unfoldable pub load_routes : RuleMetadata → Map RuleNodeId (List RuleNodeRelation)
unfolding add_routes
load_routes m =
    add_routes (add_routes [] (map node_relation m.connections))
      (map chain_relation m.rule_chain_connections)
