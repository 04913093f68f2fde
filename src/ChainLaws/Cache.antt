-- ===== src/ChainLaws/Cache.antt =====
-- The answers of `GetNextNodes`, which go through the cache of relations, against the connections
-- of the definition.
use rulego.Prelude.{
  ℕ, String, ◌≡◌, refl, sym, ap, ◌∙◌, inl, inr, ◌&&◌, Option, none, some, List, [], ◌∷◌, ◌++◌, map,
  arith, ◌==◌, string_eq, nat_key, Option-cases, filter, filter_map, filter-append, filter-filter,
}
use rulego.Prelude.Dict.{Map, get, put, get-put, get-put_self}
use mathlib.Core.Path.{fun_ext}
use rulego.Dsl.{
  ComponentType, node, chain, RuleNodeId, rule_node_id_eq, RuleNodeRelation, RuleMetadata,
}
use rulego.Chain.{
  same_relation_iff, node_by_type, NodeRef, RelationCache, relation_cache_eq, relation_cache_eq,
  RuleChainCtx, get_node_by_id, get_node_routes, next_nodes, next_of_routes, not_nil,
  get_next_nodes, load_routes, node_relation, chain_relation,
}
use rulego.ChainLaws.Routes.{relations_of, relations_of-load_routes}

abbrev pub Find : Type 0
Find = String → Option ℕ

abbrev pub key_of : RuleNodeId → String → RelationCache
key_of id relation_type = record { in_node_id = id; relation_type = relation_type }

-- The loop of `GetNextNodes`: a filter and a lookup of each target.
pub next_nodes-eq-filter_map :
    (find_node : RuleNodeId → Option NodeRef) (relation_type : String) (rs : List RuleNodeRelation)
    → next_nodes find_node relation_type rs
      ≡ filter_map (λ r. find_node r.out_id) (filter (λ r. r.relation_type == relation_type) rs)
unfolding next_nodes
next_nodes-eq-filter_map find_node relation_type [] = refl
next_nodes-eq-filter_map find_node relation_type (r ∷ rs) =
    ground (arith, next_nodes-eq-filter_map find_node relation_type rs)

-- The connections from a node under a relation type.
abbrev pub matching : RuleNodeId → String → List RuleNodeRelation → List RuleNodeRelation
matching id relation_type rs = filter (λ r. r.in_id == id && r.relation_type == relation_type) rs

next_of_routes-eq-next_nodes :
    (find_node : RuleNodeId → Option NodeRef) (relation_type : String) (id : RuleNodeId)
    (routes : Map RuleNodeId (List RuleNodeRelation))
    → next_of_routes find_node relation_type (get id routes)
      ≡ next_nodes find_node relation_type (relations_of id routes)
unfolding next_nodes
next_of_routes-eq-next_nodes find_node relation_type id routes = ground arith

module _ {C : Type 0} (find : Find) where
  -- The specification: the targets that exist among the connections of the definition, those to
  -- nodes first, in the order of the definition.
  abbrev pub targets : RuleChainCtx C → RuleMetadata → RuleNodeId → String → List NodeRef
  targets rc m id relation_type =
      filter_map (λ r. get_node_by_id find rc r.out_id)
        (matching id relation_type
          (map node_relation m.connections ++ map chain_relation m.rule_chain_connections))

  -- Every entry of the cache is what a lookup past the cache finds.
  abbrev pub IsCoherent : RuleChainCtx C → Type 0
  IsCoherent rc =
      (id : RuleNodeId) (relation_type : String) (list : List NodeRef)
      → get (key_of id relation_type) rc.relation_cache ≡ some list
      → list ≡ next_of_routes (get_node_by_id find rc) relation_type (get_node_routes rc id)

  node_by_type-with_cache :
      (ty : ComponentType) (rc : RuleChainCtx C) (cache : Map RelationCache (List NodeRef))
      (id : RuleNodeId)
      → node_by_type ty find (record rc { relation_cache = cache }) id ≡ node_by_type ty find rc id
  unfolding node_by_type
  node_by_type-with_cache chain rc cache id = refl
  node_by_type-with_cache node rc cache id = refl

  -- A lookup by identifier does not read the cache.
  pub get_node_by_id-with_cache :
      (rc : RuleChainCtx C) (cache : Map RelationCache (List NodeRef))
      → get_node_by_id find (record rc { relation_cache = cache }) ≡ get_node_by_id find rc
  unfolding get_node_by_id
  get_node_by_id-with_cache rc cache = fun_ext (λ id. node_by_type-with_cache id.type rc cache id)

  next_of_routes-eq-targets :
      (rc : RuleChainCtx C) (m : RuleMetadata) (id : RuleNodeId) (relation_type : String)
      → rc.node_routes ≡ load_routes m
      → next_of_routes (get_node_by_id find rc) relation_type (get_node_routes rc id)
        ≡ targets rc m id relation_type
  unfolding get_node_routes
  next_of_routes-eq-targets rc m id relation_type h =
      next_of_routes-eq-next_nodes (get_node_by_id find rc) relation_type id rc.node_routes
      ∙ ap (next_nodes (get_node_by_id find rc) relation_type) (
          ap (relations_of id) h
          ∙ relations_of-load_routes id m
          ∙ sym (
              filter-append (λ r. r.in_id == id) (map node_relation m.connections)
                (map chain_relation m.rule_chain_connections)))
      ∙ next_nodes-eq-filter_map (get_node_by_id find rc) relation_type _
      ∙ ap (filter_map (λ r. get_node_by_id find rc r.out_id))
          (filter-filter (λ r. r.in_id == id) (λ r. r.relation_type == relation_type) _)

  get_next_nodes_hit :
      (rc : RuleChainCtx C) (id : RuleNodeId) (relation_type : String) (list : List NodeRef)
      → get (key_of id relation_type) rc.relation_cache ≡ some list
      → get_next_nodes find rc id relation_type ≡ ((list, not_nil list), rc)
  unfolding get_next_nodes
  get_next_nodes_hit rc id relation_type list h = rw (h, get_next_nodes)

  get_next_nodes_miss :
      (rc : RuleChainCtx C) (id : RuleNodeId) (relation_type : String)
      → get (key_of id relation_type) rc.relation_cache ≡ none
      → let list = next_of_routes (get_node_by_id find rc) relation_type (get_node_routes rc id) in
        get_next_nodes find rc id relation_type ≡ (
          (list, not_nil list),
          record rc { relation_cache = put (key_of id relation_type) list rc.relation_cache },
        )
  unfolding get_next_nodes
  get_next_nodes_miss rc id relation_type h = rw (h, get_next_nodes)

  get_next_nodes_frame :
      (rc : RuleChainCtx C) (id : RuleNodeId) (relation_type : String)
      → (get_node_by_id find (get_next_nodes find rc id relation_type).1 ≡ get_node_by_id find rc)
        × ((get_next_nodes find rc id relation_type).1.node_routes ≡ rc.node_routes)
  get_next_nodes_frame rc id relation_type =
      elim (Option-cases (get (key_of id relation_type) rc.relation_cache)) [
        | inl miss ↦
            rw (get_next_nodes_miss rc id relation_type miss) (get_node_by_id-with_cache rc _, refl)
        | inr (list, hit) ↦ rw (get_next_nodes_hit rc id relation_type list hit) (refl, refl)
      ]

  get_next_nodes_ok :
      (rc : RuleChainCtx C) (id : RuleNodeId) (relation_type : String)
      → (get_next_nodes find rc id relation_type).0.1
        ≡ not_nil (get_next_nodes find rc id relation_type).0.0
  get_next_nodes_ok rc id relation_type =
      elim (Option-cases (get (key_of id relation_type) rc.relation_cache)) [
        | inl miss ↦ rw (get_next_nodes_miss rc id relation_type miss) refl
        | inr (list, hit) ↦ rw (get_next_nodes_hit rc id relation_type list hit) refl
      ]

  record-IsCoherent :
      (rc : RuleChainCtx C) (id : RuleNodeId) (relation_type : String)
      → let list = next_of_routes (get_node_by_id find rc) relation_type (get_node_routes rc id) in
        let cache = put (key_of id relation_type) list rc.relation_cache in
        IsCoherent rc → IsCoherent (record rc { relation_cache = cache })
  unfolding get_node_routes
  record-IsCoherent rc id relation_type h id' relation_type' list' e =
      rw (get_node_by_id-with_cache rc _) (
        ground (
          arith,
          get-put (key_of id relation_type) (key_of id' relation_type')
              (next_of_routes (get_node_by_id find rc) relation_type (get id rc.node_routes))
              rc.relation_cache,
          h id' relation_type' list',
          same_relation_iff (key_of id relation_type) (key_of id' relation_type'),
        ))

  -- A lookup answers by the routes, and keeps the cache coherent and all else as it was.
  pub get_next_nodes-IsCoherent :
      (rc : RuleChainCtx C) (id : RuleNodeId) (relation_type : String)
      → IsCoherent rc
      → ((get_next_nodes find rc id relation_type).0.0
          ≡ next_of_routes (get_node_by_id find rc) relation_type (get_node_routes rc id))
        × IsCoherent (get_next_nodes find rc id relation_type).1
  get_next_nodes-IsCoherent rc id relation_type h =
      elim (Option-cases (get (key_of id relation_type) rc.relation_cache)) [
        | inl miss ↦
            rw (get_next_nodes_miss rc id relation_type miss)
              (refl, record-IsCoherent rc id relation_type h)
        | inr (list, hit) ↦
            rw (get_next_nodes_hit rc id relation_type list hit) (h id relation_type list hit, h)
      ]

  -- A sequence of lookups, each for a node and a relation type, from the head of the list.
  pub lookups : RuleChainCtx C → List (RuleNodeId × String) → RuleChainCtx C
  lookups rc [] = rc
  lookups rc ((id, relation_type) ∷ queries) =
      lookups (get_next_nodes find rc id relation_type).1 queries

  lookups-IsCoherent :
      (rc : RuleChainCtx C) (queries : List (RuleNodeId × String))
      → IsCoherent rc
      → IsCoherent (lookups rc queries)
        × (get_node_by_id find (lookups rc queries) ≡ get_node_by_id find rc)
        × ((lookups rc queries).node_routes ≡ rc.node_routes)
  unfolding lookups
  lookups-IsCoherent rc [] h = (h, refl, refl)
  lookups-IsCoherent rc ((id, relation_type) ∷ queries) h =
      let next = (get_next_nodes find rc id relation_type).1 in
      let (coherent, same_nodes, same_routes) =
        lookups-IsCoherent next queries (get_next_nodes-IsCoherent rc id relation_type h).1 in
      let (nodes, routes) = get_next_nodes_frame rc id relation_type in
      (coherent, same_nodes ∙ nodes, same_routes ∙ routes)

  -- In a chain with the routes of a definition, and with a coherent cache, a lookup that follows
  -- any sequence of lookups returns the targets of the definition, and `true` just where there are
  -- some.
  pub lookups-targets :
      (rc : RuleChainCtx C) (m : RuleMetadata) (queries : List (RuleNodeId × String))
      (id : RuleNodeId) (relation_type : String)
      → rc.node_routes ≡ load_routes m
      → IsCoherent rc
      → (get_next_nodes find (lookups rc queries) id relation_type).0
        ≡ (targets rc m id relation_type, not_nil (targets rc m id relation_type))
  lookups-targets rc m queries id relation_type routes h =
      let (coherent, same_nodes, same_routes) = lookups-IsCoherent rc queries h in
      let found : (get_next_nodes find (lookups rc queries) id relation_type).0.0
          ≡ targets rc m id relation_type =
        (get_next_nodes-IsCoherent (lookups rc queries) id relation_type coherent).0
        ∙ next_of_routes-eq-targets (lookups rc queries) m id relation_type (same_routes ∙ routes)
        ∙ ap
            (λ f.
              filter_map (λ r. f r.out_id)
                (matching id relation_type
                  (map node_relation m.connections ++ map chain_relation m.rule_chain_connections)))
            same_nodes in
      cc (found, get_next_nodes_ok (lookups rc queries) id relation_type)

module _ {C : Type 0} where
  -- Once looked up, the answer for a node and a relation type stays, whatever becomes of the pool
  -- that finds the chains: the next lookup, in any pool `after`, returns the same.
  pub get_next_nodes_stale :
      (before after : Find) (rc : RuleChainCtx C) (id : RuleNodeId) (relation_type : String)
      → (get_next_nodes after (get_next_nodes before rc id relation_type).1 id relation_type).0
        ≡ (get_next_nodes before rc id relation_type).0
  get_next_nodes_stale before after rc id relation_type =
      elim (Option-cases (get (key_of id relation_type) rc.relation_cache)) [
        | inl miss ↦ rw (get_next_nodes_miss before rc id relation_type miss) (
            ap (λ t. t.0)
              (get_next_nodes_hit after _ id relation_type _
                (get-put_self (key_of id relation_type) _ rc.relation_cache)))
        | inr (list, hit) ↦
            rw (get_next_nodes_hit before rc id relation_type list hit)
              (ap (λ t. t.0) (get_next_nodes_hit after rc id relation_type list hit))
      ]
