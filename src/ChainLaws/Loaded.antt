-- ===== src/ChainLaws/Loaded.antt =====
-- `InitRuleChainCtx`, `ReloadSelf`'s `Copy` and the lookups that follow them.
use rulego.Prelude.{
  ℕ, zero, suc, String, ◌≡◌, refl, sym, ap, ◌∙◌, ◌⊎◌, inl, inr, true, none, some, List, [], ◌∷◌,
  ◌++◌, map, filter_map, string_eq, nat_key, Option-cases, get_elem?, All, none-ne-some,
}
use rulego.Prelude.Dict.{get, has}
use mathlib.Core.Option
use mathlib.Core.Path.{subst}
use rulego.Result.{Result, ok, err, is_ok}
use rulego.Node.{RuleNodeCtx}
use rulego.Dsl.{ℤ, pos, negsuc, RuleNodeId, rule_node_id_eq, RuleNode, RuleChain}
use rulego.Chain.{
  node_relation, chain_relation, node_ref, relation_cache_eq, RuleChainCtx, returned, failed,
  panicked, Nodes, load_nodes, load_routes, get_node_by_id, get_node_by_index, get_first_node,
  get_next_nodes, root_of, loaded_ctx, with_root, init_rule_chain_ctx, copy, not_nil,
}
use rulego.ChainLaws.Cache.{
  get_node_by_id-with_cache, matching, Find, IsCoherent, targets, lookups, lookups-targets, key_of,
}
use rulego.ChainLaws.Nodes.{
  named, keys, no_nodes, load_nodes_lists, load_nodes-IsComplete, load_nodes-err, init-ok, init-err,
  init-returned,
}

module _ {ℓ} {A : Type ℓ} where
  some-eq : {a b : A} → some a ≡ some b → a ≡ b
  some-eq h = cc

  returned-injective : {a b : A} → returned a ≡ returned b → a ≡ b
  returned-injective h = cc

  returned-ne-panicked : {a : A} → returned a ≡ panicked → ⊥
  returned-ne-panicked h = cc

module _ {C : Type 0} (find : Find) where
  listed_node :
      (rc : RuleChainCtx C) (defs : List RuleNode) (n : ℕ)
      → All (λ id. has id rc.nodes ≡ true) (keys defs)
      → (key : RuleNodeId) → get_elem? (keys defs) n ≡ some key
      → get_node_by_id find rc key ≡ some (node_ref key)
  unfolding get_node_by_id
  listed_node rc [] n h key e = absurd (cc)
  listed_node rc (d ∷ defs) zero h key e =
      subst (λ k. get_node_by_id find rc k ≡ some (node_ref k)) (some-eq e) (rw h.0)
  listed_node rc (d ∷ defs) (suc n) h key e = listed_node rc defs n h.1 key e

  get_node_by_index-past :
      (rc : RuleChainCtx C) (n : ℕ)
      → get_elem? rc.node_ids n ≡ none
      → get_node_by_index find rc (pos n) ≡ returned none
  unfolding get_node_by_index
  get_node_by_index-past rc n h = rw (h, get_node_by_index)

  get_node_by_index-at :
      (rc : RuleChainCtx C) (n : ℕ) (key : RuleNodeId)
      → get_elem? rc.node_ids n ≡ some key
      → get_node_by_index find rc (pos n) ≡ returned (get_node_by_id find rc key)
  unfolding get_node_by_index
  get_node_by_index-at rc n key h = rw (h, get_node_by_index)

  get_node_by_index-pos :
      (rc : RuleChainCtx C) (defs : List RuleNode) (n : ℕ)
      → rc.node_ids ≡ keys defs
      → All (λ id. has id rc.nodes ≡ true) (keys defs)
      → get_node_by_index find rc (pos n) ≡ returned (Option.map node_ref (get_elem? (keys defs) n))
  get_node_by_index-pos rc defs n ids h = elim (Option-cases (get_elem? (keys defs) n)) [
    | inl past ↦ rw past (get_node_by_index-past rc n (ap (λ l. get_elem? l n) ids ∙ past))
    | inr (key, at) ↦ rw at (
        get_node_by_index-at rc n key (ap (λ l. get_elem? l n) ids ∙ at)
        ∙ ap returned (listed_node rc defs n h key at))
  ]

empty-IsCoherent :
    {C : Type 0} (find : Find) (rc : RuleChainCtx C) → rc.relation_cache ≡ [] → IsCoherent find rc
unfolding get
empty-IsCoherent find rc h id relation_type list e =
    absurd (none-ne-some (sym (ap (get (key_of id relation_type)) h) ∙ e))

ℤ-cases : (i : ℤ) → ((n : ℕ) × (i ≡ pos n)) ⊎ ((n : ℕ) × (i ≡ negsuc n))
ℤ-cases (pos n) = inl (n, refl)
ℤ-cases (negsuc n) = inr (n, refl)

get_first_node-negsuc :
    {C : Type 0} (find : Find) (def : RuleChain) (ns : Nodes C) (n : ℕ)
    → def.metadata.first_node_index ≡ negsuc n
    → get_first_node find (loaded_ctx def ns) ≡ panicked
unfolding get_first_node
get_first_node-negsuc find def ns n at = ap (get_node_by_index find (loaded_ctx def ns)) at

get_first_node-loaded :
    {C : Type 0} (init : RuleNode → Result (RuleNodeCtx C)) (find : Find) (def : RuleChain)
    (ns : Nodes C) (n : ℕ)
    → load_nodes init 0 def.metadata.nodes (no_nodes C) ≡ ok ns
    → def.metadata.first_node_index ≡ pos n
    → get_first_node find (loaded_ctx def ns)
      ≡ returned (Option.map node_ref (get_elem? (keys (named 0 def.metadata.nodes)) n))
unfolding get_first_node
get_first_node-loaded init find def ns n e at =
    let ids = (load_nodes_lists init 0 def.metadata.nodes (no_nodes _) ns e).1 in
    let complete = load_nodes-IsComplete init 0 def.metadata.nodes (no_nodes _) ns e tt in
    ap (get_node_by_index find (loaded_ctx def ns)) at
    ∙ get_node_by_index-pos find (loaded_ctx def ns) (named 0 def.metadata.nodes) n ids
        (subst (All (λ id. has id ns.nodes ≡ true)) ids complete)

module _ {C : Type 0} (init : RuleNode → Result (RuleNodeCtx C)) (found : Find) (self : ℕ) where
  -- A chain that loads successfully has a first node index that is not negative. Its root context
  -- starts at the node with that index of the definition, identifiers filled in; there is no root
  -- context if the index is not below the number of nodes.
  pub init-root :
      (def : RuleChain) (rc : RuleChainCtx C)
      → init_rule_chain_ctx found init self def ≡ returned rc
      → (n : ℕ) × (def.metadata.first_node_index ≡ pos n)
        × (rc.root_rule_context
            ≡ root_of self (Option.map node_ref (get_elem? (keys (named 0 def.metadata.nodes)) n)))
  init-root def rc h =
      let (ns, e, first, at, same) = init-returned init found self def rc h in
      elim (ℤ-cases def.metadata.first_node_index) [
        | inl (n, index) ↦ (
          n,
          index,
          ap (λ c. c.root_rule_context) same
              ∙ ap (root_of self)
                  (returned-injective (sym at ∙ get_first_node-loaded init found def ns n e index)),
        )
        | inr (n, index) ↦
            absurd (returned-ne-panicked (sym at ∙ get_first_node-negsuc found def ns n index))
      ]

  -- A chain that loads successfully answers any sequence of lookups, in any pool, with the targets of
  -- its definition.
  pub init-targets :
      (def : RuleChain) (rc : RuleChainCtx C) (find : Find) (queries : List (RuleNodeId × String))
      (id : RuleNodeId) (relation_type : String)
      → init_rule_chain_ctx found init self def ≡ returned rc
      → (get_next_nodes find (lookups find rc queries) id relation_type).0 ≡ (
        targets find rc def.metadata id relation_type,
        not_nil (targets find rc def.metadata id relation_type),
      )
  unfolding load_routes
  init-targets def rc find queries id relation_type h =
      let (ns, e, first, at, same) = init-returned init found self def rc h in
      lookups-targets find rc def.metadata queries id relation_type (ap (λ c. c.node_routes) same)
        (empty-IsCoherent find rc (ap (λ c. c.relation_cache) same))

  -- After a reload the old context answers any sequence of lookups with the targets of the new
  -- definition, found among the nodes of the new context, whatever its cache held. Everything else is
  -- the new context's too: it keeps nothing of its old definition, nodes, identifiers or root context.
  pub copy-targets :
      (def : RuleChain) (old rc : RuleChainCtx C) (find : Find)
      (queries : List (RuleNodeId × String)) (id : RuleNodeId) (relation_type : String)
      → init_rule_chain_ctx found init self def ≡ returned rc
      → ((get_next_nodes find (lookups find (copy old rc) queries) id relation_type).0 ≡ (
        targets find rc def.metadata id relation_type,
        not_nil (targets find rc def.metadata id relation_type),
      ))
        × (copy old rc ≡ record rc { relation_cache = [] })
        × ((copy old rc).self_definition.metadata.nodes ≡ named 0 def.metadata.nodes)
        × ((copy old rc).node_ids ≡ keys (named 0 def.metadata.nodes))
  unfolding copy load_routes
  copy-targets def old rc find queries id relation_type h =
      let (ns, e, first, at, same) = init-returned init found self def rc h in
      (
        lookups-targets find (copy old rc) def.metadata queries id relation_type
              (ap (λ c. c.node_routes) same) (empty-IsCoherent find (copy old rc) refl)
            ∙ ap
                (λ look.
                  let list =
                    filter_map (λ r. look r.out_id)
                      (matching id relation_type (
                        map node_relation def.metadata.connections
                        ++ map chain_relation def.metadata.rule_chain_connections)) in
                  (list, not_nil list))
                (get_node_by_id-with_cache find rc []),
        refl,
        ap (λ c. c.self_definition.metadata.nodes) same
            ∙ (load_nodes_lists init 0 def.metadata.nodes (no_nodes _) ns e).0,
        ap (λ c. c.node_ids) same
            ∙ (load_nodes_lists init 0 def.metadata.nodes (no_nodes _) ns e).1,
      )

  -- Loading has three outcomes. It returns a context, and the index of the first node is not
  -- negative; it fails, with the error of the first node that cannot be initialised; or it panics, and
  -- the index of the first node is negative.
  pub init_cases :
      (def : RuleChain)
      → ((rc : RuleChainCtx C) × (n : ℕ) × (init_rule_chain_ctx found init self def ≡ returned rc)
          × (def.metadata.first_node_index ≡ pos n))
        ⊎ ((before : List RuleNode) × (item : RuleNode) × (after : List RuleNode) × (e : String)
            × (init_rule_chain_ctx found init self def ≡ failed e)
            × (named 0 def.metadata.nodes ≡ before ++ item ∷ after)
            × All (λ d. is_ok (init d) ≡ true) before
            × (init item ≡ err e))
        ⊎ ((n : ℕ) × (init_rule_chain_ctx found init self def ≡ panicked)
            × (def.metadata.first_node_index ≡ negsuc n))
  init_cases def = elim (load_nodes-err init 0 def.metadata.nodes (no_nodes C)) [
    | inl (ns, e) ↦ elim (ℤ-cases def.metadata.first_node_index) [
      | inl (n, at) ↦ inl (
        _,
        n,
        init-ok init found self def ns e
            ∙ ap (with_root self (loaded_ctx def ns))
                (get_first_node-loaded init found def ns n e at),
        at,
      )
      | inr (n, at) ↦ inr (
          inr (
            n,
            init-ok init found self def ns e
                ∙ ap (with_root self (loaded_ctx def ns)) (get_first_node-negsuc found def ns n at),
            at,
          ))
    ]
    | inr (before, item, after, e, split, fine, failing, result) ↦
        inr (
          inl (before, item, after, e, init-err init found self def e result, split, fine, failing))
  ]
