-- ===== src/ChainLaws/Nodes.antt =====
-- The nodes of a loaded chain, its first node, and loading and copying as a whole.
use rulego.Prelude.{
  ℕ, suc, String, ◌≡◌, refl, sym, ap, ◌∙◌, ◌⊎◌, inl, inr, true, Option, List, [], ◌∷◌, ◌++◌,
  append-nil, append_assoc, arith, string_eq, nat_key, is_some, All, All-append,
}
use rulego.Prelude.Dict.{Map, put, has, get-put, get-put_self}
use mathlib.Core.Path.{subst}
use rulego.Result.{Result, ok, err, is_ok, Result-cases, ok-injective, err-ne-ok}
use rulego.Node.{RuleNodeCtx}
use rulego.Dsl.{RuleNodeId, rule_node_id_eq, RuleNode, RuleChain}
use rulego.Chain.{
  NodeRef, RuleChainCtx, Outcome, returned, failed, panicked, with_id, node_key, Nodes, add_node,
  load_nodes, get_first_node, root_of, loaded_ctx, with_root, init_rule_chain_ctx,
}
use rulego.ChainLaws.Cache.{Find}

failed-ne-returned {ℓ} : {A : Type ℓ} {e : String} {a : A} → failed e ≡ returned a → ⊥
failed-ne-returned h = cc

-- The definitions with their identifiers filled in, from an index on.
abbrev pub named : ℕ → List RuleNode → List RuleNode
named index [] = []
named index (item ∷ items) = with_id index item ∷ named (suc index) items

abbrev pub keys : List RuleNode → List RuleNodeId
keys [] = []
keys (item ∷ items) = node_key item.id ∷ keys items

module _ {C : Type 0} (init : RuleNode → Result (RuleNodeCtx C)) where
  -- Each key that stands in the list of identifiers is in the table.
  abbrev pub IsComplete : Nodes C → Type 0
  IsComplete ns = All (λ id. has id ns.nodes ≡ true) ns.node_ids

  load_nodes-ok :
      (index : ℕ) (item : RuleNode) (items : List RuleNode) (acc : Nodes C) (ctx : RuleNodeCtx C)
      → init (with_id index item) ≡ ok ctx
      → load_nodes init index (item ∷ items) acc
        ≡ load_nodes init (suc index) items (add_node (with_id index item) ctx acc)
  unfolding load_nodes
  load_nodes-ok index item items acc ctx h = rw (h, load_nodes)

  load_nodes-failed :
      (index : ℕ) (item : RuleNode) (items : List RuleNode) (acc : Nodes C) (e : String)
      → init (with_id index item) ≡ err e
      → load_nodes init index (item ∷ items) acc ≡ err e
  unfolding load_nodes
  load_nodes-failed index item items acc e h = rw (h, load_nodes)

  -- When the nodes load, the definitions and the identifiers are appended in the order of the
  -- definition, with the identifiers filled in.
  pub load_nodes_lists :
      (index : ℕ) (items : List RuleNode) (acc ns : Nodes C)
      → load_nodes init index items acc ≡ ok ns
      → (ns.definitions ≡ acc.definitions ++ named index items)
        × (ns.node_ids ≡ acc.node_ids ++ keys (named index items))
  unfolding load_nodes
  load_nodes_lists index [] acc ns h =
      (ground (arith, append-nil acc.definitions), ground (arith, append-nil acc.node_ids))
  load_nodes_lists index (item ∷ items) acc ns h = elim (Result-cases (init (with_id index item))) [
    | inl (ctx, e) ↦
        let next = add_node (with_id index item) ctx acc in
        let (defs, ids) =
          load_nodes_lists (suc index) items next ns
            (sym (load_nodes-ok index item items acc ctx e) ∙ h) in
        (
          defs ∙ append_assoc acc.definitions (with_id index item ∷ []) (named (suc index) items),
          ids
              ∙ append_assoc acc.node_ids (node_key (with_id index item).id ∷ [])
                  (keys (named (suc index) items)),
        )
    | inr (e, bad) ↦ absurd (err-ne-ok (sym (load_nodes-failed index item items acc e bad) ∙ h))
  ]

  All-has-put :
      (key : RuleNodeId) (ctx : RuleNodeCtx C) (nodes : Map RuleNodeId (RuleNodeCtx C))
      (ids : List RuleNodeId)
      → All (λ id. has id nodes ≡ true) ids
      → All (λ id. has id (put key ctx nodes) ≡ true) ids
  All-has-put key ctx nodes [] h = tt
  All-has-put key ctx nodes (id ∷ ids) (h, hs) =
      (ground (arith, get-put key id ctx nodes), All-has-put key ctx nodes ids hs)

  add_node-IsComplete :
      (item : RuleNode) (ctx : RuleNodeCtx C) (acc : Nodes C)
      → IsComplete acc
      → IsComplete (add_node item ctx acc)
  add_node-IsComplete item ctx acc c =
      All-append (λ id. has id (put (node_key item.id) ctx acc.nodes) ≡ true) acc.node_ids
        (node_key item.id ∷ []) (All-has-put (node_key item.id) ctx acc.nodes acc.node_ids c)
        (ap is_some (get-put_self (node_key item.id) ctx acc.nodes), tt)

  -- When the nodes load, every identifier of the list is a key of the table, if that was so before.
  pub load_nodes-IsComplete :
      (index : ℕ) (items : List RuleNode) (acc ns : Nodes C)
      → load_nodes init index items acc ≡ ok ns
      → IsComplete acc
      → IsComplete ns
  unfolding load_nodes
  load_nodes-IsComplete index [] acc ns h c = subst IsComplete (ok-injective h) c
  load_nodes-IsComplete index (item ∷ items) acc ns h c =
      elim (Result-cases (init (with_id index item))) [
        | inl (ctx, e) ↦
            load_nodes-IsComplete (suc index) items (add_node (with_id index item) ctx acc) ns
              (sym (load_nodes-ok index item items acc ctx e) ∙ h)
              (add_node-IsComplete (with_id index item) ctx acc c)
        | inr (e, bad) ↦ absurd (err-ne-ok (sym (load_nodes-failed index item items acc e bad) ∙ h))
      ]

  -- Loading succeeds, or there is a node that cannot be initialised while all nodes before it can, and
  -- loading fails with its error.
  pub load_nodes-err :
      (index : ℕ) (items : List RuleNode) (acc : Nodes C)
      → ((ns : Nodes C) × (load_nodes init index items acc ≡ ok ns))
        ⊎ ((before : List RuleNode) × (item : RuleNode) × (after : List RuleNode) × (e : String)
            × (named index items ≡ before ++ item ∷ after)
            × All (λ d. is_ok (init d) ≡ true) before
            × (init item ≡ err e)
            × (load_nodes init index items acc ≡ err e))
  unfolding load_nodes
  load_nodes-err index [] acc = inl (acc, refl)
  load_nodes-err index (item ∷ items) acc = elim (Result-cases (init (with_id index item))) [
    | inl (ctx, e) ↦
        rw (load_nodes-ok index item items acc ctx e)
          (elim (load_nodes-err (suc index) items (add_node (with_id index item) ctx acc)) [
            | inl good ↦ inl good
            | inr (before, bad, after, text, split, fine, failing, result) ↦ inr (
              with_id index item ∷ before,
              bad,
              after,
              text,
              ap (λ l. with_id index item ∷ l) split,
              (ap is_ok e, fine),
              failing,
              result,
            )
          ])
    | inr (e, bad) ↦ inr (
      [],
      with_id index item,
      named (suc index) items,
      e,
      refl,
      tt,
      bad,
      load_nodes-failed index item items acc e bad,
    )
  ]

abbrev pub no_nodes : (C : Type 0) → Nodes C
no_nodes C = record { definitions = []; node_ids = []; nodes = [] }

module _ {C : Type 0} (init : RuleNode → Result (RuleNodeCtx C)) (found : Find) (self : ℕ) where
  abbrev pub IsLoadedFrom : RuleChain → RuleChainCtx C → Type 0
  IsLoadedFrom def rc =
      (ns : Nodes C) × (load_nodes init 0 def.metadata.nodes (no_nodes C) ≡ ok ns)
      × (first : Option NodeRef) × (get_first_node found (loaded_ctx def ns) ≡ returned first)
      × (rc ≡ record (loaded_ctx def ns) { root_rule_context = root_of self first })

  with_root-returned :
      (ctx rc : RuleChainCtx C) (o : Outcome (Option NodeRef))
      → with_root self ctx o ≡ returned rc
      → (first : Option NodeRef) × (o ≡ returned first)
        × (rc ≡ record ctx { root_rule_context = root_of self first })
  with_root-returned ctx rc (returned first) h = (first, refl, cc)
  with_root-returned ctx rc (failed e) h = absurd (cc)
  with_root-returned ctx rc panicked h = absurd (cc)

  pub init-ok :
      (def : RuleChain) (ns : Nodes C)
      → load_nodes init 0 def.metadata.nodes (no_nodes C) ≡ ok ns
      → init_rule_chain_ctx found init self def
        ≡ with_root self (loaded_ctx def ns) (get_first_node found (loaded_ctx def ns))
  unfolding init_rule_chain_ctx
  init-ok def ns h = rw (h, init_rule_chain_ctx)

  pub init-err :
      (def : RuleChain) (e : String)
      → load_nodes init 0 def.metadata.nodes (no_nodes C) ≡ err e
      → init_rule_chain_ctx found init self def ≡ failed e
  unfolding init_rule_chain_ctx
  init-err def e h = rw (h, init_rule_chain_ctx)

  pub init-returned :
      (def : RuleChain) (rc : RuleChainCtx C)
      → init_rule_chain_ctx found init self def ≡ returned rc
      → IsLoadedFrom def rc
  init-returned def rc h = elim (Result-cases (load_nodes init 0 def.metadata.nodes (no_nodes C))) [
    | inl (ns, e) ↦
        let (first, at, same) =
          with_root-returned (loaded_ctx def ns) rc _ (sym (init-ok def ns e) ∙ h) in
        (ns, e, first, at, same)
    | inr (e, bad) ↦ absurd (failed-ne-returned (sym (init-err def e bad) ∙ h))
  ]
