-- ===== src/ChainLaws/Routes.antt =====
-- The table of routes against the lists of connections of the definition.
use mathlib.Core.Path.{◌≡⟨◌⟩◌, ◌∎}
use rulego.Prelude.{
  ◌≡◌, sym, ap, ◌∙◌, none, some, List, [], ◌∷◌, ◌++◌, map, append-nil, append_assoc, arith,
  if◌then◌else◌, ◌==◌, string_eq, nat_key, filter,
}
use rulego.Prelude.Dict.{Map, get, get-put}
use rulego.Dsl.{RuleNodeId, same_id_iff, rule_node_id_eq, RuleNodeRelation, RuleMetadata}
use rulego.Chain.{appended, add_route, add_routes, load_routes, node_relation, chain_relation}

abbrev pub Routes : Type 0
Routes = Map RuleNodeId (List RuleNodeRelation)

-- The relations of a node; a node that is not in the table has none.
abbrev pub relations_of : RuleNodeId → Routes → List RuleNodeRelation
relations_of id routes = elim (get id routes) [ none ↦ [] | some relations ↦ relations ]

abbrev pub leaving : RuleNodeId → List RuleNodeRelation → List RuleNodeRelation
leaving id relations = filter (λ r. r.in_id == id) relations

relations_of-add_route :
    (id : RuleNodeId) (routes : Routes) (r : RuleNodeRelation)
    → relations_of id (add_route routes r)
      ≡ relations_of id routes ++ (if r.in_id == id then r ∷ [] else [])
unfolding add_route
relations_of-add_route id routes r = ground (
  arith,
  get-put r.in_id id (appended (get r.in_id routes) r) routes,
  same_id_iff r.in_id id,
  append-nil (relations_of id routes),
)

leaving-cons :
    (id : RuleNodeId) (r : RuleNodeRelation) (rs : List RuleNodeRelation)
    → leaving id (r ∷ rs) ≡ (if r.in_id == id then r ∷ [] else []) ++ leaving id rs
leaving-cons id r rs = ground arith

relations_of-add_routes :
    (id : RuleNodeId) (routes : Routes) (rs : List RuleNodeRelation)
    → relations_of id (add_routes routes rs) ≡ relations_of id routes ++ leaving id rs
unfolding add_routes
relations_of-add_routes id routes [] = sym (append-nil (relations_of id routes))
relations_of-add_routes id routes (r ∷ rs) =
    relations_of id (add_routes (add_route routes r) rs)
    ≡⟨ relations_of-add_routes id (add_route routes r) rs ⟩
      relations_of id (add_route routes r) ++ leaving id rs
    ≡⟨ ap (λ l. l ++ leaving id rs) (relations_of-add_route id routes r) ⟩
      (relations_of id routes ++ (if r.in_id == id then r ∷ [] else [])) ++ leaving id rs
    ≡⟨ append_assoc (relations_of id routes) _ (leaving id rs)
      ∙ ap (λ l. relations_of id routes ++ l) (sym (leaving-cons id r rs)) ⟩
      relations_of id routes ++ leaving id (r ∷ rs) ∎

-- The routes of a node in the table of a loaded chain are the connections to nodes that leave the
-- node, in the order of the definition, followed by those to chains.
pub relations_of-load_routes :
    (id : RuleNodeId) (m : RuleMetadata)
    → relations_of id (load_routes m)
      ≡ leaving id (map node_relation m.connections)
        ++ leaving id (map chain_relation m.rule_chain_connections)
unfolding load_routes get
relations_of-load_routes id m =
    relations_of-add_routes id (add_routes [] (map node_relation m.connections))
      (map chain_relation m.rule_chain_connections)
    ∙ ap (λ l. l ++ leaving id (map chain_relation m.rule_chain_connections))
        (relations_of-add_routes id [] (map node_relation m.connections))
