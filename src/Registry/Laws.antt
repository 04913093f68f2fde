-- ===== src/Registry/Laws.antt =====
-- What registering and unregistering do to the lookups of components.
use rulego.Prelude.{
  String, ◌≡◌, refl, ◌↔◌, inl, inr, Bool, false, Option, none, some, List, [], ◌∷◌, arith, eq_iff,
  if◌then◌else◌, ◌==◌, string_eq, nat_key, Option-cases, any,
}
use rulego.Prelude.Dict.{Map, get, remove, has, get-put, get-remove}
use rulego.Result.{ok}
use rulego.Registry.{
  RuleComponentRegistry, not_found_error, register, remove_list, remove_plugin, unregister,
  new_node,
}

abbrev pub type_in : {C : Type 0} → (C → String) → String → List C → Bool
type_in type_of t items = any (λ item. type_of item == t) items

module _ {C : Type 0} (type_of : C → String) (new : C → C) where
  -- Registering a component whose type is free makes `NewNode` return a new instance of it and
  -- changes no other type; registering one whose type is taken fails and changes nothing.
  pub new_node-register :
      (r : RuleComponentRegistry C) (item : C) (t : String)
      → new_node type_of new (register type_of new r item).0 t ≡ (
          if has (type_of item) r.components
          then new_node type_of new r t
          else if type_of item == t
          then ok (new item)
          else new_node type_of new r t)
  unfolding new_node register
  new_node-register r item t = ground (arith, get-put (type_of item) t item r.components)

  get-remove_list :
      (items : List C) (t : String) (m : Map String C)
      → get t (remove_list type_of new items m)
        ≡ (if type_in type_of t items then none else get t m)
  unfolding remove_list
  get-remove_list [] t m = refl
  get-remove_list (item ∷ items) t m =
      ground
        (arith, get-remove_list items t (remove (type_of item) m), get-remove (type_of item) t m)

  abbrev pub in_plugin : String → Option (List C) → Bool
  in_plugin t none = false
  in_plugin t (some items) = type_in type_of t items

  get-remove_plugin :
      (p : Option (List C)) (r : RuleComponentRegistry C) (name t : String)
      → get t (remove_plugin type_of new name p r).0.components
        ≡ (if in_plugin t p then none else get t r.components)
  unfolding remove_plugin
  get-remove_plugin none r name t = refl
  get-remove_plugin (some items) r name t = get-remove_list items t r.components

  -- After `Unregister` of a name, its type is not found; of the other types, those of the plugin
  -- with that name are not found either, and the rest is as before.
  pub get-unregister :
      (r : RuleComponentRegistry C) (name t : String)
      → get t (unregister type_of new r name).0.components ≡ (
          if name == t
          then none
          else if in_plugin t (get name r.plugins)
          then none
          else get t r.components)
  unfolding unregister
  get-unregister r name t =
      let r' = (remove_plugin type_of new name (get name r.plugins) r).0 in
      ground (
        arith,
        get-remove name t r'.components,
        get-remove_plugin (get name r.plugins) r name t,
        eq_iff name t,
      )

  -- `Unregister` fails exactly when neither a plugin nor a component has the name.
  pub unregister_fails :
      (r : RuleComponentRegistry C) (name : String)
      → ((unregister type_of new r name).1 ≡ some (not_found_error name))
        ↔ ((get name r.plugins ≡ none) × (get name r.components ≡ none))
  unfolding unregister
  unregister_fails r name = elim (Option-cases (get name r.plugins)) [
    | inl none_there ↦ ground (arith, none_there)
    | inr (items, there) ↦ ground (arith, there)
  ]
