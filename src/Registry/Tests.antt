-- ===== src/Registry/Tests.antt =====
-- Examples of the registry: a component is its type here, and a new instance is marked.
use rulego.Prelude.{
  String, ◌≡◌, refl, ◌↔◌, false, none, some, [], ◌∷◌, ◌++◌, if◌then◌else◌, string_eq, nat_key,
}
use rulego.Prelude.Dict.{get, put, has}
use Prim.Native.String.{◌++◌ as ◌+++◌}
use rulego.Result.{ok}
use rulego.Registry.{
  RuleComponentRegistry, not_found_error, register, register_plugin, unregister, new_node,
}
use rulego.Registry.Endpoints.{
  ComponentRegistry, register_endpoint, unregister_endpoint, unregister-register,
}
use rulego.Registry.Laws.{in_plugin, new_node-register, get-unregister, unregister_fails}

abbrev type_of : String → String
type_of t = t

abbrev fresh : String → String
fresh t = "new " +++ t

abbrev registry : RuleComponentRegistry String
registry = record {
  components = ("log", "log") ∷ ("mqtt", "mqtt") ∷ ("tcp", "tcp") ∷ [];
  plugins = ("net", "mqtt" ∷ "tcp" ∷ []) ∷ [];
}

-- A plugin with the same type twice is registered in part, and fails.
partial_plugin_test :
    register_plugin type_of fresh (λ file. ok ("a" ∷ "a" ∷ [])) registry "p" "p.so" ≡ (
      record registry { components = registry.components ++ ("a", "a") ∷ [] },
      some "the component already exists. nodeType=a",
    )
unfolding register_plugin get put
partial_plugin_test = refl

new_node-register_test :
    new_node type_of fresh (register type_of fresh registry "delay").0 "delay" ≡ (
      if has "delay" registry.components
      then new_node type_of fresh registry "delay"
      else if string_eq.beq "delay" "delay"
      then ok "new delay"
      else new_node type_of fresh registry "delay")
new_node-register_test = new_node-register type_of fresh registry "delay" "delay"

get-unregister_test : get "tcp" (unregister type_of fresh registry "net").0.components ≡ (
    if string_eq.beq "net" "tcp"
    then none
    else if in_plugin type_of fresh "tcp" (get "net" registry.plugins)
    then none
    else get "tcp" registry.components)
get-unregister_test = get-unregister type_of fresh registry "net" "tcp"

unregister_fails_test :
    ((unregister type_of fresh registry "none").1 ≡ some (not_found_error "none"))
    ↔ ((get "none" registry.plugins ≡ none) × (get "none" registry.components ≡ none))
unregister_fails_test = unregister_fails type_of fresh registry "none"

abbrev endpoints : ComponentRegistry String
endpoints = record { endpoints = ("http", "http") ∷ [] }

free : has "mqtt" endpoints.endpoints ≡ false
unfolding get
free = refl

unregister-register_test :
    let (r', error) = register_endpoint type_of endpoints "mqtt" in
    let (r'', error') = unregister_endpoint type_of r' "mqtt" in
    (error ≡ none)
    × (error' ≡ none)
    × ((t : String) → get t r''.endpoints ≡ get t endpoints.endpoints)
unregister-register_test = unregister-register type_of endpoints "mqtt" free
