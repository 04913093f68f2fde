-- ===== src/Registry.antt =====
-- registry.go: the registry of components and of plugins. Components are values of a type `C` with
-- the results of their methods `Type` and `New`; opening a plugin is the parameter `components_of`.
-- The maps are by value; a nil map is taken as an empty one.
pub mod Laws
pub mod Endpoints
mod Tests
use rulego.Prelude.{
  String, Bool, true, false, not, Option, none, some, List, [], ◌∷◌, if◌then◌else◌, string_eq,
  nat_key,
}
use rulego.Prelude.Dict.{Map, get, put, remove, has, put_all}
use Prim.Native.String.{◌++◌ as ◌+++◌}
use rulego.Result.{Result, ok, err}

pub record RuleComponentRegistry (C : Type 0) : Type 0 where
  pub components : Map String C
  pub plugins : Map String (List C)

-- The registry after a call, with the error that the call returns.
abbrev pub Registered : Type 0 → Type 0
Registered C = RuleComponentRegistry C × Option String

abbrev pub exists_error : String → String
exists_error t = "the component already exists. nodeType=" +++ t

abbrev pub not_found_error : String → String
not_found_error t = "component not found.componentType=" +++ t

module _ {C : Type 0} (type_of : C → String) (new : C → C) where
  unfoldable pub register : RuleComponentRegistry C → C → Registered C
  register r item =
      if has (type_of item) r.components
      then (r, some (exists_error (type_of item)))
      else (record r { components = put (type_of item) item r.components }, none)

  -- The first component of a plugin whose type is there already.
  unfoldable pub find_existing : RuleComponentRegistry C → List C → Option C
  find_existing r [] = none
  find_existing r (item ∷ items) =
      if has (type_of item) r.components then some item else find_existing r items

  -- The second loop of `RegisterPlugin`, which stops at the first error.
  unfoldable pub register_list : RuleComponentRegistry C → List C → Registered C
  unfolding register
  register_list r [] = (r, none)
  register_list r (item ∷ items) =
      let (r', e) = register r item in
      let rest = register_list r' items in elim e [ some text ↦ (r', some text) | none ↦ rest ]

  abbrev pub add_plugin : String → List C → Registered C → Registered C
  add_plugin name items (r, some e) = (r, some e)
  add_plugin name items (r, none) = (record r { plugins = put name items r.plugins }, none)

  unfoldable pub register_items : RuleComponentRegistry C → String → List C → Registered C
  unfolding find_existing register_list
  register_items r name items = elim (find_existing r items) [
    | some item ↦ (r, some (exists_error (type_of item)))
    | none ↦ add_plugin name items (register_list r items)
  ]

  unfoldable pub register_plugin :
      (String → Result (List C)) → RuleComponentRegistry C → String → String → Registered C
  unfolding register_items
  register_plugin components_of r name file = elim (components_of file) [
    | err e ↦ (r, some e)
    | ok items ↦ register_items r name items
  ]

  -- The loop of `Unregister` over the components of a plugin.
  unfoldable pub remove_list : List C → Map String C → Map String C
  remove_list [] m = m
  remove_list (item ∷ items) m = remove_list items (remove (type_of item) m)

  abbrev pub remove_plugin :
      String → Option (List C) → RuleComponentRegistry C → RuleComponentRegistry C × Bool
  unfolding remove_list
  remove_plugin t none r = (r, false)
  remove_plugin t (some items) r =
      (record r { components = remove_list items r.components; plugins = remove t r.plugins }, true)

  unfoldable pub unregister : RuleComponentRegistry C → String → Registered C
  unfolding remove_list
  unregister r t =
      let (r', removed) = remove_plugin t (get t r.plugins) r in
      if has t r'.components
      then (record r' { components = remove t r'.components }, none)
      else (r', (if removed then none else some (not_found_error t)))

  abbrev pub new_of : String → Option C → Result C
  new_of t none = err (not_found_error t)
  new_of t (some item) = ok (new item)

  unfoldable pub new_node : RuleComponentRegistry C → String → Result C
  new_node r t = new_of t (get t r.components)

unfoldable pub get_components : {C : Type 0} → RuleComponentRegistry C → Map String C
get_components r = put_all [] r.components
