-- ===== src/Registry/Endpoints.antt =====
-- endpoint/registry.go: the registry of endpoints. An endpoint is a value of a type `E` with the result
-- of its method `Type`; a nil map is taken as an empty one.
use rulego.Prelude.{
  String, ◌≡◌, refl, sym, ap, ◌∙◌, inl, inr, false, Option, none, some, arith, eq_iff,
  if◌then◌else◌, string_eq, nat_key, Option-cases, is_some,
}
use rulego.Prelude.Dict.{Map, get, put, remove, has, get-put, get-remove, get-put_self}
use mathlib.Core.Bool.{false≢true}
use Prim.Native.String.{◌++◌ as ◌+++◌}

pub record ComponentRegistry (E : Type 0) : Type 0 where
  pub endpoints : Map String E

module _ {E : Type 0} (type_of : E → String) where
  unfoldable pub register_endpoint : ComponentRegistry E → E → ComponentRegistry E × Option String
  register_endpoint r endpoint =
      if has (type_of endpoint) r.endpoints
      then (r, some ("the component already exists. type=" +++ type_of endpoint))
      else (record { endpoints = put (type_of endpoint) endpoint r.endpoints }, none)

  unfoldable pub unregister_endpoint :
      ComponentRegistry E → String → ComponentRegistry E × Option String
  unregister_endpoint r t =
      if has t r.endpoints
      then (record { endpoints = remove t r.endpoints }, none)
      else (r, some ("component not found. type=" +++ t))

  not_there : (t k : String) (m : Map String E) → has k m ≡ false → k ≡ t → get t m ≡ none
  not_there t k m free same = elim (Option-cases (get k m)) [
    | inl missing ↦ ap (λ j. get j m) (sym same) ∙ missing
    | inr (e, there) ↦ absurd (false≢true (sym free ∙ ap is_some there))
  ]

  -- An endpoint whose type is free can be registered and unregistered again, both without an error,
  -- and then every type is found as before.
  pub unregister-register :
      (r : ComponentRegistry E) (endpoint : E)
      → has (type_of endpoint) r.endpoints ≡ false
      → let (r', error) = register_endpoint r endpoint in
        let (r'', error') = unregister_endpoint r' (type_of endpoint) in
        (error ≡ none) × (error' ≡ none) × ((t : String) → get t r''.endpoints ≡ get t r.endpoints)
  unfolding register_endpoint unregister_endpoint
  unregister-register r endpoint free =
      rw (free, register_endpoint)
        (rw (ap is_some (get-put_self (type_of endpoint) endpoint r.endpoints)) (
          refl,
          refl,
          (λ t. ground (
            arith,
            get-remove (type_of endpoint) t (put (type_of endpoint) endpoint r.endpoints),
            get-put (type_of endpoint) t endpoint r.endpoints,
            free,
            eq_iff (type_of endpoint) t,
            not_there t (type_of endpoint) r.endpoints free,
          )),
        ))
