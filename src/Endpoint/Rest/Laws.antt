-- ===== src/Endpoint/Rest/Laws.antt =====
-- The routers of the HTTP endpoint: adding, removing, and answering (endpoint/rest/rest.go).
use rulego.Prelude.{
  ℕ, zero, suc, String, ◌≡◌, refl, sym, ap, ◌∙◌, ◌≢◌, inl, inr, Bool, true, false, none, some, List,
  [], ◌∷◌, arith, nat_eq, nat_eq_iff, string_eq, nat_key, Bool-cases, get_elem?, All, none-ne-some,
}
use rulego.Prelude.Dict.{get, put, get-put_self}
use rulego.Msg.{RuleMsg, Env}
use rulego.Endpoint.{Process, End, is_disable, set_disable, from_to_string}
use rulego.Endpoint.Rest.Messages.{Request, RequestMessage, ResponseMessage}
use rulego.Endpoint.Rest.{
  disable_at, HttpRouter, Heap, Rest, router_key, write_heap, add_stored, add_method, add_methods,
  add_router, disable_methods, remove_router, not_found, handler,
}

-- Every route that the endpoint handles stands in the storage, with the router that answers it.
abbrev pub IsStored : Rest → (String × String × ℕ) → Type 0
IsStored rest (method, path, a) = get (router_key method path) rest.router_storage ≡ some a

abbrev pub IsSound : Rest → Type 0
IsSound rest = All (IsStored rest) rest.handles

-- Every router that is stored is handled, under its key.
abbrev pub IsServed : Rest → Type 0
IsServed rest =
    (key : String) (a : ℕ)
    → get key rest.router_storage ≡ some a
    → (method : String) × (path : String) × (i : ℕ) × (key ≡ router_key method path)
      × (get_elem? rest.handles i ≡ some (method, path, a))

module _ {Node : Type 0} where
  abbrev pub switched : Heap Node → ℕ → Bool → Heap Node
  unfolding set_disable
  switched heap a disable = write_heap heap a (set_disable (heap a) disable)

  pub is_disable-switched :
      (heap : Heap Node) (a : ℕ) (disable : Bool) → is_disable (switched heap a disable a) ≡ disable
  unfolding switched set_disable is_disable
  is_disable-switched heap a disable = ground (arith, nat_eq_iff a a)

  switched-other :
      (heap : Heap Node) (a b : ℕ) (disable : Bool) → b ≢ a → switched heap a disable b ≡ heap b
  unfolding switched
  switched-other heap a b disable h = ground (arith, nat_eq_iff a b)

  from_to_string-switched :
      (heap : Heap Node) (a b : ℕ) (disable : Bool)
      → from_to_string (switched heap a disable b) ≡ from_to_string (heap b)
  unfolding switched set_disable from_to_string
  from_to_string-switched heap a b disable = elim (Bool-cases (nat_eq a b)) [
    | inl e ↦ rw e (ap (λ c. from_to_string (heap c)) ((nat_eq_iff a b).0 e))
    | inr e ↦ rw e refl
  ]

  pub remove_router-known :
      (heap : Heap Node) (rest : Rest) (method router_id : String) (a : ℕ)
      → get (router_key method router_id) rest.router_storage ≡ some a
      → remove_router heap rest (method ∷ []) router_id ≡ (switched heap a true, none)
  unfolding remove_router disable_methods disable_at switched
  remove_router-known heap rest method router_id a known = rw known refl

module _ {Node : Type 0} (to_upper : String → String)
    (refuses : List (String × String × ℕ) → String → String → Bool) where
  add_method-free :
      (heap : Heap Node) (rest : Rest) (method : String) (a : ℕ)
      → let path = from_to_string (heap a) in
        let key = router_key (to_upper method) path in
        get key rest.router_storage ≡ none
        → refuses rest.handles (to_upper method) path ≡ false
        → add_method to_upper refuses heap rest method a ≡ (
          heap,
          record {
            router_storage = put key a rest.router_storage;
            handles = (to_upper method, path, a) ∷ rest.handles;
          },
          none,
        )
  unfolding add_method add_stored
  add_method-free heap rest method a free fine = rw (free, fine) refl

  add_method-known :
      (heap : Heap Node) (rest : Rest) (method : String) (a old : ℕ)
      → get (router_key (to_upper method) (from_to_string (heap a))) rest.router_storage ≡ some old
      → add_method to_upper refuses heap rest method a ≡ (switched heap old false, rest, none)
  unfolding add_method add_stored switched
  add_method-known heap rest method a old known = rw known refl

  -- A router that was added for one method, removed, and added again, possibly as another value `b`
  -- with the same path: after the removal it is disabled; after the second call the first value is
  -- enabled again and still the one that is handled, and nothing of `b` was registered.
  pub add-remove-add :
      (heap : Heap Node) (rest : Rest) (method : String) (a b : ℕ)
      → let path = from_to_string (heap a) in
        get (router_key (to_upper method) path) rest.router_storage ≡ none
        → refuses rest.handles (to_upper method) path ≡ false
        → from_to_string (heap b) ≡ path
        → let (h1, r1, p1) = (add_router to_upper refuses heap rest (method ∷ []) (some a)).0 in
          let h2 = (remove_router h1 r1 (to_upper method ∷ []) path).0 in
          let (h3, r3, p3) = (add_router to_upper refuses h2 r1 (method ∷ []) (some b)).0 in
          (r1.handles ≡ (to_upper method, path, a) ∷ rest.handles)
          × (is_disable (h2 a) ≡ true)
          × (is_disable (h3 a) ≡ false)
          × (r3 ≡ r1)
          × (b ≢ a → h3 b ≡ heap b)
  unfolding add_router add_methods
  add-remove-add heap rest method a b free fine same =
      let path = from_to_string (heap a) in
      let key = router_key (to_upper method) path in
      let r1 : Rest = record {
        router_storage = put key a rest.router_storage;
        handles = (to_upper method, path, a) ∷ rest.handles;
      } in
      let h2 : Heap Node = switched heap a true in
      let known : get key r1.router_storage ≡ some a = get-put_self key a rest.router_storage in
      let path' : from_to_string (h2 b) ≡ path = from_to_string-switched heap a b true ∙ same in
      let known' : get (router_key (to_upper method) (from_to_string (h2 b))) r1.router_storage
          ≡ some a =
        ap (λ p. get (router_key (to_upper method) p) r1.router_storage) path' ∙ known in
      rw
        (
          add_method-free heap rest method a free fine,
          remove_router-known heap r1 (to_upper method) path a known,
          add_method-known h2 r1 method b a known',
        )
        (
          refl,
          is_disable-switched heap a true,
          is_disable-switched h2 a false,
          refl,
          λ other. switched-other h2 a b false other ∙ switched-other heap a b true other,
        )

handles-IsStored :
    (rest : Rest) (hs : List (String × String × ℕ)) (i : ℕ) (method path : String) (a : ℕ)
    → All (IsStored rest) hs
    → get_elem? hs i ≡ some (method, path, a)
    → get (router_key method path) rest.router_storage ≡ some a
handles-IsStored rest [] i method path a h e = elim (none-ne-some e) [ ]
handles-IsStored rest (r ∷ hs) zero method path a (h, k) e =
    let same : r ≡ (method, path, a) = cc in
    ap (λ q. get (router_key q.0 q.1) rest.router_storage) (sym same) ∙ h ∙ ap (λ q. some q.2) same
handles-IsStored rest (r ∷ hs) (suc i) method path a (h, k) e =
    handles-IsStored rest hs i method path a k e

module _ {Node : Type 0} (on_node_msg : Node → RuleMsg → List End)
    (to_string : List String → String) where
  handler-disabled :
      (env : Env) (interceptors : List (Process RequestMessage ResponseMessage))
      (router : HttpRouter Node) (params : List (String × String)) (r : Request)
      → is_disable router ≡ true
      → handler to_string on_node_msg env interceptors router params r ≡ not_found
  unfolding handler
  handler-disabled env interceptors router params r h = rw h refl

  -- In an endpoint whose storage is in step with its routes: after `RemoveRouter` with the method and
  -- the path of a route, in the spelling under which it is handled, every request for that route is
  -- answered by "not found"; the other routers of the heap are as before.
  pub handler-removed :
      (heap : Heap Node) (rest : Rest) (i : ℕ) (method path : String) (a : ℕ) (env : Env)
      (interceptors : List (Process RequestMessage ResponseMessage))
      (params : List (String × String)) (r : Request)
      → IsSound rest
      → get_elem? rest.handles i ≡ some (method, path, a)
      → let heap' = (remove_router heap rest (method ∷ []) path).0 in
        (handler to_string on_node_msg env interceptors (heap' a) params r ≡ not_found)
        × ((b : ℕ) → b ≢ a → heap' b ≡ heap b)
  handler-removed heap rest i method path a env interceptors params r sound e =
      rw
        (remove_router-known heap rest method path a
          (handles-IsStored rest rest.handles i method path a sound e))
        (
          handler-disabled env interceptors (switched heap a true a) params r
              (is_disable-switched heap a true),
          λ b other. switched-other heap a b true other,
        )
