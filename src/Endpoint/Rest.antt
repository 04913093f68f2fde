-- ===== src/Endpoint/Rest.antt =====
-- endpoint/rest/rest.go: the HTTP endpoint. Routers are shared: they stand in a heap, by address, and
-- the storage has their addresses. `httprouter` is seen by what it is told to handle; `refuses` says
-- when it panics instead. `strings.ToUpper` and `str.ToString` of a list are parameters. The server
-- and the error of a body that cannot be read are left out, and so is a handler's `recover`.
pub mod Laws
pub mod Messages
mod Tests
use rulego.Prelude.{
  ℕ, String, Bool, true, false, not, Option, none, some, List, [], ◌∷◌, if◌then◌else◌, ◌==◌,
  string_eq, nat_key,
}
use rulego.Prelude.Dict.{Map, get, put}
use Prim.Native.String.{◌++◌ as ◌+++◌}
use rulego.Result.{Result, ok, err}
use rulego.Endpoint.Rest.Messages.{
  Request, RequestMessage, ResponseMessage, Write, request_get_msg, request_ops, response_ops,
}
use rulego.Msg.{RuleMsg, Env, Metadata, new_msg, new_metadata, put_value, text_type, json_type}
use rulego.Endpoint.{
  MessageOps, Exchange, Process, End, From, Router, set_disable, is_disable, from_to_string,
  do_process,
}

-- A router of this endpoint, for components of the type `Node`.
abbrev pub HttpRouter : Type 0 → Type 0
HttpRouter Node = Router RequestMessage ResponseMessage Node

abbrev pub Heap : Type 0 → Type 0
Heap Node = ℕ → HttpRouter Node

abbrev pub write_heap : {Node : Type 0} → Heap Node → ℕ → HttpRouter Node → Heap Node
write_heap heap a r = λ b. if a == b then r else heap b

-- `RouterStorage`, and what the router of the package `httprouter` was told: a method, a path, and
-- the address of the router behind the handler.
pub record Rest : Type 0 where
  pub router_storage : Map String ℕ
  pub handles : List (String × String × ℕ)

unfoldable pub router_key : String → String → String
router_key method from = method +++ " " +++ from

abbrev pub unless_panicked :
    {H R : Type 0} → H × R × Option String → (H → R → H × R × Option String) → H × R × Option String
unless_panicked (heap, rest, none) next = next heap rest
unless_panicked (heap, rest, some e) next = (heap, rest, some e)

module _ {Node : Type 0} (to_upper : String → String)
    (refuses : List (String × String × ℕ) → String → String → Bool) where
  abbrev handle : Heap Node → Rest → String → String → ℕ → Bool → Heap Node × Rest × Option String
  handle heap rest method path a true = (heap, rest, some "path conflict")
  handle heap rest method path a false =
      (heap, record rest { handles = (method, path, a) ∷ rest.handles }, none)

  abbrev add_stored :
      Heap Node → Rest → String → String → ℕ → Option ℕ → Heap Node × Rest × Option String
  unfolding router_key set_disable
  add_stored heap rest method path a none =
      handle heap
        (record rest { router_storage = put (router_key method path) a rest.router_storage }) method
        path a (refuses rest.handles method path)
  add_stored heap rest method path a (some old) =
      (write_heap heap old (set_disable (heap old) false), rest, none)

  -- `addRouter` for one router. The storage is written before the path is handled, and keeps the
  -- router if `Handle` panics.
  unfoldable pub add_method : Heap Node → Rest → String → ℕ → Heap Node × Rest × Option String
  unfolding router_key from_to_string set_disable
  add_method heap rest method a =
      let path = from_to_string (heap a) in
      add_stored heap rest (to_upper method) path a
        (get (router_key (to_upper method) path) rest.router_storage)

  -- The loop of `AddRouter` over the methods; a panic ends it.
  unfoldable pub add_methods : Heap Node → Rest → List String → ℕ → Heap Node × Rest × Option String
  unfolding add_method
  add_methods heap rest [] a = (heap, rest, none)
  add_methods heap rest (method ∷ methods) a =
      unless_panicked (add_method heap rest method a)
        (λ heap' rest'. add_methods heap' rest' methods a)

  -- `router.GetFrom().From` at the end panics for a router without a `From`; an earlier panic comes
  -- first.
  abbrev pub read_from :
      Option (From RequestMessage ResponseMessage Node) → Option String → Option String
  read_from none none = some "nil pointer dereference"
  read_from none (some e) = some e
  read_from (some f) panic = panic

  -- `AddRouter`: the identifier of the router is the path of its `From`, unless the call panics.
  unfoldable pub add_router :
      Heap Node → Rest → List String → Option ℕ → (Heap Node × Rest × Option String) × Result String
  unfolding add_methods from_to_string
  add_router heap rest [] router = ((heap, rest, none), err "need to specify HTTP method")
  add_router heap rest (method ∷ methods) none = ((heap, rest, none), err "router can not nil")
  add_router heap rest (method ∷ methods) (some a) =
      let added = add_methods heap rest (method ∷ methods) a in
      ((added.0, added.1, read_from (heap a).from added.2), ok (from_to_string (heap a)))

module _ {Node : Type 0} where
  abbrev disable_at : Heap Node → Option ℕ → Heap Node
  unfolding set_disable
  disable_at heap none = heap
  disable_at heap (some a) = write_heap heap a (set_disable (heap a) true)

  unfoldable pub disable_methods : Heap Node → Rest → List String → String → Heap Node
  unfolding router_key set_disable
  disable_methods heap rest [] router_id = heap
  disable_methods heap rest (method ∷ methods) router_id =
      disable_methods (disable_at heap (get (router_key method router_id) rest.router_storage)) rest
        methods router_id

  -- `RemoveRouter`: routers stay in the storage, and stop answering.
  unfoldable pub remove_router : Heap Node → Rest → List String → String → Heap Node × Option String
  unfolding disable_methods
  remove_router heap rest [] router_id = (heap, some "need to specify HTTP method")
  remove_router heap rest (method ∷ methods) router_id =
      (disable_methods heap rest (method ∷ methods) router_id, none)

-- What a request is answered with.
pub data Answer : Type 0 where
  not_found : Answer
  processed : Exchange RequestMessage ResponseMessage → List End → Answer

module _ (to_string : List String → String) where
  abbrev put_params : Metadata → List (String × String) → Metadata
  unfolding put_value
  put_params md [] = md
  put_params md ((k, v) ∷ params) = put_params (put_value md k v) params

  -- Several values of a key are one text; `url.ParseQuery` gives at least one value.
  abbrev query_value : List String → String
  query_value [] = ""
  query_value (v ∷ []) = v
  query_value (v ∷ w ∷ vs) = to_string (v ∷ w ∷ vs)

  abbrev put_query : Metadata → Map String (List String) → Metadata
  unfolding put_value
  put_query md [] = md
  put_query md ((k, vs) ∷ query) = put_query (put_value md k (query_value vs)) query

  -- The metadata of a request, when the router gets it.
  unfoldable pub request_metadata : List (String × String) → Request → Metadata → Metadata
  unfolding put_value
  request_metadata params r md = put_query (put_params md params) r.query

  abbrev with_metadata : (Metadata → Metadata) → RequestMessage × Option RuleMsg → RequestMessage
  with_metadata f (m, none) = m
  with_metadata f (m, some msg) = record m { msg = some (record msg { metadata = f msg.metadata }) }

  unfoldable pub new_exchange :
      Env → List (String × String) → Request → Exchange RequestMessage ResponseMessage
  unfolding request_get_msg request_metadata
  new_exchange env params r =
      let m : RequestMessage = record {
        request = some r;
        body = none;
        params = params;
        msg = none;
        err = none;
      } in
      record {
        in_message = with_metadata (request_metadata params r) (request_get_msg env m);
        out = record { request = some r; response = some []; body = ""; msg = none; err = none };
      }

  unfoldable pub handler :
      {Node : Type 0}
      → (on_node_msg : Node → RuleMsg → List End) → Env
      → (interceptors : List (Process RequestMessage ResponseMessage)) → HttpRouter Node
      → List (String × String)
      → Request
      → Answer
  unfolding new_exchange do_process is_disable request_ops response_ops
  handler on_node_msg env interceptors router params r =
      let (x, later) =
        do_process (request_ops env) response_ops on_node_msg interceptors router
          (new_exchange env params r) in
      if is_disable router then not_found else processed x later
