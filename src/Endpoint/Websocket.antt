-- ===== src/Endpoint/Websocket.antt =====
-- endpoint/websocket/websocket.go: the endpoint for web sockets. Routers are shared: they stand in a
-- heap, by address. `httprouter` is seen by what it is told to handle; a path that it refuses, and a
-- router without a `From`, make a call panic and are left out. So are the server, the upgrade of a
-- connection, and `recover`. `str.ToString` of a list and `strconv.Itoa` are parameters.
pub mod Frames
pub mod Laws
mod Tests
use rulego.Prelude.{
  ℕ, String, true, false, not, Option, none, some, List, [], ◌∷◌, ◌++◌, if◌then◌else◌, ◌==◌,
  string_eq, nat_key,
}
use rulego.Prelude.Dict.{Map, get, put}
use Prim.Native.String.{◌++◌ as ◌+++◌}
use rulego.Result.{Result, ok, err}
use rulego.Msg.{RuleMsg, Env, Metadata, new_msg, new_metadata, put_value, binary_type, json_type}
use rulego.Endpoint.{
  MessageOps, Exchange, Process, End, Router, set_disable, is_disable, from_to_string, do_process,
}

-- The types of a frame: `TextMessage`, `BinaryMessage`, and the others.
pub data MessageType : Type 0 where
  text_message binary_message control_message : MessageType

abbrev pub type_number : MessageType → ℕ
type_number text_message = 1
type_number binary_message = 2
type_number control_message = 8

-- The request that opened the connection, as far as its messages show it.
pub record Request : Type 0 where
  pub url : String
  pub form_value : String → String
  pub query : Map String (List String)

pub record RequestMessage : Type 0 where
  pub message_type : MessageType
  pub request : Option Request
  pub body : String
  pub params : List (String × String)
  pub msg : Option RuleMsg
  pub err : Option String

-- `sent`: what `SetBody` has written to the connection.
pub record ResponseMessage : Type 0 where
  pub message_type : MessageType
  pub request : Option Request
  pub sent : List (MessageType × String)
  pub body : String
  pub msg : Option RuleMsg
  pub err : Option String

-- `From` of both messages, and `GetParam`.
unfoldable pub url_of : Option Request → String
url_of none = ""
url_of (some r) = r.url

unfoldable pub get_param : Option Request → String → String
get_param none key = ""
get_param (some r) key = r.form_value key

abbrev data_type_of : MessageType → String
data_type_of text_message = json_type
data_type_of binary_message = binary_type
data_type_of control_message = json_type

unfoldable pub request_get_msg : Env → RequestMessage → RequestMessage × Option RuleMsg
unfolding url_of new_msg new_metadata
request_get_msg env m = elim m.msg [
  | some msg ↦ (m, some msg)
  | none ↦
      let data_type = data_type_of m.message_type in
      let msg = new_msg env 0 (url_of m.request) data_type new_metadata m.body in
      (record m { msg = some msg }, some msg)
]

unfoldable pub request_ops : Env → MessageOps RequestMessage
unfolding request_get_msg
request_ops env = record {
  get_msg = request_get_msg env;
  set_msg = λ msg m. record m { msg = some msg };
  set_status_code = λ code m. m;
  set_body = λ b m. record m { body = b };
  get_error = λ m. m.err;
  set_error = λ e m. record m { err = some e };
}

unfoldable pub set_body : ResponseMessage → String → ResponseMessage
set_body m b = record m { body = b; sent = m.sent ++ ((m.message_type, b) ∷ []) }

unfoldable pub response_ops : MessageOps ResponseMessage
unfolding set_body
response_ops = record {
  get_msg = λ m. (m, m.msg);
  set_msg = λ msg m. record m { msg = some msg };
  set_status_code = λ code m. m;
  set_body = λ b m. set_body m b;
  get_error = λ m. m.err;
  set_error = λ e m. record m { err = some e };
}

-- A router of this endpoint, for components of the type `Node`.
abbrev pub SocketRouter : Type 0 → Type 0
SocketRouter Node = Router RequestMessage ResponseMessage Node

abbrev pub Heap : Type 0 → Type 0
Heap Node = ℕ → SocketRouter Node

abbrev pub write_heap : {Node : Type 0} → Heap Node → ℕ → SocketRouter Node → Heap Node
write_heap heap a r = λ b. if a == b then r else heap b

-- `RouterStorage`, and the paths that are handled, with the address of the router behind each.
pub record Websocket : Type 0 where
  pub router_storage : Map String ℕ
  pub handles : List (String × ℕ)

unfoldable pub router_key : String → String → String
router_key method from = method +++ " " +++ from

module _ {Node : Type 0} where
  abbrev add_stored : Heap Node → Websocket → String → ℕ → Option ℕ → Heap Node × Websocket
  unfolding router_key set_disable
  add_stored heap ws path a none = (
    heap,
    record {
      router_storage = put (router_key "GET" path) a ws.router_storage;
      handles = (path, a) ∷ ws.handles;
    },
  )
  add_stored heap ws path a (some old) = (write_heap heap old (set_disable (heap old) false), ws)

  abbrev id_of : SocketRouter Node → Result String
  id_of router = elim router.from [ none ↦ err "nil pointer dereference" | some f ↦ ok f.from ]

  -- `AddRouter`: the path of the router is its identifier. For a router without a `From` it panics
  -- after the router was added.
  unfoldable pub add_router :
      Heap Node → Websocket → Option ℕ → (Heap Node × Websocket) × Result String
  unfolding router_key from_to_string set_disable
  add_router heap ws none = ((heap, ws), err "router can not nil")
  add_router heap ws (some a) =
      let path = from_to_string (heap a) in
      (add_stored heap ws path a (get (router_key "GET" path) ws.router_storage), id_of (heap a))

  abbrev disable_at : Heap Node → Option ℕ → Heap Node
  unfolding set_disable
  disable_at heap none = heap
  disable_at heap (some a) = write_heap heap a (set_disable (heap a) true)

  unfoldable pub remove_router : Heap Node → Websocket → String → Heap Node
  unfolding router_key set_disable
  remove_router heap ws router_id =
      disable_at heap (get (router_key "GET" router_id) ws.router_storage)
