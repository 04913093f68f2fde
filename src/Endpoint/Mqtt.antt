-- ===== src/Endpoint/Mqtt.antt =====
-- endpoint/mqtt/mqtt.go: the endpoint for MQTT, over the client of components/mqtt/client.go. A
-- handler of the client is the router that it was made for. Connecting is the parameter of `start`;
-- `recover` is left out. Here a map that is nil is an empty one.
pub mod Laws
mod Tests
use rulego.Prelude.{
  ℕ, ◌%◌, String, Bool, not, Option, none, some, List, [], ◌∷◌, ◌++◌, if◌then◌else◌, ◌==◌,
  string_eq, nat_key, is_some,
}
use rulego.Prelude.Dict.{Map, get, put, remove}
use rulego.Result.{Result, ok, err}
use rulego.Msg.{RuleMsg, Env, new_msg, new_metadata, put_value, json_type}
use rulego.MqttClient.{Handler, Client, register_handler, unregister_handler}
use rulego.Endpoint.{MessageOps, Exchange, Process, End, Router, from_to_string, do_process}

-- A message of the broker: its topic and its payload.
pub record PahoMessage : Type 0 where
  pub topic : String
  pub payload : String

pub record RequestMessage : Type 0 where
  pub request : Option PahoMessage
  pub body : Option String
  pub msg : Option RuleMsg
  pub err : Option String

-- `published`: topic, quality of service and body of what `SetBody` has published.
pub record ResponseMessage : Type 0 where
  pub headers : Map String String
  pub request : Option PahoMessage
  pub published : List (String × ℕ × String)
  pub body : String
  pub msg : Option RuleMsg
  pub err : Option String

unfoldable pub request_body : RequestMessage → RequestMessage × String
request_body m = elim m.body [
  | some b ↦ (m, b)
  | none ↦ elim m.request [
    | none ↦ (m, "")
    | some r ↦ (record m { body = some r.payload }, r.payload)
  ]
]

unfoldable pub topic_of : Option PahoMessage → String
topic_of none = ""
topic_of (some r) = r.topic

unfoldable pub request_get_msg : Env → RequestMessage → RequestMessage × Option RuleMsg
unfolding request_body topic_of new_msg new_metadata put_value
request_get_msg env m = elim m.msg [
  | some msg ↦ (m, some msg)
  | none ↦
      let (m', body) = request_body m in
      let topic = topic_of m.request in
      let made = new_msg env 0 topic json_type new_metadata body in
      let msg = record made { metadata = put_value made.metadata "topic" topic } in
      (record m' { msg = some msg }, some msg)
]

unfoldable pub request_ops : Env → MessageOps RequestMessage
unfolding request_get_msg
request_ops env = record {
  get_msg = request_get_msg env;
  set_msg = λ msg m. record m { msg = some msg };
  set_status_code = λ code m. m;
  set_body = λ b m. record m { body = some b };
  get_error = λ m. m.err;
  set_error = λ e m. record m { err = some e };
}

abbrev header : Map String String → String → String
header headers key = elim (get key headers) [ none ↦ "" | some v ↦ v ]

-- `atoi` gives the number of a text, and 0 for one that is none; `qos` is a byte. Keys of headers
-- are here as they are written.
unfoldable pub set_body : (atoi : String → ℕ) → ResponseMessage → String → ResponseMessage
set_body atoi m b =
    let topic = header m.headers "topic" in
    let qos_str = header m.headers "qos" in
    let qos = if qos_str == "" then 0 else atoi qos_str % 256 in
    record m {
      body = b;
      published = if topic == "" then m.published else m.published ++ ((topic, qos, b) ∷ []);
    }

unfoldable pub response_ops : (atoi : String → ℕ) → MessageOps ResponseMessage
unfolding set_body
response_ops atoi = record {
  get_msg = λ m. (m, m.msg);
  set_msg = λ msg m. record m { msg = some msg };
  set_status_code = λ code m. m;
  set_body = λ b m. set_body atoi m b;
  get_error = λ m. m.err;
  set_error = λ e m. record m { err = some e };
}

-- A router of this endpoint, for components of the type `Node`.
abbrev pub MqttRouter : Type 0 → Type 0
MqttRouter Node = Router RequestMessage ResponseMessage Node

pub record Mqtt (Node : Type 0) : Type 0 where
  pub qos : ℕ
  pub router_storage : Map String (MqttRouter Node)
  pub client : Option (Client (MqttRouter Node))

module _ {Node : Type 0} where
  unfoldable pub save_router : Mqtt Node → MqttRouter Node → Mqtt Node
  unfolding from_to_string
  save_router m router = record m {
    router_storage = put (from_to_string router) router m.router_storage;
  }

  unfoldable pub delete_router : Mqtt Node → String → Mqtt Node
  delete_router m from = record m { router_storage = remove from m.router_storage }

  abbrev pub handler_of : Mqtt Node → MqttRouter Node → Handler (MqttRouter Node)
  unfolding from_to_string
  handler_of m router = record { topic = from_to_string router; qos = m.qos; handle = router }

module _ {Node : Type 0} (subscribed : ℕ → String → Bool) (fuel : ℕ) where
  abbrev with_client : Mqtt Node → Option (Client (MqttRouter Node)) → Option (Mqtt Node)
  with_client m none = none
  with_client m (some b) = some (record m { client = some b })

  abbrev register_router :
      Mqtt Node → MqttRouter Node → Option (Client (MqttRouter Node)) → Option (Mqtt Node)
  unfolding register_handler from_to_string
  register_router m router none = some m
  register_router m router (some b) =
      if is_some router.from
      then with_client m (register_handler subscribed fuel b (handler_of m router))
      else some m

  abbrev id_of : MqttRouter Node → Result String
  id_of router = elim router.from [ none ↦ err "nil pointer dereference" | some f ↦ ok f.from ]

  -- `AddRouter`; for a router without a `From` it panics after the router was saved. No endpoint
  -- comes back while the client is still subscribing.
  unfoldable pub add_router :
      Mqtt Node → Option (MqttRouter Node) → Option (Mqtt Node) × Result String
  unfolding save_router register_handler from_to_string
  add_router m none = (some m, err "router can not nil")
  add_router m (some router) =
      (register_router (save_router m router) router m.client, id_of router)

  abbrev then_register : Option (Mqtt Node) → (Mqtt Node → Option (Mqtt Node)) → Option (Mqtt Node)
  then_register none next = none
  then_register (some m) next = next m

  unfoldable pub register_all : Mqtt Node → Map String (MqttRouter Node) → Option (Mqtt Node)
  unfolding register_handler from_to_string
  register_all m [] = some m
  register_all m ((from, router) ∷ routers) =
      then_register (register_router m router m.client) (λ m'. register_all m' routers)

  -- `Start`: a client that is there already stays.
  unfoldable pub start :
      (connect : Result (Client (MqttRouter Node))) → Mqtt Node → Option (Mqtt Node) × Option String
  unfolding register_all
  start connect m = elim m.client [
    | some b ↦ (some m, none)
    | none ↦ elim connect [
      | err e ↦ (some m, some e)
      | ok b ↦ (register_all (record m { client = some b }) m.router_storage, none)
    ]
  ]

-- `RemoveRouter`; without a client the call of its method panics, after the storage was changed.
unfoldable pub remove_router :
    {Node : Type 0} → (unsubscribe : Option String) → Mqtt Node → String → Mqtt Node × Option String
unfolding delete_router unregister_handler
remove_router unsubscribe m router_id =
    let m' = delete_router m router_id in
    elim m.client [
      | none ↦ (m', some "nil pointer dereference")
      | some b ↦
          let (b', error) = unregister_handler unsubscribe b router_id in
          (record m' { client = some b' }, error)
    ]

unfoldable pub handler :
    {Node : Type 0}
    → (atoi : String → ℕ) → (on_node_msg : Node → RuleMsg → List End) → Env
    → (interceptors : List (Process RequestMessage ResponseMessage)) → MqttRouter Node
    → PahoMessage
    → Exchange RequestMessage ResponseMessage × List End
unfolding do_process request_ops response_ops
handler atoi on_node_msg env interceptors router data' =
    do_process (request_ops env) (response_ops atoi) on_node_msg interceptors router record {
      in_message = record { request = some data'; body = none; msg = none; err = none };
      out = record {
        headers = [];
        request = some data';
        published = [];
        body = "";
        msg = none;
        err = none;
      };
    }
