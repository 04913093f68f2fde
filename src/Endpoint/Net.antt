-- ===== src/Endpoint/Net.antt =====
-- endpoint/net/net.go: the endpoint for lines over a connection. `regexp.Compile` is the parameter
-- `compile`; a regular expression is what it matches. A connection is its remote address. A loop over
-- the routers goes through the map from its head. The listener, the read timer, which closes the
-- connection so that the next read fails, and `recover` are left out.
pub mod Laws
mod Tests
use rulego.Prelude.{
  zero, suc, String, Bool, true, false, not, ◌&&◌, Option, none, some, List, [], ◌∷◌, ◌++◌,
  if◌then◌else◌, ◌==◌, string_eq, nat_key, is_some,
}
use rulego.Prelude.Dict.{Map, put, remove, has}
use Prim.Native.String.{◌++◌ as ◌+++◌}
use rulego.Result.{Result, ok, err}
use rulego.Dsl.{ℤ, pos, negsuc}
use rulego.Msg.{RuleMsg, Env, new_msg, new_metadata, put_value, text_type}
use rulego.Endpoint.{MessageOps, Exchange, Process, End, From, Router, do_process}

abbrev pub remote_addr_key : String
remote_addr_key = "remoteAddr"

abbrev pub ping_data : String
ping_data = "ping"

pub record RequestMessage : Type 0 where
  pub conn : Option String
  pub body : String
  pub msg : Option RuleMsg
  pub err : Option String

-- `written` has what `SetBody` has written to the connection.
pub record ResponseMessage : Type 0 where
  pub conn : Option String
  pub written : List String
  pub body : String
  pub msg : Option RuleMsg
  pub err : Option String

-- `From` of both messages.
unfoldable pub remote_addr : Option String → String
remote_addr none = ""
remote_addr (some addr) = addr

unfoldable pub request_get_msg : Env → RequestMessage → RequestMessage × Option RuleMsg
unfolding remote_addr new_msg new_metadata
request_get_msg env m = elim m.msg [
  | some msg ↦ (m, some msg)
  | none ↦
      let msg = new_msg env 0 (remote_addr m.conn) text_type new_metadata m.body in
      (record m { msg = some msg }, some msg)
]

unfoldable pub request_ops : Env → MessageOps RequestMessage
unfolding request_get_msg
request_ops env = record {
  get_msg = request_get_msg env;
  set_msg = λ msg m. record m { msg = some msg };
  set_status_code = λ code m. m;
  set_body = λ b m. record m { body = b };
  get_error = λ m. m.err;
  set_error = λ e m. record m { err = some e };
}

unfoldable pub set_body : ResponseMessage → String → ResponseMessage
set_body m b = record m {
  body = b;
  written = if is_some m.conn then m.written ++ (b ∷ []) else m.written;
}

unfoldable pub response_ops : MessageOps ResponseMessage
unfolding set_body
response_ops = record {
  get_msg = λ m. (m, m.msg);
  set_msg = λ msg m. record m { msg = some msg };
  set_status_code = λ code m. m;
  set_body = λ b m. set_body m b;
  get_error = λ m. m.err;
  set_error = λ e m. record m { err = some e };
}

pub record Config : Type 0 where
  pub protocol : String
  pub server : String
  pub read_timeout : ℤ

abbrev pub new_config : Config
new_config = record { protocol = "tcp"; server = ""; read_timeout = pos 60 }

-- `Init`, for a configuration that was decoded into `config`.
unfoldable pub init : Config → Config
init config = record config { protocol = if config.protocol == "" then "tcp" else config.protocol }

-- A router of this endpoint, for components of the type `Node`.
abbrev pub NetRouter : Type 0 → Type 0
NetRouter Node = Router RequestMessage ResponseMessage Node

pub record RegexpRouter (Node : Type 0) : Type 0 where
  pub router : NetRouter Node
  pub regexp : Option (String → Bool)

abbrev pub Routers : Type 0 → Type 0
Routers Node = Map String (RegexpRouter Node)

abbrev pub compile_from :
    (String → Result (String → Bool)) → String → Result (Option (String → Bool))
compile_from compile expr =
    if expr == "" then ok none else elim (compile expr) [ ok re ↦ ok (some re) | err e ↦ err e ]

module _ {Node : Type 0} (compile : String → Result (String → Bool)) where
  abbrev add_compiled :
      Routers Node
      → NetRouter Node
      → String
      → Result (Option (String → Bool))
      → Routers Node × String × Option String
  add_compiled routers router expr (err e) = (routers, "", some e)
  add_compiled routers router expr (ok regexp) =
      if has expr routers
      then (routers, expr, some ("duplicate router " +++ expr))
      else (put expr (record { router = router; regexp = regexp }) routers, expr, none)

  abbrev add_from :
      Routers Node
      → NetRouter Node
      → Option (From RequestMessage ResponseMessage Node)
      → Option (Routers Node × String × Option String)
  add_from routers router none = none
  add_from routers router (some f) =
      some (add_compiled routers router f.from (compile_from compile f.from))

  -- `AddRouter`: the routers, the identifier of the router, and the error. A router without a `From`
  -- panics, before anything has changed: then there is no result.
  unfoldable pub add_router :
      Routers Node → Option (NetRouter Node) → Option (Routers Node × String × Option String)
  add_router routers none = some (routers, "", some "router can not nil")
  add_router routers (some router) = add_from routers router router.from

unfoldable pub remove_router : {Node : Type 0} → Routers Node → String → Routers Node
remove_router routers router_id = remove router_id routers

-- How a read ends: with a line; in an error of the package `net`, that of a deadline or another; in
-- the bare error of a deadline; or in another error.
pub data Read : Type 0 where
  line : String → Read
  net_timeout net_error : Read
  bare_timeout : Read
  other_error : Read

-- What a round of the loop does: it ends the loop, goes on to the next round, or handles data. A
-- deadline is set only for a read timeout above 0. The bare error of a deadline is passed over and
-- its data, which is empty, is handled.
pub data Round : Type 0 where
  leave next : Round
  handle : String → Round

abbrev pub has_timeout : Config → Bool
has_timeout config = elim config.read_timeout [
  | negsuc n ↦ false
  | pos zero ↦ false
  | pos (suc n) ↦ true
]

abbrev read_round : Read → Round
read_round (line data') = if data' == ping_data then next else handle data'
read_round net_timeout = next
read_round net_error = leave
read_round bare_timeout = handle ""
read_round other_error = leave

-- The second argument says whether `SetReadDeadline` succeeds.
abbrev pub round_of : Config → Bool → Read → Round
round_of config deadline_set read =
    if has_timeout config && not deadline_set then leave else read_round read

abbrev with_addr : String → RequestMessage × Option RuleMsg → RequestMessage
unfolding put_value
with_addr addr (m, none) = m
with_addr addr (m, some msg) = record m {
  msg = some (record msg { metadata = put_value msg.metadata remote_addr_key addr });
}

unfoldable pub new_exchange : Env → String → String → Exchange RequestMessage ResponseMessage
unfolding request_get_msg put_value
new_exchange env addr text =
    let m : RequestMessage = record { conn = some addr; body = text; msg = none; err = none } in
    record {
      in_message = with_addr addr (request_get_msg env m);
      out = record { conn = some addr; written = []; body = ""; msg = none; err = none };
    }

abbrev pub after_round : {X : Type 0} → Round → (String → X) → List X → List X
after_round leave f more = []
after_round next f more = more
after_round (handle text) f more = f text ∷ more

module _ {Node : Type 0} (on_node_msg : Node → RuleMsg → List End) where
  abbrev matches : RegexpRouter Node → String → Bool
  matches r text = elim r.regexp [ none ↦ true | some re ↦ re text ]

  -- The exchange goes through each router that matches, and takes along what the others made of it.
  unfoldable pub process_routers :
      Env
      → (interceptors : List (Process RequestMessage ResponseMessage)) → Routers Node
      → String
      → Exchange RequestMessage ResponseMessage
      → Exchange RequestMessage ResponseMessage × List (String × List End)
  unfolding do_process request_ops response_ops
  process_routers env interceptors [] text x = (x, [])
  process_routers env interceptors ((expr, r) ∷ routers) text x =
      let (x', ends) =
        do_process (request_ops env) response_ops on_node_msg interceptors r.router x in
      let here = matches r text in
      let (x'', later) = process_routers env interceptors routers text (if here then x' else x) in
      (x'', if here then (expr, ends) ∷ later else later)

  -- The loop of a connection: the exchanges that it made, with the ends that are still to come. The
  -- environment and the routers can be others in each round.
  unfoldable pub handler :
      Config
      → (interceptors : List (Process RequestMessage ResponseMessage)) → (addr : String)
      → List (Env × Routers Node × Bool × Read)
      → List (Exchange RequestMessage ResponseMessage × List (String × List End))
  unfolding process_routers new_exchange
  handler config interceptors addr [] = []
  handler config interceptors addr ((env, routers, deadline_set, read) ∷ reads) =
      after_round (round_of config deadline_set read)
        (λ text. process_routers env interceptors routers text (new_exchange env addr text))
        (handler config interceptors addr reads)
