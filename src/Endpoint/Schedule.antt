-- ===== src/Endpoint/Schedule.antt =====
-- endpoint/schedule/schedule.go: the endpoint for timed tasks. The package `cron` is an interface: a
-- value with its entries, each with the router that it calls; `strconv.Atoi` and `strconv.Itoa` are
-- those of the parameter `Numbers`. The identifier of the endpoint, the run of the timer, and
-- `recover` are left out.
pub mod Laws
mod Tests
use rulego.Prelude.{ℕ, String, not, Option, none, some, List, string_eq, nat_key}
use rulego.Prelude.Dict.{has}
use Prim.Native.String.{◌++◌ as ◌+++◌}
use rulego.Result.{Result, ok, err}
use rulego.Msg.{RuleMsg, Env, new_msg, new_metadata, json_type}
use rulego.Endpoint.{MessageOps, Exchange, Process, End, From, Router, do_process}

pub record RequestMessage : Type 0 where
  pub body : String
  pub msg : Option RuleMsg
  pub err : Option String

pub record ResponseMessage : Type 0 where
  pub body : String
  pub msg : Option RuleMsg
  pub err : Option String

unfoldable pub request_get_msg : Env → RequestMessage → RequestMessage × Option RuleMsg
unfolding new_msg new_metadata
request_get_msg env m = elim m.msg [
  | some msg ↦ (m, some msg)
  | none ↦
      let msg = new_msg env 0 "" json_type new_metadata m.body in
      (record m { msg = some msg }, some msg)
]

unfoldable pub request_ops : Env → MessageOps RequestMessage
unfolding request_get_msg
request_ops env = record {
  get_msg = request_get_msg env;
  set_msg = λ msg m. record m { msg = some msg };
  set_status_code = λ code m. m;
  set_body = λ b m. record m { body = b };
  get_error = λ m. m.err;
  set_error = λ e m. record m { err = some e };
}

unfoldable pub response_ops : MessageOps ResponseMessage
response_ops = record {
  get_msg = λ m. (m, m.msg);
  set_msg = λ msg m. record m { msg = some msg };
  set_status_code = λ code m. m;
  set_body = λ b m. record m { body = b };
  get_error = λ m. m.err;
  set_error = λ e m. record m { err = some e };
}

-- A router of this endpoint, for components of the type `Node`.
abbrev pub ScheduleRouter : Type 0 → Type 0
ScheduleRouter Node = Router RequestMessage ResponseMessage Node

-- `cron.Cron`: `AddFunc` gives the identifier of the entry, or an error and the identifier 0.
pub record CronOps (Cron R : Type 0) : Type 0 where
  pub new : Cron
  pub add_func : Cron → String → R → Cron × Result ℕ
  pub remove : Cron → ℕ → Cron
  pub entry : Cron → ℕ → Option R

pub record Numbers : Type 0 where
  pub atoi : String → Result ℕ
  pub itoa : ℕ → String

module _ {Node Cron : Type 0} (cron : CronOps Cron (ScheduleRouter Node)) (numbers : Numbers) where
  abbrev cron_of : Option Cron → Cron
  cron_of none = cron.new
  cron_of (some c) = c

  abbrev added : Cron × Result ℕ → Option Cron × String × Option String
  added (c, ok id) = (some c, numbers.itoa id, none)
  added (c, err e) = (some c, numbers.itoa 0, some e)

  abbrev add_from :
      Option Cron
      → ScheduleRouter Node
      → Option (From RequestMessage ResponseMessage Node)
      → Option Cron × String × Option String
  add_from c router none = (c, "", some "from can not nil")
  add_from c router (some f) = added (cron.add_func (cron_of c) f.from router)

  -- `AddRouter`: the cron of the endpoint, the identifier of the router, and the error.
  unfoldable pub add_router :
      Option Cron → Option (ScheduleRouter Node) → Option Cron × String × Option String
  add_router c none = (c, "", some "router can not nil")
  add_router c (some router) = add_from c router router.from

  abbrev remove_entry : Option Cron → ℕ → Option Cron
  remove_entry none id = none
  remove_entry (some c) id = some (cron.remove c id)

  abbrev remove_parsed : Option Cron → String → Result ℕ → Option Cron × Option String
  remove_parsed c route_id (err e) = (c, some (route_id +++ " it is an illegal routing id"))
  remove_parsed c route_id (ok id) = (remove_entry c id, none)

  unfoldable pub remove_router : Option Cron → String → Option Cron × Option String
  remove_router c route_id = remove_parsed c route_id (numbers.atoi route_id)

  unfoldable pub start : Option Cron → Option String
  start none = some "cron has not been initialized yet"
  start (some c) = none

unfoldable pub handler :
    {Node : Type 0}
    → (on_node_msg : Node → RuleMsg → List End) → Env
    → (interceptors : List (Process RequestMessage ResponseMessage)) → ScheduleRouter Node
    → Exchange RequestMessage ResponseMessage × List End
unfolding do_process request_ops response_ops
handler on_node_msg env interceptors router =
    do_process (request_ops env) response_ops on_node_msg interceptors router record {
      in_message = record { body = ""; msg = none; err = none };
      out = record { body = ""; msg = none; err = none };
    }
