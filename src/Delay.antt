-- ===== src/Delay.antt =====
-- components/action/delay_node.go: the delay node, its queue of pending messages, and what it tells.
-- A call of `OnMsg` returns the new state of the node and its one effect, if it has one. The number
-- that a text stands for (`strconv.Atoi`) is the parameter `atoi`. An `int` is a ℤ: the overflow of a
-- period in milliseconds is left out. `on_msg` is a call of `OnMsg` that no other call overlaps;
-- `delay_step` takes the sections of calls that do overlap, in any order.
pub mod Laws
pub mod Overlap
mod Tests
use rulego.Prelude.{
  ℕ, zero, suc, ◌+◌, ◌*◌, String, Bool, true, false, not, none, some, List, [], ◌∷◌, ◌++◌, ltb,
  if◌then◌else◌, ◌==◌, string_eq, nat_key, length, get_elem?, take, drop,
}
use rulego.Prelude.Dict.{Map, get, put, remove}
use rulego.Result.{Result, ok, err}
use rulego.Msg.{RuleMsg, Env, copy}
use rulego.Dsl.{ℤ, pos, negsuc}
use rulego.Text.{sprintf_dict}

pub record DelayNodeConfiguration : Type 0 where
  pub period_in_seconds : ℤ
  pub max_pending_msgs : ℤ
  pub period_in_seconds_pattern : String
  pub overwrite : Bool

pub record DelayNode : Type 0 where
  pub config : DelayNodeConfiguration
  pub pending_msgs : Map String RuleMsg
  pub last_pending_msg_id : String

pub data Effect : Type 0 where
  silent : Effect
  tell_success : RuleMsg → Effect
  tell_failure : RuleMsg → String → Effect
  tell_self : RuleMsg → (delay_ms : ℤ) → Effect

abbrev pub delay_node_msg_type : String
delay_node_msg_type = "DELAY_NODE_MSG_TYPE"

unfoldable pub new : DelayNode
new = record {
  config = record {
    period_in_seconds = pos 60;
    max_pending_msgs = pos 1000;
    period_in_seconds_pattern = "";
    overwrite = false;
  };
  pending_msgs = [];
  last_pending_msg_id = "";
}

abbrev pub limit_or_default : ℤ → ℤ
limit_or_default (negsuc n) = pos 1000
limit_or_default (pos zero) = pos 1000
limit_or_default (pos (suc n)) = pos (suc n)

abbrev pub is_below : ℕ → ℤ → Bool
is_below n (negsuc m) = false
is_below n (pos m) = ltb n m

abbrev pub in_milliseconds : ℤ → ℤ
in_milliseconds (pos n) = pos (n * 1000)
in_milliseconds (negsuc n) = negsuc (n * 1000 + 999)

-- `Init`, for a configuration that was decoded into `config`.
unfoldable pub init : DelayNodeConfiguration → DelayNode
init config = record {
  config = record config { max_pending_msgs = limit_or_default config.max_pending_msgs };
  pending_msgs = [];
  last_pending_msg_id = "";
}

-- The end of a period.
unfoldable pub on_ack : DelayNode → RuleMsg → DelayNode × Effect
on_ack x msg = elim (get msg.id x.pending_msgs) [
  | none ↦ (x, tell_failure msg "msg not found")
  | some pending ↦ (
    record x {
      pending_msgs = remove msg.id x.pending_msgs;
      last_pending_msg_id = if x.config.overwrite then "" else x.last_pending_msg_id;
    },
    tell_success pending,
  )
]

-- Calls of `OnMsg` that overlap: `admitted` are those that have found room in the queue, under the
-- first lock, and have not put their message into it yet, under the second one.
pub record DelayRun : Type 0 where
  pub node : DelayNode
  pub admitted : List (RuleMsg × ℤ)

pub data DelayStep : Type 0 where
  arrive : RuleMsg → DelayStep
  finish : ℕ → DelayStep

abbrev pub admit : DelayRun → RuleMsg → Bool → Result ℤ → DelayRun
admit x msg true (ok seconds) = record x { admitted = (msg, seconds) ∷ x.admitted }
admit x msg true (err e) = x
admit x msg false p = x

module _ (atoi : String → Result ℤ) (env : Env) where
  unfoldable pub period : DelayNodeConfiguration → RuleMsg → Result ℤ
  period config msg =
      if config.period_in_seconds_pattern == ""
      then ok config.period_in_seconds
      else atoi (sprintf_dict config.period_in_seconds_pattern msg.metadata)

  abbrev pub ack : RuleMsg → RuleMsg
  ack msg = record (copy env msg) { type = delay_node_msg_type }

  abbrev pub enqueue_for : DelayNode → RuleMsg → Result ℤ → DelayNode × Effect
  enqueue_for x msg (err e) = (x, tell_failure msg e)
  enqueue_for x msg (ok seconds) = (
    record x {
      pending_msgs = put msg.id msg x.pending_msgs;
      last_pending_msg_id = if x.config.overwrite then msg.id else x.last_pending_msg_id;
    },
    tell_self (ack msg) (in_milliseconds seconds),
  )

  unfoldable pub enqueue : DelayNode → RuleMsg → DelayNode × Effect
  unfolding period
  enqueue x msg =
      if is_below (length x.pending_msgs) x.config.max_pending_msgs
      then enqueue_for x msg (period x.config msg)
      else (x, tell_failure msg "max limit of pending messages")

  unfoldable pub on_msg : DelayNode → RuleMsg → DelayNode × Effect
  unfolding on_ack enqueue
  on_msg x msg =
      if msg.type == delay_node_msg_type
      then on_ack x msg
      else if x.last_pending_msg_id == ""
      then enqueue x msg
      else (record x { pending_msgs = put x.last_pending_msg_id msg x.pending_msgs }, silent)

  -- For a node that does not overwrite. A call arrives if less than `workers` calls are running;
  -- the other branches of `OnMsg` are one section.
  unfoldable pub delay_step : (workers : ℕ) → DelayRun → DelayStep → DelayRun
  unfolding on_ack period
  delay_step workers x (arrive msg) =
      if ltb (length x.admitted) workers
      then (if msg.type == delay_node_msg_type
          then record x { node = (on_ack x.node msg).0 }
          else if x.node.last_pending_msg_id == ""
          then admit x msg (is_below (length x.node.pending_msgs) x.node.config.max_pending_msgs)
              (period x.node.config msg)
          else record x {
            node = record x.node {
              pending_msgs = put x.node.last_pending_msg_id msg x.node.pending_msgs;
            };
          })
      else x
  delay_step workers x (finish i) = elim (get_elem? x.admitted i) [
    | none ↦ x
    | some (msg, seconds) ↦ record x {
      node = (enqueue_for x.node msg (ok seconds)).0;
      admitted = take i x.admitted ++ drop (suc i) x.admitted;
    }
  ]

  unfoldable pub delay_steps : (workers : ℕ) → DelayRun → List DelayStep → DelayRun
  unfolding delay_step
  delay_steps workers x [] = x
  delay_steps workers x (step ∷ steps) = delay_steps workers (delay_step workers x step) steps

  unfoldable pub on_msgs : DelayNode → List RuleMsg → DelayNode
  unfolding on_msg
  on_msgs x [] = x
  on_msgs x (msg ∷ msgs) = on_msgs (on_msg x msg).0 msgs
