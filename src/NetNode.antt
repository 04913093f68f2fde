-- ===== src/NetNode.antt =====
-- components/external/net_node.go: the node that writes messages to a connection, as a state machine.
-- Each call of `onConnect`, `onPing`, `onWrite` and `onDisconnect` is one step. A connection is a
-- number; what dialing and writing answer comes with each step. The pauses and the log are left out.
pub mod Laws
mod Tests
use rulego.Prelude.{
  ℕ, zero, suc, String, Bool, true, false, not, Option, none, some, List, [], ◌∷◌, if◌then◌else◌,
  ◌==◌, string_eq, nat_key,
}
use rulego.Dsl.{ℤ, pos, negsuc}
use rulego.Result.{Result, ok, err}
use rulego.Msg.{RuleMsg}
use Prim.Native.String.{◌++◌ as ◌+++◌}

pub record NetNodeConfiguration : Type 0 where
  pub protocol : String
  pub server : String
  pub connect_timeout : ℤ
  pub heartbeat_interval : ℤ

-- `heartbeatTimer`: nil, running, or fired or stopped.
pub data Timer : Type 0 where
  absent armed idle : Timer

pub record NetNode : Type 0 where
  pub config : NetNodeConfiguration
  pub conn : Option ℕ
  pub heartbeat_timer : Timer
  pub disconnected : Bool

-- What a step does outside of the node.
pub data Effect : Type 0 where
  close : ℕ → Effect
  write : ℕ → String → Effect
  tell_success : RuleMsg → Effect
  tell_failure : RuleMsg → String → Effect

abbrev or_sixty : ℤ → ℤ
or_sixty (negsuc n) = pos 60
or_sixty (pos zero) = pos 60
or_sixty (pos (suc n)) = pos (suc n)

unfoldable pub with_defaults : NetNodeConfiguration → NetNodeConfiguration
with_defaults config = record config {
  protocol = if config.protocol == "" then "tcp" else config.protocol;
  connect_timeout = or_sixty config.connect_timeout;
  heartbeat_interval = or_sixty config.heartbeat_interval;
}

abbrev pub closed : Option ℕ → List Effect
closed none = []
closed (some c) = close c ∷ []

-- `onConnect`: the old connection is closed first, and stays in the field if dialing fails.
abbrev dialed : NetNode → Result ℕ → NetNode × Option String
dialed x (ok c) = (record x { conn = some c; disconnected = false; heartbeat_timer = armed }, none)
dialed x (err e) = (x, some e)

unfoldable pub on_connect : Result ℕ → NetNode → (NetNode × Option String) × List Effect
on_connect dial x = (dialed x dial, closed x.conn)

-- `Init`, for a configuration that was decoded into `config`. If dialing fails, the loop of `start`
-- is not started.
unfoldable pub init : Result ℕ → NetNodeConfiguration → (NetNode × Option String) × List Effect
unfolding with_defaults on_connect
init dial config = on_connect dial record {
  config = with_defaults config;
  conn = none;
  heartbeat_timer = absent;
  disconnected = false;
}

-- `onPing`, when the timer has fired; without a connection its write panics.
abbrev pinged : NetNode → Option String → NetNode
pinged x none = record x { heartbeat_timer = armed }
pinged x (some e) = record x { disconnected = true }

unfoldable pub on_ping : Option String → NetNode → NetNode × List Effect
on_ping result x =
    let fired : NetNode = record x { heartbeat_timer = idle } in
    if x.disconnected
    then (fired, [])
    else elim x.conn [ none ↦ (fired, []) | some c ↦ (pinged fired result, write c "ping\n" ∷ []) ]

abbrev reset : Timer → Timer
reset absent = absent
reset armed = armed
reset idle = armed

abbrev wrote : NetNode → RuleMsg → Option String → NetNode × Effect
wrote x msg (some e) = (x, tell_failure msg e)
wrote x msg none = (record x { heartbeat_timer = reset x.heartbeat_timer }, tell_success msg)

abbrev write_to : NetNode → RuleMsg → String → Option ℕ → Option String → NetNode × List Effect
write_to x msg data' none result = (x, tell_failure msg "net not init error" ∷ [])
write_to x msg data' (some c) result =
    let (x', told) = wrote x msg result in (x', write c data' ∷ told ∷ [])

-- `onWrite`
unfoldable pub on_write : Option String → NetNode → RuleMsg → String → NetNode × List Effect
on_write result x msg data' = write_to x msg data' x.conn result

abbrev end_sign : String
end_sign = "\n"

unfoldable pub on_msg : Option String → NetNode → RuleMsg → NetNode × List Effect
unfolding on_write
on_msg result x msg = on_write result x msg (msg.content +++ end_sign)

-- `onDisconnect`; without a timer or a connection it panics in the end.
abbrev stopped : Timer → Timer
stopped absent = absent
stopped armed = idle
stopped idle = idle

unfoldable pub on_disconnect : NetNode → NetNode × List Effect
on_disconnect x =
    (record x { heartbeat_timer = stopped x.heartbeat_timer; disconnected = true }, closed x.conn)

-- A round of the loop of `start` without a stop: a connection that is lost is dialed again.
unfoldable pub start_round : Result ℕ → NetNode → NetNode × List Effect
unfolding on_connect
start_round dial x =
    let ((x', error), effects) = on_connect dial x in
    if x.disconnected then (x', effects) else (x, [])

-- What can happen to a node whose loop runs: a round, the timer, if it is running, and a message.
pub data Event : Type 0 where
  round : (dial : Result ℕ) → Event
  fire : (result : Option String) → Event
  message : (result : Option String) → RuleMsg → Event

abbrev fire_if : Timer → Option String → NetNode → NetNode × List Effect
unfolding on_ping
fire_if armed result x = on_ping result x
fire_if absent result x = (x, [])
fire_if idle result x = (x, [])

unfoldable pub happens : NetNode → Event → NetNode × List Effect
unfolding start_round on_ping on_msg
happens x (round dial) = start_round dial x
happens x (fire result) = fire_if x.heartbeat_timer result x
happens x (message result msg) = on_msg result x msg

unfoldable pub happen_all : NetNode → List Event → NetNode
unfolding happens
happen_all x [] = x
happen_all x (event ∷ events) = happen_all (happens x event).0 events
