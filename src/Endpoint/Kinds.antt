-- ===== src/Endpoint/Kinds.antt =====
-- What the message types of the five kinds of endpoint promise to endpoint/endpoint.go
-- (endpoint/rest, endpoint/websocket, endpoint/net, endpoint/mqtt and endpoint/schedule).
use rulego.Prelude.{ℕ, String, ◌≡◌, refl, inl, inr, true, Option-cases, is_some}
use rulego.Msg.{Env}
use rulego.Endpoint.{MessageOps}
use rulego.Endpoint.Laws.{MessageLaws}
use rulego.Endpoint.Rest.Messages
use rulego.Endpoint.Websocket
use rulego.Endpoint.Net
use rulego.Endpoint.Mqtt
use rulego.Endpoint.Schedule

-- A message that was made is not made again: a later call gives the same message, and changes
-- nothing.
abbrev pub MakesOnce : {M : Type 0} → (Env → MessageOps M) → Type 0
MakesOnce {M} ops =
    (env env' : Env) (m : M)
    → let (m', msg) = (ops env).get_msg m in
      (is_some msg ≡ true) × ((ops env').get_msg m' ≡ (m', msg))

-- The response of each kind of endpoint carries the last error that was set, and a message that is
-- set leaves the error alone. So what is proved of errors in endpoint/endpoint.go holds of all five.
pub responses-AreLawful :
    MessageLaws Messages.response_ops
    × MessageLaws Websocket.response_ops
    × MessageLaws Net.response_ops
    × ((atoi : String → ℕ) → MessageLaws (Mqtt.response_ops atoi))
    × MessageLaws Schedule.response_ops
unfolding Messages.response_ops Websocket.response_ops Net.response_ops Mqtt.response_ops
    Schedule.response_ops
responses-AreLawful = (
  record { error_set = λ e m. refl; error_kept = λ msg m. refl },
  record { error_set = λ e m. refl; error_kept = λ msg m. refl },
  record { error_set = λ e m. refl; error_kept = λ msg m. refl },
  λ atoi. record { error_set = λ e m. refl; error_kept = λ msg m. refl },
  record { error_set = λ e m. refl; error_kept = λ msg m. refl },
)

rest-MakesOnce : MakesOnce Messages.request_ops
unfolding Messages.request_ops Messages.request_get_msg
rest-MakesOnce env env' m = elim (Option-cases m.msg) [
  | inl e ↦ rw e (refl, refl)
  | inr (msg, e) ↦ rw e (refl, refl)
]

websocket-MakesOnce : MakesOnce Websocket.request_ops
unfolding Websocket.request_ops Websocket.request_get_msg
websocket-MakesOnce env env' m = elim (Option-cases m.msg) [
  | inl e ↦ rw e (refl, refl)
  | inr (msg, e) ↦ rw e (refl, refl)
]

net-MakesOnce : MakesOnce Net.request_ops
unfolding Net.request_ops Net.request_get_msg
net-MakesOnce env env' m = elim (Option-cases m.msg) [
  | inl e ↦ rw e (refl, refl)
  | inr (msg, e) ↦ rw e (refl, refl)
]

mqtt-MakesOnce : MakesOnce Mqtt.request_ops
unfolding Mqtt.request_ops Mqtt.request_get_msg
mqtt-MakesOnce env env' m = elim (Option-cases m.msg) [
  | inl e ↦ rw e (refl, refl)
  | inr (msg, e) ↦ rw e (refl, refl)
]

schedule-MakesOnce : MakesOnce Schedule.request_ops
unfolding Schedule.request_ops Schedule.request_get_msg
schedule-MakesOnce env env' m = elim (Option-cases m.msg) [
  | inl e ↦ rw e (refl, refl)
  | inr (msg, e) ↦ rw e (refl, refl)
]

-- Whatever the request of each of the five kinds of endpoint holds: its message is there after the
-- first call of `GetMsg`, and every later call, at any time, gives the same message and changes
-- nothing.
pub requests-MakeOnce :
    MakesOnce Messages.request_ops
    × MakesOnce Websocket.request_ops
    × MakesOnce Net.request_ops
    × MakesOnce Mqtt.request_ops
    × MakesOnce Schedule.request_ops
requests-MakeOnce =
    (rest-MakesOnce, websocket-MakesOnce, net-MakesOnce, mqtt-MakesOnce, schedule-MakesOnce)
