-- ===== src/MqttClient.antt =====
-- components/mqtt/client.go: the client that keeps a handler for each topic. The package `paho` is
-- seen by what it answers: `subscribed attempt topic` says whether an attempt to subscribe succeeds,
-- with the acknowledgement 128 as a failure, and `unsubscribe` gives the error of an unsubscription.
-- The pauses, TLS, and the options of the connection are left out.
pub mod Laws
mod Tests
use rulego.Prelude.{
  ℕ, zero, suc, String, Bool, Option, none, some, List, [], ◌∷◌, if◌then◌else◌, string_eq, nat_key,
}
use rulego.Prelude.Dict.{Map, get, put, remove}

pub record Handler (H : Type 0) : Type 0 where
  pub topic : String
  pub qos : ℕ
  pub handle : H

-- `subscriptions`: what the broker has accepted, the latest first.
pub record Client (H : Type 0) : Type 0 where
  pub msg_handler_map : Map String (Handler H)
  pub subscriptions : List String

unfoldable pub new_client : {H : Type 0} → Client H
new_client = record { msg_handler_map = []; subscriptions = [] }

-- The loop of `subscribeHandler`: the number of the attempt that succeeds, if one of the next `fuel`
-- attempts does.
unfoldable pub attempts : (subscribed : ℕ → String → Bool) → (fuel n : ℕ) → String → Option ℕ
attempts subscribed zero n topic = none
attempts subscribed (suc fuel) n topic =
    let rest = attempts subscribed fuel (suc n) topic in if subscribed n topic then some n else rest

module _ {H : Type 0} (subscribed : ℕ → String → Bool) (fuel : ℕ) where
  abbrev accept : Client H → String → Option ℕ → Option (Client H)
  accept b topic none = none
  accept b topic (some n) = some (record b { subscriptions = topic ∷ b.subscriptions })

  -- Nothing comes back from a call that is still trying after `fuel` attempts.
  unfoldable pub subscribe_handler : Client H → Handler H → Option (Client H)
  unfolding attempts
  subscribe_handler b handler = accept b handler.topic (attempts subscribed fuel 0 handler.topic)

  unfoldable pub register_handler : Client H → Handler H → Option (Client H)
  unfolding subscribe_handler
  register_handler b handler =
      subscribe_handler (record b { msg_handler_map = put handler.topic handler b.msg_handler_map })
        handler

  abbrev and_subscribe : Option (Client H) → (Client H → Option (Client H)) → Option (Client H)
  and_subscribe none more = none
  and_subscribe (some b) more = more b

  -- `subscribe`, at each connection.
  unfoldable pub subscribe_all : Client H → Map String (Handler H) → Option (Client H)
  unfolding subscribe_handler
  subscribe_all b [] = some b
  subscribe_all b ((topic, handler) ∷ handlers) =
      and_subscribe (subscribe_handler b handler) (λ b'. subscribe_all b' handlers)

  unfoldable pub on_connected : Client H → Option (Client H)
  unfolding subscribe_all
  on_connected b = subscribe_all b b.msg_handler_map

-- `UnregisterHandler`, with the error of the broker.
unfoldable pub unregister_handler :
    {H : Type 0} → (unsubscribe : Option String) → Client H → String → Client H × Option String
unregister_handler (some e) b topic = (b, some e)
unregister_handler none b topic =
    (record b { msg_handler_map = remove topic b.msg_handler_map }, none)

-- A topic without a handler gives Go's zero value.
unfoldable pub get_handler_by_up_topic : {H : Type 0} → Client H → String → Option (Handler H)
get_handler_by_up_topic b topic = get topic b.msg_handler_map
