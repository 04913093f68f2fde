-- ===== src/Endpoint/Mqtt/Tests.antt =====
-- Examples of the endpoint for MQTT: the broker accepts every topic at once.
use rulego.Prelude.{
  ℕ, ◌<◌, String, ◌≡◌, refl, inl, inr, Bool, true, false, none, some, [], ◌∷◌, arith, string_eq,
  nat_key, Bool-cases, All,
}
use rulego.Prelude.Dict.{get}
use rulego.Result.{ok}
use rulego.MqttClient.{Client, new_client, get_handler_by_up_topic}
use rulego.MqttClient.Laws.{IsAccepted}
use rulego.Endpoint.{from_to_string}
use rulego.Endpoint.Mqtt.{MqttRouter, Mqtt, handler_of, add_router, start, remove_router}
use rulego.Endpoint.Mqtt.Laws.{IsInStep, IsReady, start-IsInStep, add-remove-IsInStep}

abbrev always : ℕ → String → Bool
always n topic = true

abbrev router : String → MqttRouter ℕ
router from = record {
  from = some (record { config = []; from = from; process_list = []; to = none });
  rule_go = λ id. none;
  disable = false;
}

abbrev stopped : Mqtt ℕ
stopped = record { qos = 1; router_storage = ("a", router "a") ∷ []; client = none }

none_below : (i : ℕ) → i < 0 → ⊥
none_below i h = omega arith

at_once : (topic : String) → IsAccepted always 3 topic
at_once topic = (0, omega arith, λ i h. elim (none_below i h) [ ], refl)

All-IsReady : All (IsReady always 3) stopped.router_storage
unfolding from_to_string
All-IsReady = ((refl, refl, at_once "a"), tt)

start-IsInStep_example :
    (b : Client (MqttRouter ℕ)) × (start always 3 (ok new_client) stopped
      ≡ (some (record stopped { client = some b }), none))
    × IsInStep stopped b
unfolding get
start-IsInStep_example = start-IsInStep always 3 stopped refl (refl, tt) All-IsReady

abbrev client : Client (MqttRouter ℕ)
client = record {
  msg_handler_map = ("a", record { topic = "a"; qos = 1; handle = router "a" }) ∷ [];
  subscriptions = "a" ∷ [];
}

abbrev started : Mqtt ℕ
started = record stopped { client = some client }

started-IsInStep : IsInStep started client
unfolding get_handler_by_up_topic handler_of get from_to_string
started-IsInStep t = elim (Bool-cases (string_eq.beq "a" t)) [
  | inl e ↦ rw e refl
  | inr e ↦ rw e refl
]

-- Before the endpoint is started, removing a router panics.
panics : (remove_router none stopped "a").1 ≡ some "nil pointer dereference"
unfolding remove_router
panics = refl

add-remove-IsInStep_example :
    ((b' : Client (MqttRouter ℕ)) × (m' : Mqtt ℕ) × ((add_router always 3 started
          (some (router "b"))).0
        ≡ some m')
      × (m'.client ≡ some b')
      × IsInStep m' b')
    × ((b' : Client (MqttRouter ℕ)) × (m' : Mqtt ℕ) × (remove_router none started "a" ≡ (m', none))
        × (m'.client ≡ some b')
        × IsInStep m' b')
add-remove-IsInStep_example =
    add-remove-IsInStep always 3 started client (router "b") "a" refl started-IsInStep refl
      (at_once (from_to_string (router "b")))
