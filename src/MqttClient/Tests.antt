-- ===== src/MqttClient/Tests.antt =====
-- Examples of the client for MQTT: the broker accepts a topic at the third attempt.
use rulego.Prelude.{
  ℕ, ◌≤◌, String, ◌≡◌, refl, Bool, none, some, [], ◌∷◌, arith, leb, if◌then◌else◌, string_eq,
}
use rulego.MqttClient.{
  Handler, Client, attempts, subscribe_handler, register_handler, unregister_handler,
  get_handler_by_up_topic,
}
use rulego.MqttClient.Laws.{IsAccepted, register_handler-ends}

abbrev third : ℕ → String → Bool
third n topic = leb 2 n

abbrev handler : Handler ℕ
handler = record { topic = "t"; qos = 1; handle = 7 }

abbrev client : Client ℕ
client = record { msg_handler_map = []; subscriptions = [] }

too_few : register_handler third 2 client handler ≡ none
unfolding register_handler subscribe_handler attempts
too_few = refl

third-IsAccepted : IsAccepted third 5 "t"
third-IsAccepted = (2, omega arith, λ i h. ground (arith, h), refl)

register_handler-ends_example :
    (attempts third 5 0 "t" ≡ some 2)
    × ((fewer : ℕ) → fewer ≤ 2 → register_handler third fewer client handler ≡ none)
    × (b' : Client ℕ) × (register_handler third 5 client handler ≡ some b')
    × (b'.subscriptions ≡ "t" ∷ [])
    × ((t : String)
        → get_handler_by_up_topic b' t
          ≡ (if string_eq.beq "t" t then some handler else get_handler_by_up_topic client t))
    × (get_handler_by_up_topic (unregister_handler none b' "t").0 "t" ≡ none)
    × (unregister_handler (some "refused") b' "t" ≡ (b', some "refused"))
unfolding third-IsAccepted
register_handler-ends_example =
    register_handler-ends third 5 client handler "refused" third-IsAccepted
