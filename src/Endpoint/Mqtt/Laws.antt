-- ===== src/Endpoint/Mqtt/Laws.antt =====
-- The routers of the endpoint for MQTT and the handlers of its client stay in step
-- (endpoint/mqtt/mqtt.go).
use rulego.Prelude.{
  ℕ, String, ◌≡◌, refl, sym, ap, ◌∙◌, inl, inr, Bool, true, false, Option, none, some, [], ◌∷◌,
  eq_iff, if◌then◌else◌, ◌==◌, string_eq, nat_key, Bool-cases, is_some, all, All,
}
use rulego.Prelude.Dict.{Map, get, put, remove, has, get-put, get-remove, IsMap}
use rulego.Result.{ok}
use rulego.MqttClient.{Handler, Client, new_client, unregister_handler, get_handler_by_up_topic}
use rulego.MqttClient.Laws.{IsAccepted, register_handler-ends}
use rulego.Endpoint.{from_to_string}
use rulego.Endpoint.Mqtt.{
  MqttRouter, Mqtt, handler_of, save_router, register_router, then_register, add_router,
  register_all, start, delete_router, remove_router,
}

-- The handler that a router stands for, if there is one.
abbrev pub handlers_of :
    {Node : Type 0} → Mqtt Node → Option (MqttRouter Node) → Option (Handler (MqttRouter Node))
handlers_of m none = none
handlers_of m (some router) = some (handler_of m router)

-- The client has exactly the handlers of the routers in the storage.
abbrev pub IsInStep : {Node : Type 0} → Mqtt Node → Client (MqttRouter Node) → Type 0
IsInStep m b = (t : String) → get_handler_by_up_topic b t ≡ handlers_of m (get t m.router_storage)

-- A router that has a `From`, stored under its path, whose topic the broker accepts.
abbrev pub IsReady : {Node : Type 0} → (ℕ → String → Bool) → ℕ → (String × MqttRouter Node) → Type 0
IsReady subscribed fuel (from, router) =
    (is_some router.from ≡ true)
    × (from_to_string router ≡ from)
    × IsAccepted subscribed fuel (from_to_string router)

same_client :
    {Node : Type 0} (m : Mqtt Node) (b : Client (MqttRouter Node))
    → m.client ≡ some b
    → m ≡ record m { client = some b }
same_client m b e = ap (λ c. record m { client = c }) e

lookup_cons :
    {Node : Type 0} (m : Mqtt Node) (router : MqttRouter Node)
    (routers : Map String (MqttRouter Node)) (from t : String)
    (before one all : Option (Handler (MqttRouter Node)))
    → get from routers ≡ none
    → from_to_string router ≡ from
    → all ≡ (if has t routers then handlers_of m (get t routers) else one)
    → one ≡ (if from_to_string router == t then some (handler_of m router) else before)
    → all ≡ (
        if has t ((from, router) ∷ routers)
        then handlers_of m (get t ((from, router) ∷ routers))
        else before)
unfolding get
lookup_cons m router routers from t before one all fresh path rest first =
    elim (Bool-cases (from == t)) [
      | inl same ↦
          let gone : get t routers ≡ none =
            ap (λ k. get k routers) (sym ((eq_iff from t).0 same)) ∙ fresh in
          rw same (rest ∙ rw gone (first ∙ rw (path, same) refl))
      | inr other ↦ rw other (
          rest
          ∙ ap (λ o. if has t routers then handlers_of m (get t routers) else o)
              (first ∙ rw (path, other) refl))
    ]

module _ {Node : Type 0} (m : Mqtt Node) where
  if_has :
      (o : Option (MqttRouter Node))
      → (if is_some o then handlers_of m o else none) ≡ handlers_of m o
  if_has none = refl
  if_has (some router) = refl

  added :
      (router : MqttRouter Node) (here : Bool) (o : Option (MqttRouter Node))
      → (if here then some (handler_of m router) else handlers_of m o)
        ≡ handlers_of m (if here then some router else o)
  added router true o = refl
  added router false o = refl

  removed :
      (here : Bool) (o : Option (MqttRouter Node))
      → (if here then none else handlers_of m o) ≡ handlers_of m (if here then none else o)
  removed true o = refl
  removed false o = refl

module _ {Node : Type 0} (subscribed : ℕ → String → Bool) (fuel : ℕ) where
  register_router-ends :
      (m : Mqtt Node) (router : MqttRouter Node) (b : Client (MqttRouter Node))
      → is_some router.from ≡ true
      → IsAccepted subscribed fuel (from_to_string router)
      → (b' : Client (MqttRouter Node)) × (register_router subscribed fuel m router (some b)
          ≡ some (record m { client = some b' }))
        × ((t : String)
            → get_handler_by_up_topic b' t ≡ (
                if from_to_string router == t
                then some (handler_of m router)
                else get_handler_by_up_topic b t))
  unfolding register_router handler_of
  register_router-ends m router b h accepted =
      let (at, fewer, b', made, subs, handlers, gone, kept) =
        register_handler-ends subscribed fuel b (handler_of m router) "" accepted in
      (b', rw (h, made) refl, handlers)

  -- After a call of `register_all`, the client has the handlers of the routers of the list, and the
  -- others as before.
  register_all-ends :
      (m : Mqtt Node) (b : Client (MqttRouter Node)) (routers : Map String (MqttRouter Node))
      → m.client ≡ some b
      → IsMap routers
      → All (IsReady subscribed fuel) routers
      → (b' : Client (MqttRouter Node)) × (register_all subscribed fuel m routers
          ≡ some (record m { client = some b' }))
        × ((t : String)
            → get_handler_by_up_topic b' t ≡ (
                if has t routers
                then handlers_of m (get t routers)
                else get_handler_by_up_topic b t))
  unfolding register_all get
  register_all-ends m b [] e keys h = (b, ap some (same_client m b e), λ t. refl)
  register_all-ends m b ((from, router) ∷ routers) e (fresh, keys)
        ((has_from, path, accepted), hs) =
      let (b1, made, first) = register_router-ends m router b has_from accepted in
      let m1 : Mqtt Node = record m { client = some b1 } in
      let (b2, rest, others) = register_all-ends m1 b1 routers refl keys hs in
      (
        b2,
        ap
              (λ c.
                then_register subscribed fuel (register_router subscribed fuel m router c)
                  (λ m'. register_all subscribed fuel m' routers))
              e
            ∙ ap
                (λ r.
                  then_register subscribed fuel r (λ m'. register_all subscribed fuel m' routers))
                made
            ∙ rest,
        λ t.
            lookup_cons m router routers from t (get_handler_by_up_topic b t)
              (get_handler_by_up_topic b1 t) (get_handler_by_up_topic b2 t) fresh path (others t)
              (first t),
      )

  -- Starting the endpoint, with routers that each stand under the path of their `From`, once, and
  -- whose topics the broker accepts: it ends without an error, leaves the storage alone, and the
  -- client has exactly the handlers of the routers in the storage.
  pub start-IsInStep :
      (m : Mqtt Node)
      → m.client ≡ none
      → IsMap m.router_storage
      → All (IsReady subscribed fuel) m.router_storage
      → (b : Client (MqttRouter Node)) × (start subscribed fuel (ok new_client) m
          ≡ (some (record m { client = some b }), none))
        × IsInStep m b
  unfolding start new_client get_handler_by_up_topic get
  start-IsInStep m e keys h =
      let m0 : Mqtt Node = record m { client = some new_client } in
      let (b, done, found) = register_all-ends m0 new_client m.router_storage refl keys h in
      (b, rw (e, done) refl, λ t. found t ∙ if_has m (get t m.router_storage))

  -- Adding a router to a running endpoint, whose client has the handlers of its routers, and removing
  -- one where the broker lets the client unsubscribe, keep that so.
  pub add-remove-IsInStep :
      (m : Mqtt Node) (b : Client (MqttRouter Node)) (router : MqttRouter Node) (router_id : String)
      → m.client ≡ some b
      → IsInStep m b
      → is_some router.from ≡ true
      → IsAccepted subscribed fuel (from_to_string router)
      → ((b' : Client (MqttRouter Node)) × (m' : Mqtt Node) × ((add_router subscribed fuel m
              (some router)).0
            ≡ some m')
          × (m'.client ≡ some b')
          × IsInStep m' b')
        × ((b' : Client (MqttRouter Node)) × (m' : Mqtt Node) × (remove_router none m router_id
              ≡ (m', none))
            × (m'.client ≡ some b')
            × IsInStep m' b')
  unfolding add_router save_router remove_router delete_router unregister_handler
      get_handler_by_up_topic
  add-remove-IsInStep m b router router_id e step has_from accepted =
      let saved : Mqtt Node = record m {
        router_storage = put (from_to_string router) router m.router_storage;
      } in
      let (b', made, handlers) = register_router-ends saved router b has_from accepted in
      (
        (
          b',
          record saved { client = some b' },
          ap (register_router subscribed fuel saved router) e ∙ made,
          refl,
          λ t.
              handlers t
              ∙ ap (λ o. if from_to_string router == t then some (handler_of m router) else o)
                  (step t)
              ∙ added m router (from_to_string router == t) (get t m.router_storage)
              ∙ ap (handlers_of m)
                  (sym (get-put (from_to_string router) t router m.router_storage)),
        ),
        (
          (unregister_handler none b router_id).0,
          record m {
            router_storage = remove router_id m.router_storage;
            client = some (unregister_handler none b router_id).0;
          },
          rw e refl,
          refl,
          λ t.
              get-remove router_id t b.msg_handler_map
              ∙ ap (λ o. if router_id == t then none else o) (step t)
              ∙ removed m (router_id == t) (get t m.router_storage)
              ∙ ap (handlers_of m) (sym (get-remove router_id t m.router_storage)),
        ),
      )
