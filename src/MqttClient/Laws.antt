-- ===== src/MqttClient/Laws.antt =====
-- The handlers of the client for MQTT: components/mqtt/client.go.
use rulego.Prelude.{
  ℕ, zero, suc, ◌+◌, ◌≤◌, ◌<◌, String, ◌≡◌, refl, sym, ap, ◌∙◌, Bool, true, false, none, some, ◌∷◌,
  arith, ltb, if◌then◌else◌, ◌==◌, string_eq, nat_key,
}
use rulego.Prelude.Dict.{put, get-put, get-remove_self}
use rulego.MqttClient.{
  Handler, Client, attempts, subscribe_handler, register_handler, unregister_handler,
  get_handler_by_up_topic,
}

shift : (n i : ℕ) → suc n + i ≡ n + suc i
shift n i = omega arith

zero_add : (n : ℕ) → 0 + n ≡ n
zero_add n = omega arith

-- Enough attempts end in the first that succeeds; too few do not end.
pub attempts-first :
    (subscribed : ℕ → String → Bool) (fuel n k : ℕ) (topic : String)
    → ((i : ℕ) → i < k → subscribed (n + i) topic ≡ false)
    → subscribed (n + k) topic ≡ true
    → attempts subscribed fuel n topic ≡ (if ltb k fuel then some (n + k) else none)
unfolding attempts
attempts-first subscribed zero n k topic before at = ground arith
attempts-first subscribed (suc fuel) n zero topic before at =
    let same : n + 0 ≡ n = omega arith in
    let now : subscribed n topic ≡ true = ap (λ i. subscribed i topic) (sym same) ∙ at in
    rw now (ground (arith, same))
attempts-first subscribed (suc fuel) n (suc k) topic before at =
    let here : n + 0 ≡ n = omega arith in
    let later : suc n + k ≡ n + suc k = omega arith in
    let not_yet : subscribed n topic ≡ false =
      ap (λ i. subscribed i topic) (sym here) ∙ before 0 (omega arith) in
    let rest : attempts subscribed fuel (suc n) topic
        ≡ (if ltb k fuel then some (suc n + k) else none) =
      attempts-first subscribed fuel (suc n) k topic
        (λ i h. ap (λ j. subscribed j topic) (shift n i) ∙ before (suc i) (omega arith))
        (ap (λ j. subscribed j topic) later ∙ at) in
    rw (not_yet, rest, later) (ground arith)

-- The broker accepts a topic at one of the attempts that there is fuel for.
abbrev pub IsAccepted : (ℕ → String → Bool) → ℕ → String → Type 0
IsAccepted subscribed fuel topic =
    (k : ℕ) × (k < fuel)
    × ((i : ℕ) → i < k → subscribed i topic ≡ false)
    × (subscribed k topic ≡ true)

module _ (subscribed : ℕ → String → Bool) (fuel : ℕ) where
  found_at :
      (enough : ℕ) (topic : String) (h : IsAccepted subscribed fuel topic)
      → attempts subscribed enough 0 topic ≡ (if ltb h.0 enough then some h.0 else none)
  found_at enough topic (k, small, before, at) =
      attempts-first subscribed enough 0 k topic
        (λ i l. ap (λ j. subscribed j topic) (zero_add i) ∙ before i l)
        (ap (λ j. subscribed j topic) (zero_add k) ∙ at)
      ∙ ap (λ n. if ltb k enough then some n else none) (zero_add k)

  found_first :
      (topic : String) (h : IsAccepted subscribed fuel topic)
      → attempts subscribed fuel 0 topic ≡ some h.0
  found_first topic h = found_at fuel topic h ∙ ground (arith, h.1)

module _ {H : Type 0} (subscribed : ℕ → String → Bool) (fuel : ℕ) where
  pub subscribe_handler-ends :
      (b : Client H) (handler : Handler H)
      → IsAccepted subscribed fuel handler.topic
      → subscribe_handler subscribed fuel b handler
        ≡ some (record b { subscriptions = handler.topic ∷ b.subscriptions })
  unfolding subscribe_handler
  subscribe_handler-ends b handler (k, enough, before, at) =
      let found : attempts subscribed fuel 0 handler.topic ≡ some k =
        attempts-first subscribed fuel 0 k handler.topic
          (λ i h. ap (λ j. subscribed j handler.topic) (zero_add i) ∙ before i h)
          (ap (λ j. subscribed j handler.topic) (zero_add k) ∙ at)
        ∙ ground (arith, enough, zero_add k) in
      rw found refl

  still_trying :
      (b : Client H) (handler : Handler H) (h : IsAccepted subscribed fuel handler.topic)
      (fewer : ℕ)
      → fewer ≤ h.0
      → subscribe_handler subscribed fewer b handler ≡ none
  unfolding subscribe_handler
  still_trying b handler h fewer l =
      let past : attempts subscribed fewer 0 handler.topic ≡ none =
        found_at subscribed fuel fewer handler.topic h ∙ ground arith in
      rw past refl

  -- If the broker accepts the topic at some attempt, registering a handler ends with the first such
  -- attempt: that is the one at which the loop stops, and with no more attempts than come before it,
  -- all refused, it does not end. The topic is then subscribed once more, and has this handler; the
  -- handlers of the other topics are as before. Unregistering it takes it away again, unless the
  -- broker refuses: then nothing changes.
  pub register_handler-ends :
      (b : Client H) (handler : Handler H) (error : String)
      → (h : IsAccepted subscribed fuel handler.topic)
      → (attempts subscribed fuel 0 handler.topic ≡ some h.0)
        × ((fewer : ℕ) → fewer ≤ h.0 → register_handler subscribed fewer b handler ≡ none)
        × (b' : Client H) × (register_handler subscribed fuel b handler ≡ some b')
        × (b'.subscriptions ≡ handler.topic ∷ b.subscriptions)
        × ((t : String)
            → get_handler_by_up_topic b' t
              ≡ (if handler.topic == t then some handler else get_handler_by_up_topic b t))
        × (get_handler_by_up_topic (unregister_handler none b' handler.topic).0 handler.topic
            ≡ none)
        × (unregister_handler (some error) b' handler.topic ≡ (b', some error))
  unfolding register_handler get_handler_by_up_topic unregister_handler
  register_handler-ends b handler error h =
      let handlers = put handler.topic handler b.msg_handler_map in
      (
        found_first subscribed fuel handler.topic h,
        still_trying (record b { msg_handler_map = handlers }) handler h,
        record { msg_handler_map = handlers; subscriptions = handler.topic ∷ b.subscriptions },
        subscribe_handler-ends (record b { msg_handler_map = handlers }) handler h,
        refl,
        λ t. get-put handler.topic t handler b.msg_handler_map,
        get-remove_self handler.topic handlers,
        refl,
      )
