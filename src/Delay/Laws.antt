-- ===== src/Delay/Laws.antt =====
-- The queue of a delay node stays within its limit, and what is delivered at the end of a period.
use rulego.Prelude.{
  ℕ, zero, suc, ◌≤◌, String, ◌≡◌, refl, sym, ap, ◌∙◌, ◌≢◌, inl, inr, true, false, none, some, List,
  [], ◌∷◌, arith, eq_iff, if◌then◌else◌, ◌==◌, string_eq, nat_key, Bool-cases, Option-cases,
  is_some, length,
}
use rulego.Prelude.Dict.{
  get, put, has, eq_self, get-put_self, get-remove_self, length-put, length-remove_le, IsMap,
  put-IsMap, remove-IsMap,
}
use rulego.Result.{Result, ok, err, Result-cases}
use rulego.Msg.{RuleMsg, Env, copy}
use mathlib.Core.Path.{subst}
use rulego.Dsl.{ℤ, pos, negsuc}
use rulego.Delay.{
  limit_or_default, is_below, DelayNodeConfiguration, DelayNode, silent, tell_success, tell_failure,
  tell_self, delay_node_msg_type, init, on_ack, ack, enqueue_for, period, enqueue, on_msg, on_msgs,
}

-- No more pending messages than the limit, each under its own key; and the last pending message of
-- the overwriting mode is there to be overwritten.
pub record IsBounded (x : DelayNode) : Type 0 where
  pub limit : ℕ
  pub limited : x.config.max_pending_msgs ≡ pos limit
  pub within : length x.pending_msgs ≤ limit
  pub keyed : IsMap x.pending_msgs
  pub last_there : x.last_pending_msg_id ≢ "" → has x.last_pending_msg_id x.pending_msgs ≡ true
  pub last_mode : x.last_pending_msg_id ≢ "" → x.config.overwrite ≡ true

pub limit_or_default-pos : (m : ℤ) → (n : ℕ) × (limit_or_default m ≡ pos n)
limit_or_default-pos (negsuc n) = (1000, refl)
limit_or_default-pos (pos zero) = (1000, refl)
limit_or_default-pos (pos (suc n)) = (suc n, refl)

pub init-IsBounded : (config : DelayNodeConfiguration) → IsBounded (init config)
unfolding init
init-IsBounded config = record {
  limit = (limit_or_default-pos config.max_pending_msgs).0;
  limited = (limit_or_default-pos config.max_pending_msgs).1;
  within = omega arith;
  keyed = tt;
  last_there = λ ne. absurd (ne refl);
  last_mode = λ ne. absurd (ne refl);
}

-- Only the overwriting mode has a last pending message, and the end of a period clears it.
cleared :
    (x : DelayNode)
    → (if x.config.overwrite then "" else x.last_pending_msg_id) ≢ ""
    → IsBounded x
    → ⊥
cleared x ne b = ground (arith, b.last_mode)

on_ack-IsBounded : (x : DelayNode) (msg : RuleMsg) → IsBounded x → IsBounded (on_ack x msg).0
unfolding on_ack
on_ack-IsBounded x msg b = elim (Option-cases (get msg.id x.pending_msgs)) [
  | inl missing ↦ rw (missing, on_ack) b
  | inr (pending, found) ↦
      rw (found, on_ack)
        (record {
          limit = b.limit;
          limited = b.limited;
          within = omega (arith, length-remove_le msg.id x.pending_msgs, b.within);
          keyed = remove-IsMap msg.id x.pending_msgs b.keyed;
          last_there = λ ne. absurd (cleared x ne b);
          last_mode = λ ne. absurd (cleared x ne b);
        })
]

mode_of :
    (x : DelayNode) (id : String)
    → (if x.config.overwrite then id else x.last_pending_msg_id) ≢ ""
    → IsBounded x
    → x.config.overwrite ≡ true
mode_of x id ne b = elim (Bool-cases x.config.overwrite) [
  | inl on ↦ on
  | inr off ↦ b.last_mode (subst (λ o. (if o then id else x.last_pending_msg_id) ≢ "") off ne)
]

last_kept :
    (x : DelayNode) (msg : RuleMsg)
    → x.config.overwrite ≡ true
    → has
        (if x.config.overwrite then msg.id else x.last_pending_msg_id)
        (put msg.id msg x.pending_msgs)
      ≡ true
last_kept x msg on = rw on (ap is_some (get-put_self msg.id msg x.pending_msgs))

pub room_below : (m : ℤ) (limit n : ℕ) → m ≡ pos limit → is_below n m ≡ true → suc n ≤ limit
room_below m limit n e h = ground (arith, subst (λ v. is_below n v ≡ true) e h)

failure-ne_self :
    {m told : RuleMsg} {e : String} {ms : ℤ} → tell_failure m e ≡ tell_self told ms → ⊥
failure-ne_self h = cc

silent-ne_self : {told : RuleMsg} {ms : ℤ} → silent ≡ tell_self told ms → ⊥
silent-ne_self h = cc

self_msg : {m told : RuleMsg} {a b : ℤ} → tell_self m a ≡ tell_self told b → m ≡ told
self_msg h = cc

on_ack-found :
    (x : DelayNode) (msg pending : RuleMsg)
    → get msg.id x.pending_msgs ≡ some pending
    → ((on_ack x msg).1 ≡ tell_success pending) × (get msg.id (on_ack x msg).0.pending_msgs ≡ none)
unfolding on_ack
on_ack-found x msg pending found = rw (found, on_ack) (refl, get-remove_self msg.id x.pending_msgs)

module _ (atoi : String → Result ℤ) (env : Env) where
  enqueue-IsBounded :
      (x : DelayNode) (msg : RuleMsg) → IsBounded x → IsBounded (enqueue atoi env x msg).0
  unfolding enqueue
  enqueue-IsBounded x msg b =
      elim (Bool-cases (is_below (length x.pending_msgs) x.config.max_pending_msgs)) [
        | inr full ↦ rw (full, enqueue) b
        | inl room ↦ elim (Result-cases (period atoi env x.config msg)) [
          | inr (e, bad) ↦ rw (room, bad, enqueue) b
          | inl (seconds, good) ↦
              rw (room, good, enqueue)
                (record {
                  limit = b.limit;
                  limited = b.limited;
                  within = ground (
                    arith,
                    length-put msg.id msg x.pending_msgs,
                    room_below x.config.max_pending_msgs b.limit (length x.pending_msgs) b.limited
                        room,
                  );
                  keyed = put-IsMap msg.id msg x.pending_msgs b.keyed;
                  last_there = λ ne. last_kept x msg (mode_of x msg.id ne b);
                  last_mode = λ ne. mode_of x msg.id ne b;
                })
        ]
      ]

  pub on_msg-IsBounded :
      (x : DelayNode) (msg : RuleMsg) → IsBounded x → IsBounded (on_msg atoi env x msg).0
  unfolding on_msg
  on_msg-IsBounded x msg b = elim (Bool-cases (msg.type == delay_node_msg_type)) [
    | inl ack ↦ rw (ack, on_msg) (on_ack-IsBounded x msg b)
    | inr new ↦ elim (Bool-cases (x.last_pending_msg_id == "")) [
      | inl idle ↦ rw (new, idle, on_msg) (enqueue-IsBounded x msg b)
      | inr busy ↦
          rw (new, busy, on_msg)
            (record {
              limit = b.limit;
              limited = b.limited;
              within = ground (
                arith,
                length-put x.last_pending_msg_id msg x.pending_msgs,
                b.last_there,
                b.within,
                eq_iff x.last_pending_msg_id "",
              );
              keyed = put-IsMap x.last_pending_msg_id msg x.pending_msgs b.keyed;
              last_there = λ ne. ap is_some (get-put_self x.last_pending_msg_id msg x.pending_msgs);
              last_mode = b.last_mode;
            })
    ]
  ]

  on_msg-ack :
      (x : DelayNode) (msg : RuleMsg)
      → (msg.type == delay_node_msg_type) ≡ true
      → on_msg atoi env x msg ≡ on_ack x msg
  unfolding on_msg
  on_msg-ack x msg h = rw (h, on_msg)

  on_msg-new :
      (x : DelayNode) (msg : RuleMsg)
      → (msg.type == delay_node_msg_type) ≡ false
      → (x.last_pending_msg_id == "") ≡ true
      → on_msg atoi env x msg ≡ enqueue atoi env x msg
  unfolding on_msg
  on_msg-new x msg h idle = rw (h, idle, on_msg)

  on_msg-busy :
      (x : DelayNode) (msg : RuleMsg)
      → (msg.type == delay_node_msg_type) ≡ false
      → (x.last_pending_msg_id == "") ≡ false
      → on_msg atoi env x msg
        ≡ (record x { pending_msgs = put x.last_pending_msg_id msg x.pending_msgs }, silent)
  unfolding on_msg
  on_msg-busy x msg h busy = rw (h, busy, on_msg)

  on_msgs_from :
      (x : DelayNode) (msgs : List RuleMsg) → IsBounded x → IsBounded (on_msgs atoi env x msgs)
  unfolding on_msgs
  on_msgs_from x [] b = b
  on_msgs_from x (msg ∷ msgs) b =
      on_msgs_from (on_msg atoi env x msg).0 msgs (on_msg-IsBounded x msg b)

  -- For calls that do not overlap. However many messages arrive, in whatever order with the ends of
  -- periods, a delay node that was initialised keeps at most as many pending messages as its limit,
  -- which the configuration sets, and no message twice under a key; what it would overwrite is
  -- pending.
  pub on_msgs-IsBounded :
      (config : DelayNodeConfiguration) (msgs : List RuleMsg)
      → IsBounded (on_msgs atoi env (init config) msgs)
  on_msgs-IsBounded config msgs = on_msgs_from (init config) msgs (init-IsBounded config)

  on_ack_told :
      (x : DelayNode) (msg told : RuleMsg) (ms : ℤ) → (on_ack x msg).1 ≡ tell_self told ms → ⊥
  unfolding on_ack
  on_ack_told x msg told ms h = elim (Option-cases (get msg.id x.pending_msgs)) [
    | inl missing ↦ cc
    | inr (pending, found) ↦ cc
  ]

  enqueue-full :
      (x : DelayNode) (msg : RuleMsg)
      → is_below (length x.pending_msgs) x.config.max_pending_msgs ≡ false
      → enqueue atoi env x msg ≡ (x, tell_failure msg "max limit of pending messages")
  unfolding enqueue
  enqueue-full x msg full = rw (full, enqueue)

  enqueue-room :
      (x : DelayNode) (msg : RuleMsg) (p : Result ℤ)
      → is_below (length x.pending_msgs) x.config.max_pending_msgs ≡ true
      → period atoi env x.config msg ≡ p
      → enqueue atoi env x msg ≡ enqueue_for atoi env x msg p
  unfolding enqueue
  enqueue-room x msg p room e = rw (room, e, enqueue)

  enqueue_told :
      (x : DelayNode) (msg told : RuleMsg) (ms : ℤ)
      → (enqueue atoi env x msg).1 ≡ tell_self told ms
      → (get msg.id (enqueue atoi env x msg).0.pending_msgs ≡ some msg) × (told ≡ ack atoi env msg)
  enqueue_told x msg told ms h =
      elim (Bool-cases (is_below (length x.pending_msgs) x.config.max_pending_msgs)) [
        | inr full ↦ absurd (failure-ne_self (sym (ap (λ t. t.1) (enqueue-full x msg full)) ∙ h))
        | inl room ↦ elim (Result-cases (period atoi env x.config msg)) [
          | inr (e, bad) ↦
              absurd
                (failure-ne_self (sym (ap (λ t. t.1) (enqueue-room x msg (err e) room bad)) ∙ h))
          | inl (seconds, good) ↦
              let same = enqueue-room x msg (ok seconds) room good in
              (
                ap (λ t. get msg.id t.0.pending_msgs) same ∙ get-put_self msg.id msg x.pending_msgs,
                sym (self_msg (sym (ap (λ t. t.1) same) ∙ h)),
              )
        ]
      ]

  on_msg_told :
      (x : DelayNode) (msg told : RuleMsg) (ms : ℤ)
      → (on_msg atoi env x msg).1 ≡ tell_self told ms
      → (get msg.id (on_msg atoi env x msg).0.pending_msgs ≡ some msg) × (told ≡ ack atoi env msg)
  on_msg_told x msg told ms h = elim (Bool-cases (msg.type == delay_node_msg_type)) [
    | inl is_ack ↦
        absurd (on_ack_told x msg told ms (sym (ap (λ t. t.1) (on_msg-ack x msg is_ack)) ∙ h))
    | inr new ↦ elim (Bool-cases (x.last_pending_msg_id == "")) [
      | inl idle ↦
          let same = on_msg-new x msg new idle in
          let (there, is) = enqueue_told x msg told ms (sym (ap (λ t. t.1) same) ∙ h) in
          (ap (λ t. get msg.id t.0.pending_msgs) same ∙ there, is)
      | inr busy ↦ absurd (silent-ne_self (sym (ap (λ t. t.1) (on_msg-busy x msg new busy)) ∙ h))
    ]
  ]

  ack_id : (msg : RuleMsg) → msg.id ≢ "" → (ack atoi env msg).id ≡ msg.id
  unfolding copy
  ack_id msg named = ground (arith, eq_iff msg.id "")

  -- A message that the node has put into its queue, answering with an acknowledgement for later, is
  -- told under `Success` when the acknowledgement arrives next, unchanged, and is pending no longer.
  -- The message has an identifier.
  pub delay_roundtrip :
      (x : DelayNode) (msg told : RuleMsg) (ms : ℤ)
      → msg.id ≢ ""
      → (on_msg atoi env x msg).1 ≡ tell_self told ms
      → let y = (on_msg atoi env x msg).0 in
        let z = on_msg atoi env y told in
        (z.1 ≡ tell_success msg) × (get msg.id z.0.pending_msgs ≡ none)
  delay_roundtrip x msg told ms named h =
      let (there, is) = on_msg_told x msg told ms h in
      let y = (on_msg atoi env x msg).0 in
      let id : told.id ≡ msg.id = ap (λ m. m.id) is ∙ ack_id msg named in
      let same = on_msg-ack y told (rw is (eq_self delay_node_msg_type)) in
      let (done, gone) = on_ack-found y told msg (ap (λ k. get k y.pending_msgs) id ∙ there) in
      (
        ap (λ t. t.1) same ∙ done,
        ap (λ t. get msg.id t.0.pending_msgs) same
            ∙ ap (λ k. get k (on_ack y told).0.pending_msgs) (sym id)
            ∙ gone,
      )
