-- ===== src/Delay/Overlap.antt =====
-- The queue of a delay node whose calls of `OnMsg` overlap (components/action/delay_node.go).
use rulego.Prelude.{
  ℕ, zero, suc, ◌+◌, ◌≤◌, ◌<◌, String, ◌≡◌, refl, ap, ◌∙◌, inl, inr, true, false, some, List, [],
  ◌∷◌, ◌++◌, arith, ltb, if◌then◌else◌, ◌==◌, string_eq, nat_key, Bool-cases, Option-cases, length,
  get_elem?, set, take, drop, none-ne-some,
}
use rulego.Prelude.Dict.{get, length-put, length-remove_le}
use rulego.Result.{Result, ok, err}
use rulego.Msg.{RuleMsg, Env}
use rulego.Dsl.{ℤ, pos}
use rulego.Delay.{
  is_below, limit_or_default, DelayNodeConfiguration, DelayNode, delay_node_msg_type, init, on_ack,
  period, DelayRun, DelayStep, arrive, finish, admit, delay_step, delay_steps,
}
use rulego.Delay.Laws.{room_below}

-- A node that does not overwrite: what is pending, and what is admitted, against the limit and the
-- calls that can run at the same time.
pub record IsHeld (workers limit : ℕ) (x : DelayRun) : Type 0 where
  pub plain : x.node.config.overwrite ≡ false
  pub none_last : x.node.last_pending_msg_id ≡ ""
  pub limited : x.node.config.max_pending_msgs ≡ pos limit
  pub within : length x.node.pending_msgs + length x.admitted < limit + workers

length-removed :
    {A : Type 0} (xs : List A) (i : ℕ) (a : A)
    → get_elem? xs i ≡ some a
    → suc (length (take i xs ++ drop (suc i) xs)) ≡ length xs
length-removed [] i a e = elim (none-ne-some e) [ ]
length-removed (x ∷ xs) zero a e = refl
length-removed (x ∷ xs) (suc i) a e = ap suc (length-removed xs i a e)

on_ack-kept :
    (x : DelayNode) (msg : RuleMsg)
    → x.config.overwrite ≡ false
    → ((on_ack x msg).0.config ≡ x.config)
      × ((on_ack x msg).0.last_pending_msg_id ≡ x.last_pending_msg_id)
      × (length (on_ack x msg).0.pending_msgs ≤ length x.pending_msgs)
unfolding on_ack
on_ack-kept x msg h = elim (Option-cases (get msg.id x.pending_msgs)) [
  | inl missing ↦ rw (missing, on_ack) (refl, refl, omega arith)
  | inr (pending, found) ↦
      rw (found, on_ack)
        (
          refl,
          ap (λ o. if o then "" else x.last_pending_msg_id) h,
          length-remove_le msg.id x.pending_msgs,
        )
]

module _ (atoi : String → Result ℤ) (env : Env) (workers limit : ℕ) where
  admitted-IsHeld :
      (x : DelayRun) (msg : RuleMsg) (p : Result ℤ)
      → length x.admitted < workers
      → IsHeld workers limit x
      → is_below (length x.node.pending_msgs) x.node.config.max_pending_msgs ≡ true
      → IsHeld workers limit (admit x msg true p)
  admitted-IsHeld x msg (err e) l h room = h
  admitted-IsHeld x msg (ok seconds) l h room =
      let below =
        room_below x.node.config.max_pending_msgs limit (length x.node.pending_msgs) h.limited
          room in
      record { plain = h.plain; none_last = h.none_last; limited = h.limited; within = omega arith }

  idle : (x : DelayRun) → IsHeld workers limit x → (x.node.last_pending_msg_id == "") ≡ true
  idle x h = ap (λ s. s == "") h.none_last

  admit-IsHeld :
      (x : DelayRun) (msg : RuleMsg) (p : Result ℤ)
      → length x.admitted < workers
      → IsHeld workers limit x
      → IsHeld workers limit
          (admit x msg (is_below (length x.node.pending_msgs) x.node.config.max_pending_msgs) p)
  admit-IsHeld x msg p l h =
      elim (Bool-cases (is_below (length x.node.pending_msgs) x.node.config.max_pending_msgs)) [
        | inl room ↦ rw room (admitted-IsHeld x msg p l h room)
        | inr full ↦ rw full h
      ]

  delay_step-IsHeld :
      (x : DelayRun) (step : DelayStep)
      → IsHeld workers limit x
      → IsHeld workers limit (delay_step atoi env workers x step)
  unfolding delay_step
  delay_step-IsHeld x (arrive msg) h = elim (Bool-cases (ltb (length x.admitted) workers)) [
    | inr busy ↦ rw (busy, delay_step) h
    | inl free ↦ elim (Bool-cases (msg.type == delay_node_msg_type)) [
      | inl is_ack ↦
          let (same, last, less) = on_ack-kept x.node msg h.plain in
          rw (free, is_ack, delay_step)
            (record {
              plain = ap (λ c. c.overwrite) same ∙ h.plain;
              none_last = last ∙ h.none_last;
              limited = ap (λ c. c.max_pending_msgs) same ∙ h.limited;
              within = omega (arith, less, h.within);
            })
      | inr new ↦
          rw (free, new, idle x h, delay_step)
            (admit-IsHeld x msg (period atoi env x.node.config msg) (ground arith) h)
    ]
  ]
  delay_step-IsHeld x (finish i) h = elim (Option-cases (get_elem? x.admitted i)) [
    | inl past ↦ rw (past, delay_step) h
    | inr ((msg, seconds), e) ↦
        rw (e, delay_step)
          (record {
            plain = h.plain;
            none_last =
                ap (λ o. if o then msg.id else x.node.last_pending_msg_id) h.plain ∙ h.none_last;
            limited = h.limited;
            within = ground (
              arith,
              length-put msg.id msg x.node.pending_msgs,
              length-removed x.admitted i (msg, seconds) e,
              h.within,
            );
          })
  ]

  delay_steps-IsHeld :
      (x : DelayRun) (steps : List DelayStep)
      → IsHeld workers limit x
      → IsHeld workers limit (delay_steps atoi env workers x steps)
  unfolding delay_steps
  delay_steps-IsHeld x [] h = h
  delay_steps-IsHeld x (step ∷ steps) h =
      delay_steps-IsHeld (delay_step atoi env workers x step) steps (delay_step-IsHeld x step h)

  -- A delay node that does not overwrite, after `Init`, where at most `workers` calls of `OnMsg` run at
  -- the same time, their sections in any order: the pending messages are less than the limit that the
  -- configuration sets plus the number of calls. So one call at a time keeps the limit, and each
  -- further call that overlaps can exceed it by one message at most.
  pub delay_steps-IsBounded :
      (config : DelayNodeConfiguration) (steps : List DelayStep)
      → 0 < workers
      → config.overwrite ≡ false
      → limit_or_default config.max_pending_msgs ≡ pos limit
      → let x = delay_steps atoi env workers (record { node = init config; admitted = [] }) steps in
        length x.node.pending_msgs + length x.admitted < limit + workers
  unfolding init
  delay_steps-IsBounded config steps p plain set =
      (delay_steps-IsHeld (record { node = init config; admitted = [] }) steps
        (record { plain = plain; none_last = refl; limited = set; within = omega arith })).within
