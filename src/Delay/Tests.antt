-- ===== src/Delay/Tests.antt =====
-- Examples of the delay node.
use rulego.Prelude.{
  ◌+◌, ◌<◌, String, ◌≡◌, refl, ◌≢◌, false, none, List, [], ◌∷◌, arith, eq_iff, if◌then◌else◌, ◌==◌,
  string_eq, nat_key, length,
}
use rulego.Prelude.Dict.{get, put}
use mathlib.Core.Bool.{false≢true}
use rulego.Result.{Result, ok, err}
use rulego.Dsl.{ℤ, pos}
use rulego.Msg.{RuleMsg, Env}
use rulego.Delay.Overlap.{delay_steps-IsBounded}
use rulego.Delay.{
  DelayRun, DelayStep, arrive, finish, delay_steps, limit_or_default, DelayNodeConfiguration,
  tell_success, tell_self, tell_failure, ack, init, on_msg, on_msgs,
}
use rulego.Delay.Laws.{IsBounded, on_msgs-IsBounded, delay_roundtrip}

abbrev env : Env
env = record { now = 700; uuid = "fresh" }

abbrev atoi : String → Result ℤ
atoi s = if s == "2" then ok (pos 2) else err "invalid syntax"

abbrev msg : RuleMsg
msg = record {
  ts = 500;
  id = "m1";
  data_type = "JSON";
  type = "TEMP";
  content = "{}";
  metadata = [];
}

abbrev config : DelayNodeConfiguration
config = record {
  period_in_seconds = pos 5;
  max_pending_msgs = pos 1;
  period_in_seconds_pattern = "";
  overwrite = false;
}

full_test :
    (on_msg atoi env (on_msgs atoi env (init config) (msg ∷ [])) (record msg { id = "m2" })).1
    ≡ tell_failure (record msg { id = "m2" }) "max limit of pending messages"
unfolding on_msg on_msgs init put
full_test = refl

on_msgs-IsBounded_example :
    IsBounded (on_msgs atoi env (init config) (msg ∷ record msg { id = "m2" } ∷ []))
on_msgs-IsBounded_example = on_msgs-IsBounded atoi env config (msg ∷ record msg { id = "m2" } ∷ [])

told_later : (on_msg atoi env (init config) msg).1 ≡ tell_self (ack atoi env msg) (pos 5000)
unfolding on_msg init
told_later = refl

named : msg.id ≢ ""
named e = false≢true ((eq_iff "m1" "").1 e)

delay_roundtrip_example :
    ((on_msg atoi env (on_msg atoi env (init config) msg).0 (ack atoi env msg)).1
      ≡ tell_success msg)
    × (get "m1"
          (on_msg atoi env (on_msg atoi env (init config) msg).0 (ack atoi env msg)).0.pending_msgs
        ≡ none)
delay_roundtrip_example =
    delay_roundtrip atoi env (init config) msg (ack atoi env msg) (pos 5000) named told_later

-- Two calls find room for one message each, and the queue has one more than its limit.
abbrev overlapped : List DelayStep
overlapped = arrive msg ∷ arrive (record msg { id = "m2" }) ∷ finish 0 ∷ finish 0 ∷ []

abbrev at_start : DelayRun
at_start = record { node = init config; admitted = [] }

exceeded_test : length (delay_steps atoi env 2 at_start overlapped).node.pending_msgs ≡ 2
unfolding delay_steps init put
exceeded_test = refl

limit_set : limit_or_default config.max_pending_msgs ≡ pos 1
limit_set = refl

delay_steps-IsBounded_example :
    let x = delay_steps atoi env 2 at_start overlapped in
    length x.node.pending_msgs + length x.admitted < 1 + 2
delay_steps-IsBounded_example =
    delay_steps-IsBounded atoi env 2 1 config overlapped (omega arith) refl limit_set
