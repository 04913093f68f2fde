-- ===== src/Engine/Waiting.antt =====
-- `onMsgAndWait` of engine.go, with its three lists of aspects: what a caller of `OnMsg` and of
-- `OnMsgAndWait` sees of the run of a message. An option only says whether it sets a callback.
use rulego.Prelude.{ℕ, zero, suc, String, Bool, Option, List, [], ◌∷◌, ◌++◌, if◌then◌else◌}
use rulego.Msg.{RuleMsg}
use rulego.Chain.{NodeRef}
use rulego.Engine.Count.{sum_by}
use rulego.Engine.Context.{
  Err, Event, on_msg_called, on_end_called, global_on_end_called, completed, State,
}
use rulego.Engine.Run.{World, run, start}

-- The aspects cut in at the root context, of which they see the first node.
pub record StartAspect : Type 0 where
  pub point_cut : Option NodeRef → RuleMsg → String → Bool
  pub start_with : Option NodeRef → RuleMsg → RuleMsg

pub record EndAspect : Type 0 where
  pub point_cut : Option NodeRef → RuleMsg → String → Bool
  pub end_with : Option NodeRef → RuleMsg → Err → String → RuleMsg

pub record CompletedAspect : Type 0 where
  pub point_cut : Option NodeRef → RuleMsg → String → Bool
  pub complete_with : Option NodeRef → RuleMsg → RuleMsg

-- The lists of a `RuleEngine`, the first node of its chain, and the callbacks that the options set.
pub record Call : Type 0 where
  pub start_aspects : List StartAspect
  pub end_aspects : List EndAspect
  pub completed_aspects : List CompletedAspect
  pub first : Option NodeRef
  pub on_end : Bool
  pub on_all_node_completed : Bool
  pub wait : Bool

-- What happens outside the engine: the aspects for the completion have run, and made a message that
-- nobody gets; the callbacks of the options are called; the channel is closed.
pub data Seen : Type 0 where
  custom_end : (ctx : ℕ) → RuleMsg → Err → String → Seen
  aspects_completed : RuleMsg → Seen
  custom_completed : Seen
  closed : Seen

unfoldable pub on_start : Option NodeRef → List StartAspect → RuleMsg → RuleMsg
on_start self [] msg = msg
on_start self (aop ∷ aops) msg =
    on_start self aops (if aop.point_cut self msg "" then aop.start_with self msg else msg)

unfoldable pub on_end_with : Option NodeRef → List EndAspect → RuleMsg → Err → String → RuleMsg
on_end_with self [] msg e relation_type = msg
on_end_with self (aop ∷ aops) msg e relation_type =
    on_end_with self aops
      (if aop.point_cut self msg relation_type then aop.end_with self msg e relation_type else msg)
      e relation_type

unfoldable pub on_completed : Option NodeRef → List CompletedAspect → RuleMsg → RuleMsg
on_completed self [] msg = msg
on_completed self (aop ∷ aops) msg =
    on_completed self aops (if aop.point_cut self msg "" then aop.complete_with self msg else msg)

-- What an event of the run is to the caller; `msg` is the message as the start aspects left it, which
-- the callback for the completion holds on to.
unfoldable pub seen : Call → RuleMsg → Event → List Seen
unfolding on_end_with on_completed
seen k msg (on_msg_called n m) = []
seen k msg (global_on_end_called m e) = []
seen k msg (on_end_called c m e relation_type) =
    if k.on_end
    then custom_end c (on_end_with k.first k.end_aspects m e relation_type) e relation_type ∷ []
    else []
seen k msg (completed zero) =
    aspects_completed (on_completed k.first k.completed_aspects msg)
      ∷ (if k.on_all_node_completed then custom_completed ∷ [] else [])
    ++ (if k.wait then closed ∷ [] else [])
seen k msg (completed (suc c)) = []

unfoldable pub seen_all : Call → RuleMsg → List Event → List Seen
unfolding seen
seen_all k msg [] = []
seen_all k msg (event ∷ events) = seen k msg event ++ seen_all k msg events

-- The run of the message under a schedule of the tasks.
abbrev pub run_call : World → Call → RuleMsg → List ℕ → State
unfolding on_start run start
run_call w k msg schedule = run w schedule (start w k.first (on_start k.first k.start_aspects msg))

unfoldable pub on_msg_and_wait : World → Call → RuleMsg → List ℕ → List Seen
unfolding on_start seen_all run start
on_msg_and_wait w k msg schedule =
    seen_all k (on_start k.first k.start_aspects msg) (run_call w k msg schedule).events

abbrev pub closing : Seen → ℕ
closing closed = 1
closing _ = 0

-- How often the channel is closed: a second time would panic, and without a first one the caller
-- waits.
abbrev pub closings : List Seen → ℕ
closings calls = sum_by closing calls
