-- ===== src/Engine/Context.antt =====
-- engine.go: the contexts, the tasks, the counters of unfinished children, and the end of a branch.
use rulego.Prelude.{
  ℕ, zero, suc, String, Bool, true, not, ◌&&◌, Option, none, some, List, [], ◌∷◌, ◌++◌, nat_eq,
  if◌then◌else◌,
}
use rulego.Prelude.Words.{inc32, dec32, sle32}
use rulego.Msg.{RuleMsg}
use rulego.Chain.{NodeRef}

-- The fields of `DefaultRuleContext` that change or that differ between the contexts of one message.
-- A callback is modelled by whether it is set: its calls are events.
pub record Context : Type 0 where
  pub self : Option NodeRef
  pub is_first : Bool
  pub on_end : Bool
  pub waiting_count : ℕ  -- int32
  pub parent_rule_ctx : Option ℕ
  pub on_all_node_completed : Bool
  pub on_all_node_completed_done : Bool
  pub skip_tell_next : Bool

abbrev pub Err : Type 0
Err = Option String

-- What is submitted to the pool, with what the closure holds.
pub data Task : Type 0 where
  first_node : (ctx : ℕ) → RuleMsg → Err → Task
  next_node : (ctx : ℕ) → RuleMsg → NodeRef → String → Task
  branch_end : (ctx : ℕ) → RuleMsg → Err → String → Task
  global_end : RuleMsg → Err → Task

-- What can be seen from outside: the calls of the callbacks and of `OnMsg`.
pub data Event : Type 0 where
  on_msg_called : NodeRef → RuleMsg → Event
  on_end_called : (ctx : ℕ) → RuleMsg → Err → String → Event
  global_on_end_called : RuleMsg → Err → Event
  completed : (ctx : ℕ) → Event

pub record State : Type 0 where
  pub contexts : ℕ → Context
  pub next : ℕ  -- the address of the next context that is made
  pub tasks : List Task
  pub events : List Event  -- the latest last

abbrev pub update : (ℕ → Context) → ℕ → Context → ℕ → Context
update contexts c ctx a = if nat_eq a c then ctx else contexts a

abbrev pub write : ℕ → Context → State → State
write c ctx s = record s { contexts = update s.contexts c ctx }

unfoldable pub submit_tack : Task → State → State
submit_tack task s = record s { tasks = s.tasks ++ task ∷ [] }

abbrev pub log : Event → State → State
log event s = record s { events = s.events ++ event ∷ [] }

unfoldable pub child_ready : ℕ → State → State
child_ready c s =
    write c (record (s.contexts c) { waiting_count = inc32 (s.contexts c).waiting_count }) s

-- The last lines of `childDone`. The flag is loaded and then stored, which is one step only where
-- no other task runs at the same time.
unfoldable pub complete : ℕ → State → State
complete c s =
    if (s.contexts c).on_all_node_completed && not (s.contexts c).on_all_node_completed_done
    then log (completed c) (write c (record (s.contexts c) { on_all_node_completed_done = true }) s)
    else s

-- The parent, if there is one, counts its child as done.
abbrev pub notify : (ℕ → State → State) → Option ℕ → State → State
notify count none s = s
notify count (some p) s = count p s

-- `childDone`, with fuel for the walk to the root; a context has a smaller address than its children.
unfoldable pub child_done : ℕ → ℕ → State → State
unfolding complete
child_done zero c s = s
child_done (suc fuel) c s =
    let waiting = dec32 (s.contexts c).waiting_count in
    let s' = write c (record (s.contexts c) { waiting_count = waiting }) s in
    let finished = complete c (notify (child_done fuel) (s.contexts c).parent_rule_ctx s') in
    if sle32 waiting 0 then finished else s'

abbrev pub done : ℕ → State → State
done c s = child_done (suc c) c s

-- `DoOnEnd`; `global` tells whether `Config.OnEnd` is set.
unfoldable pub do_on_end : Bool → ℕ → RuleMsg → Err → String → State → State
unfolding submit_tack child_done
do_on_end global c msg e relation_type s =
    let s' = if global then submit_tack (global_end msg e) s else s in
    if (s.contexts c).on_end then submit_tack (branch_end c msg e relation_type) s' else done c s'
