-- ===== src/Engine/Run.antt =====
-- engine.go: telling the next nodes, running a task, and running a message from the first node.
use rulego.Prelude.{
  ℕ, suc, String, Bool, true, false, ◌&&◌, Option, none, some, List, [], ◌∷◌, ◌++◌, if◌then◌else◌,
  get_elem?, take, drop,
}
use rulego.Msg.{RuleMsg, Metadata, Env, copy}
use rulego.Chain.{NodeRef}
use rulego.Engine.Context.{
  Context, Err, Task, first_node, next_node, branch_end, global_end, on_msg_called, on_end_called,
  global_on_end_called, State, update, log, submit_tack, child_ready, child_done, done, do_on_end,
}

-- One call of `tell`: nil relation types are `none`.
pub record Tell : Type 0 where
  pub msg : RuleMsg
  pub err : Err
  pub relation_types : Option (List String)

-- What a call into a node or an aspect does with its context: its tells in order, and whether it
-- panics after them.
pub record Behaviour : Type 0 where
  pub tells : List Tell
  pub panics : Bool

pub record AfterAspect : Type 0 where
  pub point_cut : Option NodeRef → RuleMsg → String → Bool
  pub after : Option NodeRef → RuleMsg → Err → String → RuleMsg

pub record BeforeAspect : Type 0 where
  pub point_cut : Option NodeRef → RuleMsg → String → Bool
  pub before : Option NodeRef → RuleMsg → String → RuleMsg

-- `around` returns the message, whether the engine goes on, and the tells that the aspect makes.
pub record AroundAspect : Type 0 where
  pub point_cut : Option NodeRef → RuleMsg → String → Bool
  pub around : Option NodeRef → RuleMsg → String → RuleMsg × Bool × List Tell

-- What the engine takes from outside, the pool aside, which runs one task at a time: the
-- components, the routes of the chain (nil is an empty list), the aspects, and whether the callback
-- of the configuration is set.
pub record World : Type 0 where
  pub env : Env
  pub on_msg : NodeRef → RuleMsg → Behaviour
  pub next_nodes : NodeRef → String → List NodeRef
  pub before_aspects : List BeforeAspect
  pub around_aspects : List AroundAspect
  pub after_aspects : List AfterAspect
  pub global_on_end : Bool
  -- The metadata of a message is one map for the engine, the aspects and the node: what it holds for
  -- the node after the before and around aspects, which may have written to it in place.
  pub left_metadata : NodeRef → RuleMsg → String → Metadata

module _ (w : World) where
  unfoldable pub execute_after_aop :
      List AfterAspect → Option NodeRef → RuleMsg → Err → String → RuleMsg
  execute_after_aop [] self msg e relation_type = msg
  execute_after_aop (aop ∷ aops) self msg e relation_type =
      execute_after_aop aops self
        (if aop.point_cut self msg relation_type then aop.after self msg e relation_type else msg) e
        relation_type

  unfoldable pub execute_before_aop :
      List BeforeAspect → Option NodeRef → RuleMsg → String → RuleMsg
  execute_before_aop [] self msg relation_type = msg
  execute_before_aop (aop ∷ aops) self msg relation_type =
      execute_before_aop aops self
        (if aop.point_cut self msg relation_type then aop.before self msg relation_type else msg)
        relation_type

  abbrev pub next_of : Option NodeRef → String → List NodeRef
  next_of none relation_type = []
  next_of (some self) relation_type = w.next_nodes self relation_type

  -- The loop over the next nodes.
  unfoldable pub spawn : ℕ → RuleMsg → String → List NodeRef → State → State
  unfolding child_ready submit_tack
  spawn c msg relation_type [] s = s
  spawn c msg relation_type (item ∷ nodes) s =
      spawn c msg relation_type nodes
        (submit_tack (next_node c (copy w.env msg) item relation_type) (child_ready c s))

  abbrev pub branch : ℕ → RuleMsg → Err → String → List NodeRef → Bool → State → State
  branch c msg e relation_type [] skip s = do_on_end w.global_on_end c msg e relation_type s
  branch c msg e relation_type (n ∷ nodes) true s =
      do_on_end w.global_on_end c msg e relation_type s
  branch c msg e relation_type (n ∷ nodes) false s = spawn c msg relation_type (n ∷ nodes) s

  -- The loop over the relation types; each round goes on with the message of the last one.
  unfoldable pub tell_relations : ℕ → Err → List String → RuleMsg → State → State
  unfolding execute_after_aop spawn do_on_end
  tell_relations c e [] msg s = s
  tell_relations c e (relation_type ∷ rest) msg s =
      let self = (s.contexts c).self in
      let msg' = execute_after_aop w.after_aspects self msg e relation_type in
      tell_relations c e rest msg'
        (branch c msg' e relation_type (next_of self relation_type) (s.contexts c).skip_tell_next s)

  abbrev tell_next_nodes : ℕ → RuleMsg → Err → Option (List String) → State → State
  tell_next_nodes c msg e none s = do_on_end w.global_on_end c msg e "" s
  tell_next_nodes c msg e (some relation_types) s = tell_relations c e relation_types msg s

  -- `tellFirst` only submits the task.
  unfoldable pub tell : ℕ → Tell → State → State
  unfolding submit_tack tell_relations do_on_end
  tell c t s =
      if (s.contexts c).is_first
      then submit_tack (first_node c (copy w.env t.msg) t.err) s
      else tell_next_nodes c t.msg t.err t.relation_types s

  unfoldable pub tell_all : ℕ → List Tell → State → State
  unfolding tell
  tell_all c [] s = s
  tell_all c (t ∷ tells) s = tell_all c tells (tell c t s)

  -- The context that `NewNextNodeRuleContext` makes from the context `c`.
  unfoldable pub new_next_node_rule_context : ℕ → NodeRef → State → Context
  new_next_node_rule_context c next s = record {
    self = some next;
    is_first = false;
    on_end = (s.contexts c).on_end;
    waiting_count = 0;
    parent_rule_ctx = some c;
    on_all_node_completed = false;
    on_all_node_completed_done = false;
    skip_tell_next = (s.contexts c).skip_tell_next;
  }

  -- One round of the loop: an aspect whose cut-in point does not hold changes nothing.
  abbrev pub around_round :
      AroundAspect → Option NodeRef → RuleMsg → String → RuleMsg × Bool × List Tell
  around_round aop self msg relation_type =
      if aop.point_cut self msg relation_type
      then aop.around self msg relation_type
      else (msg, true, [])

  -- The loop over the around aspects: whether to go on, and the tells of the aspects in order.
  unfoldable pub run_around :
      List AroundAspect → Option NodeRef → RuleMsg → String → Bool → Bool × List Tell
  run_around [] self msg relation_type tell_next = (tell_next, [])
  run_around (aop ∷ aops) self msg relation_type tell_next =
      let (msg', go_on, tells) = around_round aop self msg relation_type in
      let (result, later) = run_around aops self msg' relation_type (go_on && tell_next) in
      (result, tells ++ later)

  unfoldable pub execute_around_aop : NodeRef → RuleMsg → String → Bool × List Tell
  unfolding run_around execute_before_aop
  execute_around_aop next msg relation_type =
      run_around w.around_aspects (some next)
        (execute_before_aop w.before_aspects (some next) msg relation_type) relation_type true

  -- `OnMsg` of the node in its context `c'`, whose parent is `c`: after a panic the deferred function
  -- counts the child as done. (The message that the after aspects make there is dropped.)
  abbrev pub call_node : ℕ → ℕ → NodeRef → RuleMsg → State → State
  call_node c c' next msg s =
      let s' = tell_all c' (w.on_msg next msg).tells (log (on_msg_called next msg) s) in
      if (w.on_msg next msg).panics then done c s' else s'

  -- The message that the node gets: the one that was told, with its map as the aspects left it.
  abbrev pub handed : NodeRef → RuleMsg → String → RuleMsg
  handed next msg relation_type = record msg { metadata = w.left_metadata next msg relation_type }

  -- `tellNext`. What the aspects returned is not handed on.
  unfoldable pub tell_next : ℕ → RuleMsg → NodeRef → String → State → State
  unfolding new_next_node_rule_context execute_around_aop tell_all child_done
  tell_next c msg next relation_type s =
      let c' = s.next in
      let s' = record s {
        contexts = update s.contexts c' (new_next_node_rule_context c next s);
        next = suc s.next;
      } in
      let (go_on, tells) = execute_around_aop next msg relation_type in
      let s'' = tell_all c' tells s' in
      if go_on then call_node c c' next (handed next msg relation_type) s'' else s''

  unfoldable pub first_task : ℕ → RuleMsg → Err → Option NodeRef → State → State
  first_task c msg e none s = do_on_end w.global_on_end c msg e "" s
  first_task c msg e (some self) s = tell_next c msg self "" s

  unfoldable pub run_task : Task → State → State
  unfolding tell_next do_on_end child_done first_task
  run_task (first_node c msg e) s = first_task c msg e (s.contexts c).self s
  run_task (next_node c msg next relation_type) s = tell_next c msg next relation_type s
  run_task (branch_end c msg e relation_type) s =
      done c (log (on_end_called c msg e relation_type) s)
  run_task (global_end msg e) s = log (global_on_end_called msg e) s

  -- A worker takes the task at some position; a position past the end takes none.
  unfoldable pub step : ℕ → State → State
  unfolding run_task
  step i s = elim (get_elem? s.tasks i) [
    | none ↦ s
    | some task ↦ run_task task (record s { tasks = take i s.tasks ++ drop (suc i) s.tasks })
  ]

  unfoldable pub run : List ℕ → State → State
  unfolding step
  run [] s = s
  run (i ∷ schedule) s = run schedule (step i s)

-- The root context of a message as `onMsgAndWait` makes it: both callbacks are set.
unfoldable pub root_context : Option NodeRef → Context
root_context first = record {
  self = first;
  is_first = true;
  on_end = true;
  waiting_count = 0;
  parent_rule_ctx = none;
  on_all_node_completed = true;
  on_all_node_completed_done = false;
  skip_tell_next = false;
}

unfoldable pub initial : Option NodeRef → State
unfolding root_context
initial first = record { contexts = λ a. root_context first; next = 1; tasks = []; events = [] }

-- `rootCtxCopy.TellNext(msg)` with no relation type.
unfoldable pub start : World → Option NodeRef → RuleMsg → State
unfolding initial tell
start w first msg =
    tell w 0 (record { msg = msg; err = none; relation_types = none }) (initial first)
