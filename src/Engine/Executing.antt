-- ===== src/Engine/Executing.antt =====
-- `ExecuteNode` of engine.go: a node runs on its own, under a context without a parent.
use rulego.Prelude.{
  ℕ, String, ◌≡◌, refl, ap, ◌∙◌, Bool, true, false, Option, none, some, List, [], ◌∷◌, All,
}
use Prim.Native.String.{◌++◌ as ◌+++◌}
use rulego.Msg.{RuleMsg, copy}
use rulego.Chain.{NodeRef}
use rulego.Engine.Context.{
  Err, Context, State, log, do_on_end, submit_tack, on_msg_called, on_end_called, branch_end,
  complete, child_done,
}
use rulego.Engine.Run.{
  World, Tell, tell, tell_all, tell_relations, tell_next, run, run_task, step, first_task, handed,
  branch, next_of, root_context, execute_after_aop, new_next_node_rule_context,
}
use rulego.Engine.Tasks.{call_node-tells, added}
use rulego.Engine.Aspects.{IsCalm, tell_next-ignores_aspects}

-- The context of a node that is executed: the callback for the completion is not set.
unfoldable pub execution_context : NodeRef → Bool → Context
unfolding root_context
execution_context n skip = record (root_context (some n)) {
  on_all_node_completed = false;
  skip_tell_next = skip;
}

abbrev pub execution : NodeRef → Bool → State
unfolding execution_context
execution n skip = record {
  contexts = λ a. execution_context n skip;
  next = 1;
  tasks = [];
  events = [];
}

-- The node is told the message under the relation type "", or the callback gets the error at once.
unfoldable pub executed : World → Option NodeRef → String → RuleMsg → Bool → State
unfolding tell execution_context
executed w (some n) id msg skip =
    tell w 0 (record { msg = msg; err = none; relation_types = some ("" ∷ []) }) (execution n skip)
executed w none id msg skip = record {
  contexts = λ a. root_context none;
  next = 1;
  tasks = [];
  events = on_end_called 0 msg (some ("node id not found nodeId=" +++ id)) "Failure" ∷ [];
}

-- `find` is `GetNodeById` of the chain.
unfoldable pub execute_node : World → (String → Option NodeRef) → String → RuleMsg → Bool → State
unfolding executed
execute_node w find id msg skip = executed w (find id) id msg skip

-- A branch that skips the next nodes ends, whichever next nodes there are.
branch-skips :
    (w : World) (c : ℕ) (msg : RuleMsg) (e : Err) (r : String) (nodes : List NodeRef) (s : State)
    → branch w c msg e r nodes true s ≡ do_on_end w.global_on_end c msg e r s
branch-skips w c msg e r [] s = refl
branch-skips w c msg e r (n ∷ nodes) s = refl

module _ (w : World) (n : NodeRef) where
  abbrev told : State
  unfolding execution_context
  told = record (execution n true) { tasks = [] }

  abbrev called : RuleMsg → State
  unfolding execution_context
  called msg = log (on_msg_called n msg) (added w 0 n told)

  -- The node ran, and its branch is still to end.
  abbrev answered : RuleMsg → RuleMsg → Err → String → State
  unfolding execution_context submit_tack
  answered msg t e r = submit_tack (branch_end 1 t e r) (called msg)

  tell_next-answered :
      (msg t : RuleMsg) (e : Err) (r : String)
      → All IsCalm w.around_aspects
      → w.global_on_end ≡ false
      → w.on_msg n (handed w n msg "") ≡ record {
        tells = record { msg = t; err = e; relation_types = some (r ∷ []) } ∷ [];
        panics = false;
      }
      → tell_next w 0 msg n "" told
        ≡ answered (handed w n msg "") (execute_after_aop w w.after_aspects (some n) t e r) e r
  unfolding tell_all tell tell_relations told called answered execution_context
      new_next_node_rule_context do_on_end submit_tack
  tell_next-answered msg t e r calm quiet answer =
      let t' = execute_after_aop w w.after_aspects (some n) t e r in
      let m = handed w n msg "" in
      let one : Tell = record { msg = t; err = e; relation_types = some (r ∷ []) } in
      tell_next-ignores_aspects w 0 msg n "" told calm
      ∙ call_node-tells w 0 1 n m one (added w 0 n told) (ap (λ b. b.panics) answer)
          (ap (λ b. b.tells) answer)
      ∙ branch-skips w 1 t' e r (next_of w (some n) r) (called m)
      ∙ ap (λ g. do_on_end g 1 t' e r (called m)) quiet

  answered-ends :
      (msg t : RuleMsg) (e : Err) (r : String)
      → let s = step w 0 (answered msg t e r) in
        (s.events ≡ on_msg_called n msg ∷ on_end_called 1 t e r ∷ []) × (s.tasks ≡ [])
  unfolding step run_task child_done complete told called answered execution_context
      new_next_node_rule_context submit_tack
  answered-ends msg t e r = (refl, refl)

-- For a node that is found, tells once, under one relation type, and does not panic, with around
-- aspects that let it run and tell nothing, and no callback in the configuration: `ExecuteNode`
-- with `skipTellNext` runs this node alone, whatever follows it in the chain. When its two tasks
-- have run, the node was called once, with the message, its metadata as the aspects left them, and
-- the callback once, with what the after aspects made of the node's answer, the node's error and
-- relation type, and nothing is left to run.
pub execute_node-skips :
    (w : World) (find : String → Option NodeRef) (id : String) (n : NodeRef) (msg t : RuleMsg)
    (e : Err) (r : String)
    → find id ≡ some n
    → All IsCalm w.around_aspects
    → w.global_on_end ≡ false
    → w.on_msg n (handed w n (copy w.env msg) "") ≡ record {
      tells = record { msg = t; err = e; relation_types = some (r ∷ []) } ∷ [];
      panics = false;
    }
    → let s = run w (0 ∷ 0 ∷ []) (execute_node w find id msg true) in
      (s.events
        ≡ on_msg_called n (handed w n (copy w.env msg) "")
          ∷ on_end_called 1 (execute_after_aop w w.after_aspects (some n) t e r) e r
          ∷ [])
      × (s.tasks ≡ [])
unfolding execute_node executed execution_context tell run step run_task first_task submit_tack told
execute_node-skips w find id n msg t e r found calm quiet answer =
    rw (found, tell_next-answered w n (copy w.env msg) t e r calm quiet answer)
      (answered-ends w n (handed w n (copy w.env msg) "")
        (execute_after_aop w w.after_aspects (some n) t e r) e r)
