-- ===== src/Engine/Completion.antt =====
-- When the engine calls the callback for the completion of all nodes (engine.go): `childDone` against
-- every schedule of tasks that run one at a time, for nodes that tell once, under one relation type.
use rulego.Prelude.{
  ℕ, ◌≡◌, refl, ◌∙◌, inl, inr, Bool, none, some, List, [], ◌∷◌, nat_eq, Option-cases, get_elem?,
  All,
}
use mathlib.Core.Path.{subst, fun_ext}
use native.Mathlib.Nat.{zero-add}
use rulego.Msg.{RuleMsg}
use rulego.Engine.Count.{sum_by-remove, tells_at, ends_at, tell_weight, end_weight}
use rulego.Engine.Balance.{IsGood}
use rulego.Engine.Context.{
  Err, Task, first_node, next_node, branch_end, global_end, State, global_on_end_called, log,
}
use rulego.Engine.Run.{World, run_task, step, run}
use rulego.Engine.Done.{parent_of, waiting_of, IsGoodState, IsRecorded, IsSettled}
use rulego.Engine.Tasks.{
  IsDisciplined, without, without-IsRecorded, log-IsRecorded, added-IsOpen, first_settles,
  branch_end_settles, tell_next_settles,
}

global_settles :
    (msg : RuleMsg) (e : Err) (i : ℕ) (live : ℕ → Bool) (s : State)
    → get_elem? s.tasks i ≡ some (global_end msg e)
    → IsGoodState none live s
    → IsRecorded (live 0) s
    → IsSettled (log (global_on_end_called msg e) (without i s))
global_settles msg e i live s at g r = (
  live,
  subst
      (λ T.
        IsGood none live (parent_of s) (waiting_of s) s.next T (λ a. ends_at a (without i s).tasks))
      (fun_ext (λ a. sum_by-remove (tell_weight a) s.tasks i (global_end msg e) at ∙ zero-add _))
      (subst (λ E. IsGood none live (parent_of s) (waiting_of s) s.next (λ a. tells_at a s.tasks) E)
        (fun_ext (λ a. sum_by-remove (end_weight a) s.tasks i (global_end msg e) at ∙ zero-add _))
        g),
  log-IsRecorded (global_on_end_called msg e) (without i s) refl (without-IsRecorded i s r),
)

module _ (w : World) (d : IsDisciplined w) where
  task_settles :
      (task : Task) (i : ℕ) (s : State)
      → get_elem? s.tasks i ≡ some task
      → IsSettled s
      → IsSettled (run_task w task (without i s))
  unfolding run_task
  task_settles (first_node c msg e) i s at (live, g, r) =
      first_settles w d c msg e i live s (s.contexts c).self at refl g r
  task_settles (next_node c msg n rel) i s at (live, g, r) =
      tell_next_settles w d c _ n msg rel (without i s) g.inhabited
        (added-IsOpen w live c n (next_node c msg n rel) i s (λ a. refl) (λ a. refl) at g r)
  task_settles (branch_end c msg e rel) i s at (live, g, r) =
      branch_end_settles w d c msg e rel i live s at g r
  task_settles (global_end msg e) i s at (live, g, r) = global_settles msg e i live s at g r

  step_settles : (i : ℕ) (s : State) → IsSettled s → IsSettled (step w i s)
  unfolding step
  step_settles i s h = elim (Option-cases (get_elem? s.tasks i)) [
    | inl past ↦ rw (past, step) h
    | inr (task, at) ↦ rw (at, step) (task_settles task i s at h)
  ]

  pub run_settles : (schedule : List ℕ) (s : State) → IsSettled s → IsSettled (run w schedule s)
  unfolding run
  run_settles [] s h = h
  run_settles (i ∷ schedule) s h = run_settles schedule (step w i s) (step_settles i s h)

-- Only calls of the callback of the configuration are left.
abbrev pub IsGlobal : Task → Type 0
IsGlobal (global_end msg e) = Unit
IsGlobal _ = ⊥

abbrev pub IsQuiet : State → Type 0
IsQuiet s = All IsGlobal s.tasks

abbrev only_root : ℕ → Bool
only_root a = nat_eq a 0
