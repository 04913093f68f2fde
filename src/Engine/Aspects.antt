-- ===== src/Engine/Aspects.antt =====
-- What the aspects before and around a node can change (`executeAroundAop` and `tellNext`, engine.go).
use rulego.Prelude.{
  ℕ, String, ◌≡◌, refl, ap, inl, inr, true, Option, some, List, [], ◌∷◌, ◌++◌, Bool-cases, All,
}
use rulego.Msg.{RuleMsg}
use rulego.Chain.{NodeRef}
use rulego.Engine.Context.{State}
use rulego.Engine.Run.{
  AroundAspect, World, run_around, around_round, execute_before_aop, execute_around_aop, call_node,
  handed, tell_next, tell_all,
}
use rulego.Engine.Tasks.{added}

-- An aspect that lets the engine go on, and tells nothing, whatever it makes of the message.
abbrev pub IsCalm : AroundAspect → Type 0
IsCalm aop =
    (self : Option NodeRef) (msg : RuleMsg) (r : String)
    → ((aop.around self msg r).1 ≡ true) × ((aop.around self msg r).2 ≡ [])

around_round-calm :
    (w : World) (aop : AroundAspect) (self : Option NodeRef) (msg : RuleMsg) (r : String)
    → IsCalm aop
    → ((around_round w aop self msg r).1 ≡ true) × ((around_round w aop self msg r).2 ≡ [])
around_round-calm w aop self msg r h = elim (Bool-cases (aop.point_cut self msg r)) [
  | inl cut ↦ rw cut (h self msg r)
  | inr past ↦ rw past (refl, refl)
]

run_around-calm :
    (w : World) (aops : List AroundAspect) (self : Option NodeRef) (msg : RuleMsg) (r : String)
    → All IsCalm aops
    → run_around w aops self msg r true ≡ (true, [])
unfolding run_around
run_around-calm w [] self msg r h = refl
run_around-calm w (aop ∷ aops) self msg r (h, hs) =
    let (on, silent) = around_round-calm w aop self msg r h in
    rw (on, silent) (ap (λ t. (t.0, [] ++ t.1)) (run_around-calm w aops self _ r hs))

pub tell_next-ignores_aspects :
    (w : World) (c : ℕ) (msg : RuleMsg) (n : NodeRef) (r : String) (s : State)
    → All IsCalm w.around_aspects
    → tell_next w c msg n r s ≡ call_node w c s.next n (handed w n msg r) (added w c n s)
unfolding tell_next execute_around_aop tell_all
tell_next-ignores_aspects w c msg n r s h =
    rw
      (
        run_around-calm w w.around_aspects (some n)
            (execute_before_aop w w.before_aspects (some n) msg r) r h,
        tell_next,
      )
      refl
