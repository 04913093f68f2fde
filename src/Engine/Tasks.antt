-- ===== src/Engine/Tasks.antt =====
-- Each task keeps the balance of the counters, for nodes that tell once, under one relation type.
use rulego.Prelude.{
  ℕ, zero, suc, ◌+◌, ◌^◌, ◌<◌, String, ◌≡◌, refl, sym, ap, ◌∙◌, ◌≢◌, ◌⊎◌, inl, inr, Bool, true,
  false, Option, none, some, [], ◌∷◌, ◌++◌, arith, nat_eq, is_some, length, get_elem?, take, drop,
}
use mathlib.Core.Path.{subst}
use mathlib.Core.Bool.{false≢true}
use native.Mathlib.Nat.{zero-add}
use rulego.Msg.{RuleMsg}
use rulego.Chain.{NodeRef}
use rulego.Engine.Adopting.{
  adopt, adopt_owes, adopt_ends, adopt_alive, tells_live, release, release_live, release_root,
}
use rulego.Engine.Count.{
  one_if, sum_by-remove, sum_by-append, sum_by-singleton, tells_at, ends_at, tell_weight,
  end_weight, turn_on,
}
use rulego.Engine.Context.{
  Err, Task, first_node, branch_end, Event, on_msg_called, on_end_called, State, update, log, done,
}
use rulego.Engine.Run.{
  Tell, World, tell, tell_all, execute_around_aop, new_next_node_rule_context, call_node, handed,
  tell_next, first_task,
}
use rulego.Engine.Done.{
  parent_of, waiting_of, IsGoodState, IsRecorded, completions, completed_weight, IsSettled,
}
use rulego.Engine.Telling.{IsOpen, IsSingle, open_done, do_on_end_settles, tell_settles}

-- Nodes that do not panic and tell once, under at most one relation type; aspects that either let the
-- engine go on without telling, or stop it and tell once; and less than 2 ^ 31 next nodes.
pub record IsDisciplined (w : World) : Type 0 where
  pub fan_out : (n : NodeRef) (r : String) → length (w.next_nodes n r) < 2 ^ 31
  pub nodes :
      (n : NodeRef) (msg : RuleMsg)
      → ((w.on_msg n msg).panics ≡ false)
        × (t : Tell) × ((w.on_msg n msg).tells ≡ t ∷ [])
        × IsSingle t
  pub around :
      (n : NodeRef) (msg : RuleMsg) (r : String)
      → (execute_around_aop w n msg r ≡ (true, []))
        ⊎ ((t : Tell) × (execute_around_aop w n msg r ≡ (false, t ∷ [])) × IsSingle t)

-- A task is taken off the list.
abbrev pub without : ℕ → State → State
without i s = record s { tasks = take i s.tasks ++ drop (suc i) s.tasks }

-- The context that runs a node is made: it is open, and its parent waits for it in place of the task.
abbrev pub added : World → ℕ → NodeRef → State → State
added w c n s = record s {
  contexts = update s.contexts s.next (new_next_node_rule_context w c n s);
  next = suc s.next;
}

pub log-IsRecorded :
    {l : Bool} (event : Event) (s : State)
    → completed_weight event ≡ 0
    → IsRecorded l s
    → IsRecorded l (log event s)
log-IsRecorded event s quiet r =
    let same : completions (log event s) ≡ completions s = omega (
      arith,
      sum_by-append completed_weight s.events (event ∷ []),
      sum_by-singleton completed_weight event,
    ) in
    record {
      root_first = r.root_first;
      root_callback = r.root_callback;
      others_later = r.others_later;
      others_quiet = r.others_quiet;
      others_self = r.others_self;
      open_root = λ h. ((r.open_root h).0, same ∙ (r.open_root h).1);
      closed_root = λ h. same ∙ r.closed_root h;
    }

log-IsOpen :
    (c : ℕ) (live : ℕ → Bool) (event : Event) (s : State)
    → completed_weight event ≡ 0
    → IsOpen c live s
    → IsOpen c live (log event s)
log-IsOpen c live event s quiet o = record {
  good = o.good;
  alive = o.alive;
  waits = o.waits;
  owes = o.owes;
  no_end = o.no_end;
  recorded = log-IsRecorded event s quiet o.recorded;
}

pub without-IsRecorded :
    {l : Bool} (i : ℕ) (s : State) → IsRecorded l s → IsRecorded l (without i s)
without-IsRecorded i s r = record {
  root_first = r.root_first;
  root_callback = r.root_callback;
  others_later = r.others_later;
  others_quiet = r.others_quiet;
  others_self = r.others_self;
  open_root = r.open_root;
  closed_root = r.closed_root;
}

root_unchanged : (live : ℕ → Bool) (next : ℕ) → 0 < next → live 0 ≡ turn_on next live 0
root_unchanged live next p = ground arith

added-IsRecorded :
    (w : World) (c : ℕ) (n : NodeRef) (l : Bool) (s : State)
    → 0 < s.next
    → IsRecorded l s
    → IsRecorded l (added w c n s)
unfolding new_next_node_rule_context
added-IsRecorded w c n l s p r = record {
  root_first = ground (arith, r.root_first);
  root_callback = ground (arith, r.root_callback);
  others_later = λ a q b. ground (arith, r.others_later a q);
  others_quiet = λ a q b. ground (arith, r.others_quiet a q);
  others_self = λ a q b. ground (arith, r.others_self a q);
  open_root = λ h. (ground (arith, r.open_root h), (r.open_root h).1);
  closed_root = λ h. r.closed_root h;
}

-- The new context of a node is open.
pub added-IsOpen :
    (w : World) (live : ℕ → Bool) (c : ℕ) (n : NodeRef) (task : Task) (i : ℕ) (s : State)
    → ((a : ℕ) → tell_weight a task ≡ one_if (nat_eq c a))
    → ((a : ℕ) → end_weight a task ≡ 0)
    → get_elem? s.tasks i ≡ some task
    → IsGoodState none live s
    → IsRecorded (live 0) s
    → IsOpen s.next (turn_on s.next live) (added w c n (without i s))
unfolding new_next_node_rule_context
added-IsOpen w live c n task i s tw ew at g r =
    let s' = added w c n (without i s) in
    let T' : ℕ → ℕ = λ a. tells_at a s'.tasks in
    let E' : ℕ → ℕ = λ a. ends_at a s'.tasks in
    let tells : (a : ℕ) → tells_at a s.tasks ≡ one_if (nat_eq c a) + T' a =
      λ a. omega (arith, sum_by-remove (tell_weight a) s.tasks i task at, tw a) in
    let ends : (a : ℕ) → E' a ≡ ends_at a s.tasks =
      λ a. omega (arith, sum_by-remove (end_weight a) s.tasks i task at, ew a) in
    let parents : (a : ℕ) → a ≢ s.next → parent_of s' a ≡ parent_of s a = λ a ne. ground arith in
    let own : parent_of s' s.next ≡ some c = ground arith in
    let waits : (a : ℕ) → a ≢ s.next → waiting_of s' a ≡ waiting_of s a = λ a ne. ground arith in
    record {
      good = adopt (parent_of s') (waiting_of s') T' E' c g tells ends parents own waits;
      alive = adopt_alive live s.next;
      waits = ground arith;
      owes = adopt_owes (parent_of s') (waiting_of s') T' E' c g tells ends parents own waits;
      no_end = adopt_ends (parent_of s') (waiting_of s') T' E' c g tells ends parents own waits;
      recorded =
          subst (λ l. IsRecorded l s') (root_unchanged live s.next g.inhabited)
            (added-IsRecorded w c n (live 0) (without i s) g.inhabited (without-IsRecorded i s r));
    }

pub call_node-tells :
    (w : World) (c c' : ℕ) (n : NodeRef) (msg : RuleMsg) (t : Tell) (s : State)
    → (w.on_msg n msg).panics ≡ false
    → (w.on_msg n msg).tells ≡ t ∷ []
    → call_node w c c' n msg s ≡ tell w c' t (log (on_msg_called n msg) s)
unfolding tell_all
call_node-tells w c c' n msg t s calm one = rw (calm, one)

tell_next-goes_on :
    (w : World) (c : ℕ) (msg : RuleMsg) (n : NodeRef) (r : String) (s : State)
    → execute_around_aop w n msg r ≡ (true, [])
    → tell_next w c msg n r s ≡ call_node w c s.next n (handed w n msg r) (added w c n s)
unfolding tell_next
tell_next-goes_on w c msg n r s h = rw (h, tell_next)

tell_next-stops :
    (w : World) (c : ℕ) (msg : RuleMsg) (n : NodeRef) (r : String) (t : Tell) (s : State)
    → execute_around_aop w n msg r ≡ (false, t ∷ [])
    → tell_next w c msg n r s ≡ tell w s.next t (added w c n s)
unfolding tell_next
tell_next-stops w c msg n r t s h = rw (h, tell_next)

module _ (w : World) (d : IsDisciplined w) where
  pub tell_next_settles :
      (c : ℕ) (live : ℕ → Bool) (n : NodeRef) (msg : RuleMsg) (r : String) (s : State)
      → 0 < s.next
      → IsOpen s.next live (added w c n s)
      → IsSettled (tell_next w c msg n r s)
  tell_next_settles c live n msg r s p o = elim (d.around n msg r) [
    | inl on ↦
        let m = handed w n msg r in
        let (calm, t, one, single) = d.nodes n m in
        rw
          (tell_next-goes_on w c msg n r s on
            ∙ call_node-tells w c s.next n m t (added w c n s) calm one)
          (tell_settles w s.next live t (log (on_msg_called n m) (added w c n s)) d.fan_out p single
            (log-IsOpen s.next live (on_msg_called n m) (added w c n s) refl o))
    | inr (t, off, single) ↦
        rw (tell_next-stops w c msg n r t s off)
          (tell_settles w s.next live t (added w c n s) d.fan_out p single o)
  ]

  pub first_settles :
      (c : ℕ) (msg : RuleMsg) (e : Err) (i : ℕ) (live : ℕ → Bool) (s : State)
      (self : Option NodeRef)
      → get_elem? s.tasks i ≡ some (first_node c msg e)
      → (s.contexts c).self ≡ self
      → IsGoodState none live s
      → IsRecorded (live 0) s
      → IsSettled (first_task w c msg e self (without i s))
  unfolding first_task
  first_settles c msg e i live s (some n) at own g r =
      tell_next_settles c (turn_on s.next live) n msg "" (without i s) g.inhabited
        (added-IsOpen w live c n (first_node c msg e) i s (λ a. refl) (λ a. refl) at g r)
  first_settles zero msg e i live s none at own g r =
      let (good, l, waits, owes, no_end) =
        release_root (λ a. tells_at a (without i s).tasks) (λ a. ends_at a (without i s).tasks) g
          (λ a. sum_by-remove (tell_weight a) s.tasks i (first_node 0 msg e) at)
          (λ a. sum_by-remove (end_weight a) s.tasks i (first_node 0 msg e) at ∙ zero-add _) in
      do_on_end_settles w.global_on_end 0 live msg e "" (without i s) (record {
        good = good;
        alive = l;
        waits = waits;
        owes = owes;
        no_end = no_end;
        recorded = without-IsRecorded i s r;
      })
  first_settles (suc c) msg e i live s none at own g r =
      let l : live (suc c) ≡ true =
        tells_live (suc c) _ g
          (sum_by-remove (tell_weight (suc c)) s.tasks i (first_node (suc c) msg e) at) in
      absurd (
        false≢true (sym (ap is_some own) ∙ r.others_self (suc c) (omega arith) (g.below (suc c) l)))

  pub branch_end_settles :
      (c : ℕ) (msg : RuleMsg) (e : Err) (rel : String) (i : ℕ) (live : ℕ → Bool) (s : State)
      → get_elem? s.tasks i ≡ some (branch_end c msg e rel)
      → IsGoodState none live s
      → IsRecorded (live 0) s
      → IsSettled (done c (log (on_end_called c msg e rel) (without i s)))
  branch_end_settles c msg e rel i live s at g r =
      let lessE : (a : ℕ)
          → ends_at a s.tasks ≡ one_if (nat_eq c a) + ends_at a (without i s).tasks =
        λ a. sum_by-remove (end_weight a) s.tasks i (branch_end c msg e rel) at in
      let sameT : (a : ℕ) → tells_at a s.tasks ≡ tells_at a (without i s).tasks =
        λ a. sum_by-remove (tell_weight a) s.tasks i (branch_end c msg e rel) at ∙ zero-add _ in
      let (good, waits, owes, no_end) =
        release (λ a. tells_at a (without i s).tasks) (λ a. ends_at a (without i s).tasks) c g sameT
          lessE in
      open_done c live (log (on_end_called c msg e rel) (without i s)) (
        log-IsOpen c live (on_end_called c msg e rel) (without i s) refl (record {
          good = good;
          alive =
              release_live (λ a. tells_at a (without i s).tasks)
                (λ a. ends_at a (without i s).tasks) c g lessE;
          waits = waits;
          owes = owes;
          no_end = no_end;
          recorded = without-IsRecorded i s r;
        }))
