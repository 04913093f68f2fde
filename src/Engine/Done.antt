-- ===== src/Engine/Done.antt =====
-- `childDone` keeps the balance: it counts one of what a context waits for, and where nothing is
-- left it goes on with the parent, up to the callback of the root.
use rulego.Prelude.{
  ℕ, zero, suc, ◌+◌, ◌<◌, ◌≡◌, refl, sym, ap, ◌∙◌, ◌≢◌, inl, inr, Bool, true, false, Option, none,
  some, [], ◌∷◌, arith, Bool-cases, is_some,
}
use rulego.Prelude.Words.{dec32, sle32}
use mathlib.Core.Path.{subst, fun_ext}
use mathlib.Core.Bool.{false≢true}
use rulego.Engine.Count.{
  sum_by, sum_by-append, sum_by-singleton, tells_at, ends_at, children, turn_off,
}
use rulego.Engine.Balance.{
  IsBalanced, IsDue, IsDue-waits, IsDue-finished, IsGood, close, close_root, recount, fill,
}
use rulego.Engine.Context.{Event, completed, State, write, log, complete, notify, child_done}

abbrev pub parent_of : State → ℕ → Option ℕ
parent_of s d = (s.contexts d).parent_rule_ctx

abbrev pub waiting_of : State → ℕ → ℕ
waiting_of s d = (s.contexts d).waiting_count

abbrev pub IsGoodState : Option ℕ → (ℕ → Bool) → State → Type 0
IsGoodState hole live s =
    IsGood hole live (parent_of s) (waiting_of s) s.next (λ c. tells_at c s.tasks)
      (λ c. ends_at c s.tasks)

abbrev pub owed : (ℕ → Bool) → State → ℕ → ℕ
owed live s c = tells_at c s.tasks + children s.next (parent_of s) live c

abbrev pub completed_weight : Event → ℕ
completed_weight (completed zero) = 1
completed_weight _ = 0

-- How often the callback of the root was called.
abbrev pub completions : State → ℕ
completions s = sum_by completed_weight s.events

-- The callback of the root has been called just when the root is done, and no other context has one.
pub record IsRecorded (live_root : Bool) (s : State) : Type 0 where
  pub root_first : (s.contexts 0).is_first ≡ true
  pub root_callback : (s.contexts 0).on_all_node_completed ≡ true
  pub others_later : (c : ℕ) → 0 < c → c < s.next → (s.contexts c).is_first ≡ false
  pub others_quiet : (c : ℕ) → 0 < c → c < s.next → (s.contexts c).on_all_node_completed ≡ false
  pub others_self : (c : ℕ) → 0 < c → c < s.next → is_some (s.contexts c).self ≡ true
  pub open_root :
      live_root ≡ true → ((s.contexts 0).on_all_node_completed_done ≡ false) × (completions s ≡ 0)
  pub closed_root : live_root ≡ false → completions s ≡ 1

-- The new counter of a context.
abbrev pub counted : ℕ → ℕ → State → State
counted c w s = write c (record (s.contexts c) { waiting_count = w }) s

pub counted_parent : (c w : ℕ) (s : State) → parent_of (counted c w s) ≡ parent_of s
counted_parent c w s = fun_ext (λ d. ground (arith))

pub counted_self : (c w : ℕ) (s : State) → waiting_of (counted c w s) c ≡ w
counted_self c w s = ground arith

counted_other :
    (c w : ℕ) (s : State) (a : ℕ) → a ≢ c → waiting_of (counted c w s) a ≡ waiting_of s a
counted_other c w s a h = ground arith

pub counted-IsRecorded :
    (c w : ℕ) (s : State) {l : Bool} → IsRecorded l s → IsRecorded l (counted c w s)
counted-IsRecorded c w s {l} r = record {
  root_first = ground (arith, r.root_first);
  root_callback = ground (arith, r.root_callback);
  others_later = λ a p b. ground (arith, r.others_later a p b);
  others_quiet = λ a p b. ground (arith, r.others_quiet a p b);
  others_self = λ a p b. ground (arith, r.others_self a p b);
  open_root = λ h. (ground (arith, (r.open_root h).0), (r.open_root h).1);
  closed_root = λ h. r.closed_root h;
}

-- Only a counter changes, so the balance with a hole there is kept.
pub counted-IsGoodState :
    {live : ℕ → Bool} (c w : ℕ) (s : State)
    → IsGoodState (some c) live s
    → IsGoodState (some c) live (counted c w s)
counted-IsGoodState {live} c w s g =
    subst
      (λ parent.
        IsGood (some c) live parent (waiting_of (counted c w s)) s.next (λ a. tells_at a s.tasks)
          (λ a. ends_at a s.tasks))
      (sym (counted_parent c w s)) (recount c (waiting_of (counted c w s)) (counted_other c w s) g)

-- What `childDone` is called on, and what it leaves.
pub record IsReady (c : ℕ) (live : ℕ → Bool) (s : State) : Type 0 where
  pub good : IsGoodState (some c) live s
  pub alive : live c ≡ true
  pub due : IsDue c (waiting_of s c) (owed live s c) (ends_at c s.tasks)
  pub recorded : IsRecorded (live 0) s

abbrev pub IsSettled : State → Type 0
IsSettled s = (live : ℕ → Bool) × IsGoodState none live s × IsRecorded (live 0) s

pub owed-counted :
    (live : ℕ → Bool) (c w : ℕ) (s : State) (a : ℕ) → owed live (counted c w s) a ≡ owed live s a
owed-counted live c w s a =
    ap (λ parent. tells_at a s.tasks + children s.next parent live a) (counted_parent c w s)

-- The context still waits.
still_waits :
    (c : ℕ) (live : ℕ → Bool) (s : State)
    → IsReady c live s
    → sle32 (dec32 (waiting_of s c)) 0 ≡ false
    → IsSettled (counted c (dec32 (waiting_of s c)) s)
still_waits c live s r h =
    let w = dec32 (waiting_of s c) in
    (
      live,
      fill c (counted-IsGoodState c w s r.good) (
          subst (λ v. IsBalanced c v (owed live (counted c w s) c) (ends_at c s.tasks))
            (sym (counted_self c w s))
            (subst (λ o. IsBalanced c w o (ends_at c s.tasks)) (sym (owed-counted live c w s c))
              (IsDue-waits c (waiting_of s c) (owed live s c) (ends_at c s.tasks) r.due h).1)),
      counted-IsRecorded c w s r.recorded,
    )

-- The context has nothing left, and its parent counts it.
parent-IsReady :
    (c p : ℕ) (live : ℕ → Bool) (s : State)
    → IsReady c live s
    → sle32 (dec32 (waiting_of s c)) 0 ≡ true
    → parent_of s c ≡ some p
    → p < c
    → IsReady p (turn_off c live) (counted c (dec32 (waiting_of s c)) s)
parent-IsReady c p live s r h up lt =
    let w = dec32 (waiting_of s c) in
    let s' = counted c w s in
    let (o, e) = IsDue-finished c (waiting_of s c) (owed live s c) (ends_at c s.tasks) r.due h in
    let (good, alive, due) =
      close c p (counted-IsGoodState c w s r.good) r.alive
        (ap (λ f. f c) (counted_parent c w s) ∙ up) lt (owed-counted live c w s c ∙ o) e in
    record {
      good = good;
      alive = alive;
      due = due;
      recorded =
          subst (λ l. IsRecorded l s') (ground (arith)) (counted-IsRecorded c w s r.recorded);
    }

child_done-waits :
    (fuel c : ℕ) (s : State)
    → sle32 (dec32 (waiting_of s c)) 0 ≡ false
    → child_done (suc fuel) c s ≡ counted c (dec32 (waiting_of s c)) s
unfolding child_done
child_done-waits fuel c s h = rw (h, child_done)

child_done-root :
    (fuel c : ℕ) (s : State)
    → sle32 (dec32 (waiting_of s c)) 0 ≡ true
    → parent_of s c ≡ none
    → child_done (suc fuel) c s ≡ complete c (counted c (dec32 (waiting_of s c)) s)
unfolding child_done
child_done-root fuel c s h up =
    rw (h, child_done)
      (ap (λ o. complete c (notify (child_done fuel) o (counted c (dec32 (waiting_of s c)) s))) up)

child_done-parent :
    (fuel c p : ℕ) (s : State)
    → sle32 (dec32 (waiting_of s c)) 0 ≡ true
    → parent_of s c ≡ some p
    → child_done (suc fuel) c s
      ≡ complete c (child_done fuel p (counted c (dec32 (waiting_of s c)) s))
unfolding child_done
child_done-parent fuel c p s h up =
    rw (h, child_done)
      (ap (λ o. complete c (notify (child_done fuel) o (counted c (dec32 (waiting_of s c)) s))) up)

complete_quiet :
    (c : ℕ) (s : State) → (s.contexts c).on_all_node_completed ≡ false → complete c s ≡ s
unfolding complete
complete_quiet c s h = rw (h, complete)

-- The root is marked and its callback is called.
abbrev marked : State → State
marked s =
    log (completed 0) (write 0 (record (s.contexts 0) { on_all_node_completed_done = true }) s)

complete_loud :
    (s : State)
    → (s.contexts 0).on_all_node_completed ≡ true
    → (s.contexts 0).on_all_node_completed_done ≡ false
    → complete 0 s ≡ marked s
unfolding complete
complete_loud s h d = rw (h, d, complete)

marked_parent : (s : State) → parent_of (marked s) ≡ parent_of s
marked_parent s = fun_ext (λ d. ground arith)

marked_waiting : (s : State) → waiting_of (marked s) ≡ waiting_of s
marked_waiting s = fun_ext (λ d. ground arith)

marked-IsRecorded : (s : State) → IsRecorded true s → IsRecorded false (marked s)
marked-IsRecorded s r = record {
  root_first = ground (arith, r.root_first);
  root_callback = ground (arith, r.root_callback);
  others_later = λ a p b. ground (arith, r.others_later a p b);
  others_quiet = λ a p b. ground (arith, r.others_quiet a p b);
  others_self = λ a p b. ground (arith, r.others_self a p b);
  open_root = λ h. absurd (false≢true h);
  closed_root = λ h. omega (
    arith,
    sum_by-append completed_weight s.events (completed 0 ∷ []),
    sum_by-singleton completed_weight (completed 0),
    (r.open_root refl).1,
  );
}

complete_root :
    (live : ℕ → Bool) (s : State)
    → IsGoodState none (turn_off 0 live) s
    → IsRecorded true s
    → IsSettled (complete 0 s) × ((complete 0 s).next ≡ s.next)
complete_root live s g r = rw (complete_loud s r.root_callback (r.open_root refl).0) (
  (
    turn_off 0 live,
    subst
        (λ w.
          IsGood none (turn_off 0 live) (parent_of (marked s)) w s.next (λ c. tells_at c s.tasks)
            (λ c. ends_at c s.tasks))
        (sym (marked_waiting s))
        (subst
          (λ u.
            IsGood none (turn_off 0 live) u (waiting_of s) s.next (λ c. tells_at c s.tasks)
              (λ c. ends_at c s.tasks))
          (sym (marked_parent s)) g),
    marked-IsRecorded s r,
  ),
  refl,
)

-- The root has nothing left.
root_settles :
    (live : ℕ → Bool) (s : State)
    → IsReady 0 live s
    → sle32 (dec32 (waiting_of s 0)) 0 ≡ true
    → IsGoodState none (turn_off 0 live) (counted 0 (dec32 (waiting_of s 0)) s)
      × IsRecorded true (counted 0 (dec32 (waiting_of s 0)) s)
root_settles live s r h =
    let w = dec32 (waiting_of s 0) in
    let (o, e) = IsDue-finished 0 (waiting_of s 0) (owed live s 0) (ends_at 0 s.tasks) r.due h in
    (
      close_root (counted-IsGoodState 0 w s r.good) r.alive (owed-counted live 0 w s 0 ∙ o) e,
      counted-IsRecorded 0 w s (subst (λ l. IsRecorded l s) r.alive r.recorded),
    )

pub child_done_settles :
    (fuel c : ℕ) (live : ℕ → Bool) (s : State)
    → c < fuel
    → IsReady c live s
    → IsSettled (child_done fuel c s) × ((child_done fuel c s).next ≡ s.next)
child_done_settles zero c live s lt r = absurd (omega arith)
child_done_settles (suc fuel) zero live s lt r =
    elim (Bool-cases (sle32 (dec32 (waiting_of s 0)) 0)) [
      | inr more ↦ rw (child_done-waits fuel 0 s more) (still_waits 0 live s r more, refl)
      | inl finished ↦
          let (good, recorded) = root_settles live s r finished in
          rw (child_done-root fuel 0 s finished r.good.root)
            (complete_root live (counted 0 (dec32 (waiting_of s 0)) s) good recorded)
    ]
child_done_settles (suc fuel) (suc c) live s lt r =
    elim (Bool-cases (sle32 (dec32 (waiting_of s (suc c))) 0)) [
      | inr more ↦
          rw (child_done-waits fuel (suc c) s more) (still_waits (suc c) live s r more, refl)
      | inl finished ↦
          let (p, up, less) = r.good.up (suc c) (omega arith) (r.good.below (suc c) r.alive) in
          let s' = counted (suc c) (dec32 (waiting_of s (suc c))) s in
          let (settled, same) =
            child_done_settles fuel p (turn_off (suc c) live) s' (omega arith)
              (parent-IsReady (suc c) p live s r finished up less) in
          let quiet : ((child_done fuel p s').contexts (suc c)).on_all_node_completed ≡ false =
            settled.2.others_quiet (suc c) (omega arith)
              (omega (arith, same, r.good.below (suc c) r.alive)) in
          rw
            (child_done-parent fuel (suc c) p s finished up
              ∙ complete_quiet (suc c) (child_done fuel p s') quiet)
            (settled, same)
    ]
