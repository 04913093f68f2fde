-- ===== src/Engine/Telling.antt =====
-- A context that has just been made, or whose branch has just been taken off the list of tasks, is
-- settled by one `tell`: its nodes are spawned, or its branch ends.
use rulego.Prelude.{
  ℕ, zero, suc, ◌+◌, ◌^◌, ◌<◌, String, ◌≡◌, refl, sym, ◌∙◌, ◌≢◌, ◌⊎◌, inl, inr, Bool, true, false,
  Option, none, some, List, [], ◌∷◌, ◌++◌, arith, if◌then◌else◌, length,
}
use rulego.Prelude.Words.{inc32}
use rulego.Msg.{RuleMsg, copy}
use rulego.Chain.{NodeRef}
use rulego.Engine.Count.{
  sum_by-append, sum_by-singleton, tells_at, ends_at, tell_weight, end_weight,
}
use rulego.Engine.Balance.{IsBalanced, IsDue, reweigh, fill}
use rulego.Engine.Context.{
  Err, Task, next_node, branch_end, global_end, State, submit_tack, done, do_on_end,
}
use rulego.Engine.Run.{Tell, World, next_of, spawn, branch, tell, execute_after_aop}
use rulego.Engine.Done.{
  waiting_of, IsGoodState, owed, IsRecorded, counted, counted-IsGoodState, counted-IsRecorded,
  IsSettled, child_done_settles, owed-counted, counted_self,
}

tells_at-submit :
    (a : ℕ) (task : Task) (tasks : List Task)
    → tells_at a (tasks ++ task ∷ []) ≡ tells_at a tasks + tell_weight a task
tells_at-submit a task tasks =
    omega (
      arith,
      sum_by-append (tell_weight a) tasks (task ∷ []),
      sum_by-singleton (tell_weight a) task,
    )

ends_at-submit :
    (a : ℕ) (task : Task) (tasks : List Task)
    → ends_at a (tasks ++ task ∷ []) ≡ ends_at a tasks + end_weight a task
ends_at-submit a task tasks =
    omega
      (arith, sum_by-append (end_weight a) tasks (task ∷ []), sum_by-singleton (end_weight a) task)

-- A task that concerns no other context than `c`.
abbrev IsOwn : ℕ → Task → Type 0
IsOwn c task = (a : ℕ) → a ≢ c → (tell_weight a task ≡ 0) × (end_weight a task ≡ 0)

submit-IsGoodState :
    {live : ℕ → Bool} (c : ℕ) (task : Task) (s : State)
    → live c ≡ true
    → IsOwn c task
    → IsGoodState (some c) live s
    → IsGoodState (some c) live (submit_tack task s)
unfolding submit_tack
submit-IsGoodState c task s l own g =
    reweigh c (λ a. tells_at a (s.tasks ++ task ∷ [])) (λ a. ends_at a (s.tasks ++ task ∷ [])) l
      (λ a ne. omega (arith, tells_at-submit a task s.tasks, (own a ne).0))
      (λ a ne. omega (arith, ends_at-submit a task s.tasks, (own a ne).1)) g

submit-IsRecorded :
    {l : Bool} (task : Task) (s : State) → IsRecorded l s → IsRecorded l (submit_tack task s)
unfolding submit_tack
submit-IsRecorded task s r = record {
  root_first = r.root_first;
  root_callback = r.root_callback;
  others_later = r.others_later;
  others_quiet = r.others_quiet;
  others_self = r.others_self;
  open_root = r.open_root;
  closed_root = r.closed_root;
}

-- A context that has told nothing yet.
pub record IsOpen (c : ℕ) (live : ℕ → Bool) (s : State) : Type 0 where
  pub good : IsGoodState (some c) live s
  pub alive : live c ≡ true
  pub waits : waiting_of s c ≡ 0
  pub owes : owed live s c ≡ 0
  pub no_end : ends_at c s.tasks ≡ 0
  pub recorded : IsRecorded (live 0) s

global-IsOwn : (c : ℕ) (msg : RuleMsg) (e : Err) → IsOwn c (global_end msg e)
global-IsOwn c msg e a ne = (refl, refl)

branch_end-IsOwn : (c : ℕ) (msg : RuleMsg) (e : Err) (r : String) → IsOwn c (branch_end c msg e r)
branch_end-IsOwn c msg e r a ne = (refl, ground arith)

next_node-IsOwn : (c : ℕ) (msg : RuleMsg) (n : NodeRef) (r : String) → IsOwn c (next_node c msg n r)
next_node-IsOwn c msg n r a ne = (ground arith, refl)

submit_global-IsOpen :
    (c : ℕ) (live : ℕ → Bool) (msg : RuleMsg) (e : Err) (s : State)
    → IsOpen c live s
    → IsOpen c live (submit_tack (global_end msg e) s)
unfolding submit_tack
submit_global-IsOpen c live msg e s o = record {
  good = submit-IsGoodState c (global_end msg e) s o.alive (global-IsOwn c msg e) o.good;
  alive = o.alive;
  waits = o.waits;
  owes = omega (arith, tells_at-submit c (global_end msg e) s.tasks, o.owes);
  no_end = omega (arith, ends_at-submit c (global_end msg e) s.tasks, o.no_end);
  recorded = submit-IsRecorded (global_end msg e) s o.recorded;
}

ended-IsBalanced :
    (c waiting owes ends : ℕ) → waiting ≡ 0 → owes ≡ 0 → ends ≡ 1 → IsBalanced c waiting owes ends
ended-IsBalanced zero waiting owes ends w o e = (w, omega arith)
ended-IsBalanced (suc c) waiting owes ends w o e = inl (e, w, o)

idle-IsDue :
    (c waiting owes ends : ℕ) → waiting ≡ 0 → owes ≡ 0 → ends ≡ 0 → IsDue c waiting owes ends
idle-IsDue zero waiting owes ends w o e = (w, o, e)
idle-IsDue (suc c) waiting owes ends w o e = (e, inr (w, o))

branch_settles :
    (c : ℕ) (live : ℕ → Bool) (msg : RuleMsg) (e : Err) (r : String) (s : State)
    → IsOpen c live s
    → IsSettled (submit_tack (branch_end c msg e r) s)
unfolding submit_tack
branch_settles c live msg e r s o =
    let task = branch_end c msg e r in
    (
      live,
      fill c (submit-IsGoodState c task s o.alive (branch_end-IsOwn c msg e r) o.good) (
          ended-IsBalanced c (waiting_of s c) (owed live (submit_tack task s) c)
            (ends_at c (s.tasks ++ task ∷ [])) o.waits
            (omega (arith, tells_at-submit c task s.tasks, o.owes))
            (ground (arith, ends_at-submit c task s.tasks, o.no_end))),
      submit-IsRecorded task s o.recorded,
    )

pub open_done : (c : ℕ) (live : ℕ → Bool) (s : State) → IsOpen c live s → IsSettled (done c s)
open_done c live s o =
    (child_done_settles (suc c) c live s (omega arith) (record {
      good = o.good;
      alive = o.alive;
      due =
          idle-IsDue c (waiting_of s c) (owed live s c) (ends_at c s.tasks) o.waits o.owes o.no_end;
      recorded = o.recorded;
    })).0

end_settles :
    (on_end : Bool) (c : ℕ) (live : ℕ → Bool) (msg : RuleMsg) (e : Err) (r : String) (s : State)
    → IsOpen c live s
    → IsSettled (if on_end then submit_tack (branch_end c msg e r) s else done c s)
end_settles true c live msg e r s o = branch_settles c live msg e r s o
end_settles false c live msg e r s o = open_done c live s o

pub do_on_end_settles :
    (global : Bool) (c : ℕ) (live : ℕ → Bool) (msg : RuleMsg) (e : Err) (r : String) (s : State)
    → IsOpen c live s
    → IsSettled (do_on_end global c msg e r s)
unfolding do_on_end
do_on_end_settles true c live msg e r s o =
    end_settles (s.contexts c).on_end c live msg e r (submit_tack (global_end msg e) s)
      (submit_global-IsOpen c live msg e s o)
do_on_end_settles false c live msg e r s o = end_settles (s.contexts c).on_end c live msg e r s o

-- One more child is spawned.
abbrev spawned : ℕ → Task → State → State
spawned c task s = submit_tack task (counted c (inc32 (waiting_of s c)) s)

spawned-IsGoodState :
    {live : ℕ → Bool} (c : ℕ) (msg : RuleMsg) (n : NodeRef) (r : String) (s : State)
    → live c ≡ true
    → IsGoodState (some c) live s
    → IsGoodState (some c) live (spawned c (next_node c msg n r) s)
spawned-IsGoodState c msg n r s l g =
    submit-IsGoodState c (next_node c msg n r) (counted c (inc32 (waiting_of s c)) s) l
      (next_node-IsOwn c msg n r) (counted-IsGoodState c (inc32 (waiting_of s c)) s g)

-- The state after spawning, against the counters before.
record IsSpawned (c : ℕ) (live : ℕ → Bool) (waiting owes ends : ℕ) (s : State) : Type 0 where
  good : IsGoodState (some c) live s
  recorded : IsRecorded (live 0) s
  waits : waiting_of s c ≡ waiting
  owes_all : owed live s c ≡ owes
  ends_same : ends_at c s.tasks ≡ ends

next_node_weight :
    (c : ℕ) (msg : RuleMsg) (n : NodeRef) (r : String) → tell_weight c (next_node c msg n r) ≡ 1
next_node_weight c msg n r = ground arith

IsSpawned-eq :
    {c : ℕ} {live : ℕ → Bool} {waiting waiting' owes owes' ends : ℕ} {s : State}
    → waiting ≡ waiting'
    → owes ≡ owes'
    → IsSpawned c live waiting owes ends s
    → IsSpawned c live waiting' owes' ends s
IsSpawned-eq ew eo i = record {
  good = i.good;
  recorded = i.recorded;
  waits = i.waits ∙ ew;
  owes_all = i.owes_all ∙ eo;
  ends_same = i.ends_same;
}

spawned_counts :
    (c : ℕ) (live : ℕ → Bool) (msg : RuleMsg) (n : NodeRef) (r : String) (waiting owes ends : ℕ)
    (s : State)
    → live c ≡ true
    → waiting + 1 < 2 ^ 31
    → IsSpawned c live waiting owes ends s
    → IsSpawned c live (waiting + 1) (owes + 1) ends (spawned c (next_node c msg n r) s)
unfolding submit_tack
spawned_counts c live msg n r waiting owes ends s l b i = record {
  good = spawned-IsGoodState c msg n r s l i.good;
  recorded =
      submit-IsRecorded (next_node c msg n r) (counted c (inc32 (waiting_of s c)) s)
        (counted-IsRecorded c (inc32 (waiting_of s c)) s i.recorded);
  waits = counted_self c (inc32 (waiting_of s c)) s ∙ omega (arith, i.waits);
  owes_all = omega (
    arith,
    tells_at-submit c (next_node c msg n r) s.tasks,
    owed-counted live c (inc32 (waiting_of s c)) s c,
    next_node_weight c msg n r,
    i.owes_all,
  );
  ends_same = ground (arith, ends_at-submit c (next_node c msg n r) s.tasks, i.ends_same);
}

-- A tell with nil relation types, or with exactly one.
abbrev pub IsSingle : Tell → Type 0
IsSingle t = (t.relation_types ≡ none) ⊎ ((r : String) × (t.relation_types ≡ some (r ∷ [])))

module _ (w : World) where
  spawn_counts :
      (c : ℕ) (live : ℕ → Bool) (msg : RuleMsg) (r : String) (nodes : List NodeRef)
      (waiting owes ends : ℕ) (s : State)
      → live c ≡ true
      → waiting + length nodes < 2 ^ 31
      → IsSpawned c live waiting owes ends s
      → IsSpawned c live
          (waiting + length nodes)
          (owes + length nodes)
          ends
          (spawn w c msg r nodes s)
  unfolding spawn
  spawn_counts c live msg r [] waiting owes ends s l b i =
      IsSpawned-eq (omega arith) (omega arith) i
  spawn_counts c live msg r (n ∷ nodes) waiting owes ends s l b i =
      IsSpawned-eq (omega arith) (omega arith) (
        spawn_counts c live msg r nodes (waiting + 1) (owes + 1) ends
          (spawned c (next_node c (copy w.env msg) n r) s) l (omega arith)
          (spawned_counts c live (copy w.env msg) n r waiting owes ends s l (omega arith) i))

  spawn_settles :
      (c : ℕ) (live : ℕ → Bool) (msg : RuleMsg) (r : String) (n : NodeRef) (nodes : List NodeRef)
      (s : State)
      → 0 < c
      → length (n ∷ nodes) < 2 ^ 31
      → IsOpen c live s
      → IsSettled (spawn w c msg r (n ∷ nodes) s)
  spawn_settles zero live msg r n nodes s p b o = absurd (omega arith)
  spawn_settles (suc c) live msg r n nodes s p b o =
      let i = spawn_counts (suc c) live msg r (n ∷ nodes) 0 0 0 s o.alive (omega arith) (record {
        good = o.good;
        recorded = o.recorded;
        waits = o.waits;
        owes_all = o.owes;
        ends_same = o.no_end;
      }) in
      (
        live,
        fill (suc c) i.good (
            inr (
              i.ends_same,
              i.waits ∙ sym i.owes_all,
              omega (arith, i.owes_all),
              omega (arith, i.owes_all),
            )),
        i.recorded,
      )

  branch_tell_settles :
      (c : ℕ) (live : ℕ → Bool) (msg : RuleMsg) (e : Err) (r : String) (nodes : List NodeRef)
      (skip : Bool) (s : State)
      → 0 < c
      → length nodes < 2 ^ 31
      → IsOpen c live s
      → IsSettled (branch w c msg e r nodes skip s)
  branch_tell_settles c live msg e r [] skip s p b o =
      do_on_end_settles w.global_on_end c live msg e r s o
  branch_tell_settles c live msg e r (n ∷ nodes) true s p b o =
      do_on_end_settles w.global_on_end c live msg e r s o
  branch_tell_settles c live msg e r (n ∷ nodes) false s p b o =
      spawn_settles c live msg r n nodes s p b o

  next_of_bound :
      ((n : NodeRef) (r : String) → length (w.next_nodes n r) < 2 ^ 31)
      → (self : Option NodeRef) (r : String) → length (next_of w self r) < 2 ^ 31
  next_of_bound b none r = omega arith
  next_of_bound b (some n) r = b n r

  tell_nil :
      (c : ℕ) (t : Tell) (s : State)
      → (s.contexts c).is_first ≡ false
      → t.relation_types ≡ none
      → tell w c t s ≡ do_on_end w.global_on_end c t.msg t.err "" s
  unfolding tell
  tell_nil c t s f h = rw (f, h, tell)

  tell_one :
      (c : ℕ) (t : Tell) (s : State) (r : String)
      → (s.contexts c).is_first ≡ false
      → t.relation_types ≡ some (r ∷ [])
      → tell w c t s
        ≡ branch w c
            (execute_after_aop w w.after_aspects (s.contexts c).self t.msg t.err r)
            t.err
            r
            (next_of w (s.contexts c).self r)
            (s.contexts c).skip_tell_next
            s
  unfolding tell
  tell_one c t s r f h = rw (f, h, tell)

  pub tell_settles :
      (c : ℕ) (live : ℕ → Bool) (t : Tell) (s : State)
      → ((n : NodeRef) (r : String) → length (w.next_nodes n r) < 2 ^ 31)
      → 0 < c
      → IsSingle t
      → IsOpen c live s
      → IsSettled (tell w c t s)
  tell_settles c live t s b p single o =
      let first = o.recorded.others_later c p (o.good.below c o.alive) in
      elim single [
        | inl nil ↦
            rw (tell_nil c t s first nil)
              (do_on_end_settles w.global_on_end c live t.msg t.err "" s o)
        | inr (r, one) ↦ rw (tell_one c t s r first one) (
            branch_tell_settles c live _ t.err r (next_of w (s.contexts c).self r)
              (s.contexts c).skip_tell_next s p (next_of_bound b (s.contexts c).self r) o)
      ]
