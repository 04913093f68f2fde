-- ===== src/Endpoint/Laws.antt =====
-- How an exchange passes through a router: endpoint/endpoint.go.
use rulego.Prelude.{
  String, ◌≡◌, refl, sym, ap, ◌∙◌, ◌⊎◌, inl, inr, Bool, true, false, none, some, List, [], ◌∷◌,
  ◌++◌, if◌then◌else◌, Bool-cases, Option-cases, All,
}
use mathlib.Core.Path.{fun_ext}
use rulego.Msg.{RuleMsg}
use rulego.Endpoint.{
  MessageOps, Exchange, Process, End, Engine, To, From, Router, execute_process, and_next, and_then,
  to_string_by_dict, on_branch_ends, not_found, chain_not_found, chain_execute, do_process,
  from_side, to_side,
}

-- What the message types of every kind of endpoint promise of the error that they carry.
pub record MessageLaws {M : Type 0} (ops : MessageOps M) : Type 0 where
  pub error_set : (e : String) (m : M) → ops.get_error (ops.set_error e m) ≡ some e
  pub error_kept : (msg : RuleMsg) (m : M) → ops.get_error (ops.set_msg msg m) ≡ ops.get_error m

and_next_assoc :
    {X : Type 0} (r : X × Bool) (f g : X → X × Bool)
    → and_next (and_next r f) g ≡ and_next r (λ x. and_next (f x) g)
and_next_assoc (x, true) f g = refl
and_next_assoc (x, false) f g = refl

and_then-and_next :
    {X Y : Type 0} (r : X × Bool) (f : X → X × Bool) (g : X → X × List Y)
    → and_then (and_next r f) g ≡ and_then r (λ x. and_then (f x) g)
and_then-and_next (x, true) f g = refl
and_then-and_next (x, false) f g = refl

and_next_last : {X : Type 0} (r : X × Bool) → and_next r (λ x. (x, true)) ≡ r
and_next_last (x, true) = refl
and_next_last (x, false) = refl

module _ {In Out : Type 0} where
  execute_process-append :
      (ps qs : List (Process In Out)) (x : Exchange In Out)
      → execute_process (ps ++ qs) x ≡ and_next (execute_process ps x) (execute_process qs)
  unfolding execute_process
  execute_process-append [] qs x = refl
  execute_process-append (p ∷ ps) qs x =
      ap (and_next (p x)) (fun_ext (execute_process-append ps qs))
      ∙ sym (and_next_assoc (p x) (execute_process ps) (execute_process qs))

  -- Some process of the list leaves what `f` reads of an exchange as it was.
  abbrev pub Keeps : {A : Type 0} → (Exchange In Out → A) → Process In Out → Type 0
  Keeps f p = (x : Exchange In Out) → f (p x).0 ≡ f x

  pub and_next-Keeps :
      {A : Type 0} (f : Exchange In Out → A) (r : Exchange In Out × Bool) (next : Process In Out)
      → Keeps f next
      → f (and_next r next).0 ≡ f r.0
  and_next-Keeps f (x, true) next h = h x
  and_next-Keeps f (x, false) next h = refl

  pub execute_process-Keeps :
      {A : Type 0} (f : Exchange In Out → A) (ps : List (Process In Out))
      → All (Keeps f) ps
      → Keeps f (execute_process ps)
  unfolding execute_process
  execute_process-Keeps f [] h x = refl
  execute_process-Keeps f (p ∷ ps) (h, hs) x =
      and_next-Keeps f (p x) (execute_process ps) (execute_process-Keeps f ps hs) ∙ h x

module _ {In Out : Type 0} where
  -- The exchange after all processes of a list, whatever they return.
  abbrev pub made_by : List (Process In Out) → Exchange In Out → Exchange In Out
  made_by [] x = x
  made_by (p ∷ ps) x = made_by ps (p x).0

  -- Each process returns true for what those before it made.
  abbrev pub AllGoOn : List (Process In Out) → Exchange In Out → Type 0
  AllGoOn [] x = Unit
  AllGoOn (p ∷ ps) x = ((p x).1 ≡ true) × AllGoOn ps (p x).0

  and_next-on :
      (r : Exchange In Out × Bool) (next : Process In Out) → r.1 ≡ true → and_next r next ≡ next r.0
  and_next-on (x, true) next h = refl
  and_next-on (x, false) next h = cc

  and_next-off :
      (r : Exchange In Out × Bool) (next : Process In Out)
      → r.1 ≡ false
      → and_next r next ≡ (r.0, false)
  and_next-off (x, true) next h = cc
  and_next-off (x, false) next h = refl

  execute_process_cases :
      (qs : List (Process In Out)) (x : Exchange In Out)
      → (AllGoOn qs x × (execute_process qs x ≡ (made_by qs x, true)))
        ⊎ ((before : List (Process In Out)) × (p : Process In Out) × (after : List (Process In Out))
            × (qs ≡ before ++ p ∷ after)
            × AllGoOn before x
            × ((p (made_by before x)).1 ≡ false)
            × (execute_process qs x ≡ ((p (made_by before x)).0, false)))
  unfolding execute_process
  execute_process_cases [] x = inl (tt, refl)
  execute_process_cases (q ∷ qs) x = elim (Bool-cases (q x).1) [
    | inr off ↦ inr ([], q, qs, refl, tt, off, and_next-off (q x) (execute_process qs) off)
    | inl on ↦
        let here = and_next-on (q x) (execute_process qs) on in
        elim (execute_process_cases qs (q x).0) [
          | inl (all_on, e) ↦ inl ((on, all_on), here ∙ e)
          | inr (before, p, after, split, goes, off, e) ↦
              inr (q ∷ before, p, after, ap (λ l. q ∷ l) split, (on, goes), off, here ∙ e)
        ]
  ]

abbrev pub processes_of : {In Out Node : Type 0} → Router In Out Node → List (Process In Out)
processes_of r = elim r.from [ none ↦ [] | some f ↦ f.process_list ]

module _ {In Out Node : Type 0} (ins : MessageOps In) (outs : MessageOps Out)
    (on_node_msg : Node → RuleMsg → List End) where
  from_side-processes_of :
      (r : Router In Out Node) (x : Exchange In Out)
      → from_side ins outs on_node_msg r x ≡ execute_process (processes_of r) x
  unfolding execute_process
  from_side-processes_of r x = elim (Option-cases r.from) [
    | inl e ↦ rw e refl
    | inr (f, e) ↦ rw e refl
  ]

  do_process-one_list :
      (interceptors : List (Process In Out)) (r : Router In Out Node) (x : Exchange In Out)
      → do_process ins outs on_node_msg interceptors r x
        ≡ and_then
            (execute_process (interceptors ++ processes_of r) x)
            (to_side ins outs on_node_msg r)
  unfolding do_process
  do_process-one_list interceptors r x =
      ap
        (λ next.
          and_then (execute_process interceptors x)
            (λ x'. and_then (next x') (to_side ins outs on_node_msg r)))
        (fun_ext (from_side-processes_of r))
      ∙ sym (
          and_then-and_next (execute_process interceptors x) (execute_process (processes_of r))
            (to_side ins outs on_node_msg r))
      ∙ ap (λ done. and_then done (to_side ins outs on_node_msg r))
          (sym (execute_process-append interceptors (processes_of r) x))

  -- The interceptors of the endpoint and the processes of the `From`, in this order. If each of them
  -- returns true for what those before it made of the exchange, what they all made of it goes to the
  -- `To`, or is left as it is if there is none. Otherwise there is a first one that returns false: what
  -- it leaves is the result, no later process has a part in it, and no end is still to come.
  pub do_process-pipeline :
      (interceptors : List (Process In Out)) (r : Router In Out Node) (x : Exchange In Out)
      → let qs = interceptors ++ processes_of r in
        let told = do_process ins outs on_node_msg interceptors r x in
        (AllGoOn qs x × (told ≡ to_side ins outs on_node_msg r (made_by qs x)))
        ⊎ ((before : List (Process In Out)) × (p : Process In Out) × (after : List (Process In Out))
            × (qs ≡ before ++ p ∷ after)
            × AllGoOn before x
            × ((p (made_by before x)).1 ≡ false)
            × (told ≡ ((p (made_by before x)).0, [])))
  do_process-pipeline interceptors r x =
      let same = do_process-one_list interceptors r x in
      elim (execute_process_cases (interceptors ++ processes_of r) x) [
        | inl (all_on, e) ↦
            inl (all_on, same ∙ ap (λ d. and_then d (to_side ins outs on_node_msg r)) e)
        | inr (before, p, after, split, on, off, e) ↦ inr (
          before,
          p,
          after,
          split,
          on,
          off,
          same ∙ ap (λ d. and_then d (to_side ins outs on_node_msg r)) e,
        )
      ]

module _ {In Out Node : Type 0} (ins : MessageOps In) (outs : MessageOps Out) where
  -- What `ChainExecutor.Execute` finds: the `To` of the router, and the message of the exchange.
  pub record Calls (r : Router In Out Node) (x : Exchange In Out) (t : To In Out Node) (m : In)
      (msg : RuleMsg) : Type 0 where
    pub f : From In Out Node
    pub has_from : r.from ≡ some f
    pub has_to : f.to ≡ some t
    pub makes : ins.get_msg x.in_message ≡ (m, some msg)

  pub chain_execute-found :
      (r : Router In Out Node) (x : Exchange In Out) (t : To In Out Node) (m : In) (msg : RuleMsg)
      (engine : Engine)
      → Calls r x t m msg
      → r.rule_go (to_string_by_dict t msg.metadata) ≡ some engine
      → chain_execute ins outs r x ≡ (
          if t.wait
          then (on_branch_ends outs t (record x { in_message = m }) (engine msg), [])
          else (record x { in_message = m }, engine msg))
  unfolding chain_execute
  chain_execute-found r x t m msg engine h found = rw (h.has_from, h.has_to, h.makes, found) refl

  -- Whether the `To` waits or not: once the ends that are still to come have come, the exchange is
  -- what the ends of the engine, one after the other, make of it. A `To` that waits leaves no end to
  -- come; one that does not wait leaves all of them, and an exchange that only has its message.
  pub chain_execute-settled :
      (r : Router In Out Node) (x : Exchange In Out) (t : To In Out Node) (m : In) (msg : RuleMsg)
      (engine : Engine)
      → Calls r x t m msg
      → r.rule_go (to_string_by_dict t msg.metadata) ≡ some engine
      → let (x', later) = chain_execute ins outs r x in
        let made : Exchange In Out = record x { in_message = m } in
        (on_branch_ends outs t x' later ≡ on_branch_ends outs t made (engine msg))
        × (t.wait ≡ true → later ≡ [])
        × (t.wait ≡ false → (x' ≡ made) × (later ≡ engine msg))
  unfolding on_branch_ends
  chain_execute-settled r x t m msg engine h found = elim (Bool-cases t.wait) [
    | inl e ↦
        rw (chain_execute-found r x t m msg engine h found) (rw e (refl, (λ k. refl), λ k. cc))
    | inr e ↦
        rw (chain_execute-found r x t m msg engine h found)
          (rw e (refl, (λ k. cc), λ k. (refl, refl)))
  ]

  pub chain_execute-missing :
      (r : Router In Out Node) (x : Exchange In Out) (t : To In Out Node) (m : In) (msg : RuleMsg)
      → Calls r x t m msg
      → r.rule_go (to_string_by_dict t msg.metadata) ≡ none
      → chain_execute ins outs r x ≡ (
        not_found outs
            (chain_not_found (to_string_by_dict t msg.metadata))
            t.process_list
            (record x { in_message = m }),
        [],
      )
  unfolding chain_execute
  chain_execute-missing r x t m msg h missing = rw (h.has_from, h.has_to, h.makes, missing) refl
