-- ===== src/Endpoint/Errors.antt =====
-- The error that an exchange carries after a rule chain (endpoint/endpoint.go).
use rulego.Prelude.{
  String, ◌≡◌, refl, ap, ◌∙◌, ◌≢◌, Bool, true, false, Option, none, some, List, [], ◌∷◌, All,
}
use rulego.Msg.{RuleMsg}
use rulego.Endpoint.{
  MessageOps, Exchange, Process, End, Engine, To, Router, and_next, to_string_by_dict,
  on_branch_end, on_branch_ends, not_found, chain_not_found, chain_execute,
}
use rulego.Endpoint.Laws.{
  MessageLaws, Keeps, execute_process-Keeps, Calls, chain_execute-missing, chain_execute-settled,
}

-- The error of the last branch that has one.
abbrev pub last_error : Option String → List End → Option String
last_error e [] = e
last_error e ((msg, none) ∷ ends) = last_error e ends
last_error e ((msg, some text) ∷ ends) = last_error (some text) ends

abbrev pub error_of : {In Out : Type 0} → MessageOps Out → Exchange In Out → Option String
error_of outs x = outs.get_error x.out

and_next_rest :
    {X A : Type 0} (f : X → A) (a : A) (r : X × Bool) (rest : X → X)
    → f r.0 ≡ a
    → ((x : X) → f x ≡ a → f (rest x) ≡ a)
    → f (and_next r (λ x. (rest x, true))).0 ≡ a
and_next_rest f a (x, true) rest h k = k x h
and_next_rest f a (x, false) rest h k = h

module _ {In Out : Type 0} (outs : MessageOps Out) (laws : MessageLaws outs) where
  not_found-Keeps :
      (text : String) (ps : List (Process In Out)) (x : Exchange In Out)
      → All (Keeps (error_of outs)) ps
      → error_of outs x ≡ some text
      → error_of outs (not_found outs text ps x) ≡ some text
  unfolding not_found
  not_found-Keeps text [] x h e = e
  not_found-Keeps text (p ∷ ps) x (h, hs) e =
      let made : Exchange In Out = record x { out = outs.set_error text x.out } in
      and_next_rest (error_of outs) (some text) (p made) (not_found outs text ps)
        (h made ∙ laws.error_set text x.out) (λ x' e'. not_found-Keeps text ps x' hs e')

  not_found-error :
      (text : String) (p : Process In Out) (ps : List (Process In Out)) (x : Exchange In Out)
      → All (Keeps (error_of outs)) (p ∷ ps)
      → error_of outs (not_found outs text (p ∷ ps) x) ≡ some text
  unfolding not_found
  not_found-error text p ps x (h, hs) =
      let made : Exchange In Out = record x { out = outs.set_error text x.out } in
      and_next_rest (error_of outs) (some text) (p made) (not_found outs text ps)
        (h made ∙ laws.error_set text x.out) (λ x' e'. not_found-Keeps text ps x' hs e')

  not_found_outcomes :
      (text : String) (ps : List (Process In Out)) (x : Exchange In Out)
      → All (Keeps (error_of outs)) ps
      → (ps ≢ [] → error_of outs (not_found outs text ps x) ≡ some text)
        × (ps ≡ [] → error_of outs (not_found outs text ps x) ≡ error_of outs x)
  unfolding not_found
  not_found_outcomes text [] x h = (λ k. elim (k refl) [ ], λ k. refl)
  not_found_outcomes text (p ∷ ps) x h = (λ k. not_found-error text p ps x h, λ k. cc)

module _ {In Out Node : Type 0} (outs : MessageOps Out) (laws : MessageLaws outs) where
  on_branch_end-error :
      (t : To In Out Node) (x : Exchange In Out) (msg : RuleMsg) (e : Option String)
      → All (Keeps (error_of outs)) t.process_list
      → error_of outs (on_branch_end outs t x (msg, e))
        ≡ last_error (error_of outs x) ((msg, e) ∷ [])
  unfolding on_branch_end
  on_branch_end-error t x msg none h =
      execute_process-Keeps (error_of outs) t.process_list h
        (record x { out = outs.set_msg msg x.out })
      ∙ laws.error_kept msg x.out
  on_branch_end-error t x msg (some text) h =
      execute_process-Keeps (error_of outs) t.process_list h
        (record x { out = outs.set_error text x.out })
      ∙ laws.error_set text x.out

  pub on_branch_ends-error :
      (t : To In Out Node) (x : Exchange In Out) (ends : List End)
      → All (Keeps (error_of outs)) t.process_list
      → error_of outs (on_branch_ends outs t x ends) ≡ last_error (error_of outs x) ends
  unfolding on_branch_ends
  on_branch_ends-error t x [] h = refl
  on_branch_ends-error t x ((msg, none) ∷ ends) h =
      on_branch_ends-error t (on_branch_end outs t x (msg, none)) ends h
      ∙ ap (λ e. last_error e ends) (on_branch_end-error t x msg none h)
  on_branch_ends-error t x ((msg, some text) ∷ ends) h =
      on_branch_ends-error t (on_branch_end outs t x (msg, some text)) ends h
      ∙ ap (λ e. last_error e ends) (on_branch_end-error t x msg (some text) h)

module _ {In Out Node : Type 0} (ins : MessageOps In) (outs : MessageOps Out)
    (laws : MessageLaws outs) where
  -- For processes of the `To` that leave the error alone. If the chain is found, the error of the
  -- exchange, once all ends have come, is that of the last branch that failed, and the old one if
  -- none did: a branch that succeeds later does not clear it. If the chain is not found, no end is
  -- still to come, and the error is that the chain is missing; but if the `To` has no process, the
  -- exchange gets no error at all.
  pub chain_execute-error :
      (r : Router In Out Node) (x : Exchange In Out) (t : To In Out Node) (m : In) (msg : RuleMsg)
      → Calls ins outs r x t m msg
      → All (Keeps (error_of outs)) t.process_list
      → let (x', later) = chain_execute ins outs r x in
        let chain_id = to_string_by_dict t msg.metadata in
        ((engine : Engine)
          → r.rule_go chain_id ≡ some engine
          → error_of outs (on_branch_ends outs t x' later)
            ≡ last_error (error_of outs x) (engine msg))
        × (r.rule_go chain_id ≡ none
            → (later ≡ [])
              × (t.process_list ≢ [] → error_of outs x' ≡ some (chain_not_found chain_id))
              × (t.process_list ≡ [] → error_of outs x' ≡ error_of outs x))
  chain_execute-error r x t m msg h keeps = (
    λ engine found.
        ap (error_of outs) (chain_execute-settled ins outs r x t m msg engine h found).0
        ∙ on_branch_ends-error outs laws t (record x { in_message = m }) (engine msg) keeps,
    λ missing. rw (chain_execute-missing ins outs r x t m msg h missing) (
        let ends =
          not_found_outcomes outs laws (chain_not_found (to_string_by_dict t msg.metadata))
            t.process_list (record x { in_message = m }) keeps in
        (refl, ends.0, ends.1)),
  )
