-- ===== src/Group/Tests.antt =====
-- Examples of groups.
use rulego.Prelude.{ℕ, String, ◌≡◌, refl, true, false, some, List, [], ◌∷◌, arith, leb}
use rulego.Dsl.{pos}
use rulego.Msg.{RuleMsg}
use rulego.Group.{
  FilterStep, enter, decide, filter_steps, ActionGroup, on_action_end, count_action, store_msg,
  match_num, new_group, on_filter_ends, on_action_ends,
}
use rulego.Group.Overlap.{IsFair, at, filter_steps-IsFair}
use rulego.Group.Laws.{decision, filter_result}
use rulego.Group.Action.{End, sent, matching, new_action, action_result}

abbrev answers : List String
answers = "True" ∷ "False" ∷ "True" ∷ []

filter_result_example : (on_filter_ends true 3 new_group answers).c ≡ some (decision true answers)
filter_result_example = filter_result true answers (omega arith) (omega arith)

abbrev msg : RuleMsg
msg = record {
  ts = 500;
  id = "m1";
  data_type = "JSON";
  type = "TEMP";
  content = "{}";
  metadata = [];
}

abbrev end_of : ℕ → String → String → End
end_of index id r = (index, record { msg = msg; err = ""; node_id = id }, r)

abbrev ends : List End
ends = end_of 1 "b" "Success" ∷ end_of 2 "c" "Failure" ∷ end_of 0 "a" "Success" ∷ []

action_result_example :
    sent (on_action_ends "Success" (match_num (pos 2) 3) 3 (new_action [] 3) ends)
    ≡ some (leb (match_num (pos 2) 3) (matching "Success" ends))
action_result_example = action_result "Success" (pos 2) [] ends (omega arith) (omega arith)

-- The first callback counts and is overtaken: `True` is sent although it ended under `False`.
overtaken_test :
    (filter_steps true 2
      (at new_group [] [])
      (enter "False" ∷ enter "True" ∷ decide 0 ∷ decide 0 ∷ [])).group.c
    ≡ some true
unfolding filter_steps
overtaken_test = refl

abbrev overlapped : List FilterStep
overlapped = enter "False" ∷ enter "True" ∷ decide 0 ∷ decide 0 ∷ []

filter_steps-IsFair_example :
    IsFair true
      ("True" ∷ "False" ∷ [])
      (filter_steps true 2 (at new_group [] []) overlapped).group.c
unfolding filter_steps
filter_steps-IsFair_example =
    filter_steps-IsFair true 2 overlapped (omega arith) (omega arith) refl refl

-- Both nodes match, and one callback has counted its end but not its match: the other one, the last to
-- end, sends `Failure`.
abbrev one_counted : ActionGroup
one_counted =
    count_action (store_msg 0 (record { msg = msg; err = ""; node_id = "a" }) (new_action [] 2))

action_overtaken_test :
    sent (
      on_action_end "Success" 2 2 1 one_counted
        (record { msg = msg; err = ""; node_id = "b" })
        "Success")
    ≡ some false
unfolding on_action_end
action_overtaken_test = refl
