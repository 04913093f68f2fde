-- ===== src/Nodes/Flow.antt =====
-- components/flow/flow_node.go: the node that runs another chain, and joins the ends of its branches.
-- The ends come one after the other, in any order, and then the end of the whole chain. The text of
-- the list of messages is the parameter `msgs_text`.
use rulego.Prelude.{String, Option, none, some, List, [], ◌∷◌, ◌++◌}
use Prim.Native.String.{◌++◌ as ◌+++◌}
use rulego.Msg.{RuleMsg, WrapperMsg, Env, Metadata, copy, put_value, json_type}
use rulego.Nodes.{Tell, tell_success, tell_failure}

-- The end of a branch: the node where it ended, the message, and the error.
pub record BranchEnd : Type 0 where
  pub node_id : String
  pub msg : RuleMsg
  pub err : Option String

-- What the callbacks share.
pub record Joined : Type 0 where
  pub wrapper_msg : RuleMsg
  pub msgs : List WrapperMsg

unfoldable pub put_values : Metadata → Metadata → Metadata
unfolding put_value
put_values md [] = md
put_values md ((k, v) ∷ values) = put_values (put_value md k v) values

abbrev pub error_text : Option String → String
error_text none = ""
error_text (some e) = e

-- The metadata of a branch that failed is not joined.
unfoldable pub joined_metadata : Option String → Metadata → Metadata → Metadata
unfolding put_values
joined_metadata none md values = put_values md values
joined_metadata (some e) md values = md

-- The two sections of the callback: the metadata are written without the lock, and then the message is
-- appended under it.
unfoldable pub write_metadata : BranchEnd → Joined → Joined
unfolding joined_metadata
write_metadata b j = record j {
  wrapper_msg = record j.wrapper_msg {
    metadata = joined_metadata b.err j.wrapper_msg.metadata b.msg.metadata;
  };
}

unfoldable pub append_msg : BranchEnd → Joined → Joined
append_msg b j = record j {
  msgs = j.msgs ++ (record { msg = b.msg; err = error_text b.err; node_id = b.node_id } ∷ []);
}

-- A callback that no other one overlaps.
unfoldable pub on_branch_end : Joined → BranchEnd → Joined
unfolding write_metadata append_msg
on_branch_end j b = append_msg b (write_metadata b j)

unfoldable pub on_branch_ends : Joined → List BranchEnd → Joined
unfolding on_branch_end
on_branch_ends j [] = j
on_branch_ends j (b ∷ ends) = on_branch_ends (on_branch_end j b) ends

module _ (msgs_text : List WrapperMsg → String) where
  abbrev tell_joined : Joined → Tell
  tell_joined j =
      tell_success (record j.wrapper_msg { data_type = json_type; content = msgs_text j.msgs })

  -- `OnMsg`, with the ends of the branches of the target; `TellFlow` fails if there is no target.
  unfoldable pub on_msg : Env → (target_id : String) → Option (List BranchEnd) → RuleMsg → Tell
  unfolding on_branch_ends copy
  on_msg env target_id none msg = tell_failure msg ("ruleChain id=" +++ target_id +++ " not found")
  on_msg env target_id (some ends) msg =
      tell_joined (on_branch_ends (record { wrapper_msg = copy env msg; msgs = [] }) ends)
