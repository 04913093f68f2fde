-- ===== src/Group.antt =====
-- components/filter/group_filter_node.go and components/action/group_action_node.go: the callbacks
-- of the nodes of a group. Each node that `ExecuteNode` starts calls back at the end of its branch.
-- The callbacks of a filter may overlap: a callback is two sections, and any order of sections is a
-- run. The channel holds at most one result: `completed` is set by whoever sends it.
pub mod Laws
pub mod Action
pub mod Overlap
mod Tests
use rulego.Prelude.{
  ℕ, zero, suc, String, Bool, true, false, Option, none, some, List, [], ◌∷◌, ◌++◌, ltb,
  if◌then◌else◌, ◌==◌, string_eq, nat_key, length, get_elem?, set, take, drop,
}
use rulego.Prelude.Words.{inc32, sle32}
use rulego.Dsl.{ℤ, pos, negsuc}
use rulego.Msg.{Metadata, RuleMsg, WrapperMsg, put_value}

abbrev pub true_relation : String
true_relation = "True"

-- The variables that the callbacks of a group filter share.
pub record FilterGroup : Type 0 where
  pub end_count : ℕ  -- int32
  pub completed : Bool
  pub c : Option Bool  -- the channel

-- `atomic.CompareAndSwapInt32(&completed, 0, 1)` and the send.
abbrev pub send : Bool → FilterGroup → FilterGroup
send result g = if g.completed then g else record g { completed = true; c = some result }

-- The first section of a callback, after `completed` was found to be 0: `AddInt32(&endCount, 1)`.
unfoldable pub count_end : FilterGroup → FilterGroup
count_end g = record g { end_count = inc32 g.end_count }

-- The branches of the rest, by whether the relation type is `True` and whether all have ended.
abbrev pub decide_with : (all_matches is_match all_ended : Bool) → FilterGroup → FilterGroup
decide_with true true true g = send true g
decide_with true true false g = g
decide_with true false all_ended g = send false g
decide_with false true all_ended g = send true g
decide_with false false true g = send false g
decide_with false false false g = g

-- The rest of the callback. It reads the counter only after its own addition, and the counter only
-- grows; `completed` is tested and set, and the result sent, in one atomic operation.
unfoldable pub decide_end : (all_matches : Bool) → (length : ℕ) → FilterGroup → String → FilterGroup
decide_end all_matches length g relation_type =
    decide_with all_matches (relation_type == true_relation) (sle32 length g.end_count) g

-- A callback that no other one overlaps.
unfoldable pub on_filter_end :
    (all_matches : Bool) → (length : ℕ) → FilterGroup → String → FilterGroup
unfolding count_end decide_end
on_filter_end all_matches length g relation_type =
    if g.completed then g else decide_end all_matches length (count_end g) relation_type

-- Callbacks that overlap: `running` are those that have counted and not yet decided, `entered` all
-- that have counted, the latest first.
pub record FilterRun : Type 0 where
  pub group : FilterGroup
  pub running : List String
  pub entered : List String

pub data FilterStep : Type 0 where
  enter : String → FilterStep
  decide : ℕ → FilterStep

-- Each of the `n` nodes of the group calls back once. A callback that finds the group completed
-- returns; one that does not counts; one of those that are running decides. The load
-- of `completed` and the addition are one step: an addition after the result was sent changes
-- nothing that is decided.
unfoldable pub filter_step : (all_matches : Bool) → (n : ℕ) → FilterRun → FilterStep → FilterRun
unfolding count_end decide_end
filter_step all_matches n x (enter r) =
    if ltb (length x.entered) n
    then (if x.group.completed
        then record x { entered = r ∷ x.entered }
        else record { group = count_end x.group; running = r ∷ x.running; entered = r ∷ x.entered })
    else x
filter_step all_matches n x (decide i) = elim (get_elem? x.running i) [
  | none ↦ x
  | some r ↦ record x {
    group = decide_end all_matches n x.group r;
    running = take i x.running ++ drop (suc i) x.running;
  }
]

unfoldable pub filter_steps : Bool → ℕ → FilterRun → List FilterStep → FilterRun
unfolding filter_step
filter_steps all_matches n x [] = x
filter_steps all_matches n x (step ∷ steps) =
    filter_steps all_matches n (filter_step all_matches n x step) steps

unfoldable pub on_filter_ends : Bool → ℕ → FilterGroup → List String → FilterGroup
unfolding on_filter_end
on_filter_ends all_matches n g [] = g
on_filter_ends all_matches n g (r ∷ rs) =
    on_filter_ends all_matches n (on_filter_end all_matches n g r) rs

abbrev pub new_group : FilterGroup
new_group = record { end_count = 0; completed = false; c = none }

-- `MatchNum` after `Init`: 0, a negative number and a number above the length stand for the length.
unfoldable pub match_num : ℤ → ℕ → ℕ
match_num (negsuc m) n = n
match_num (pos zero) n = n
match_num (pos (suc m)) n = if ltb n (suc m) then n else suc m

-- What the callbacks of a group action share.
pub record ActionGroup : Type 0 where
  pub ends : ℕ  -- endCount, int32
  pub matched_count : ℕ  -- int32
  pub finished : Bool
  pub msgs : List (Option WrapperMsg)  -- a slot that is not set has an empty node id
  pub metadata : Metadata  -- of the merged message
  pub merged : Option (Bool × List WrapperMsg)

-- `filterEmpty`
unfoldable pub filter_empty : List (Option WrapperMsg) → List WrapperMsg
filter_empty [] = []
filter_empty (none ∷ msgs) = filter_empty msgs
filter_empty (some m ∷ msgs) =
    let rest = filter_empty msgs in if m.node_id == "" then rest else m ∷ rest

-- The inner loop of `mergeMetadata`; `PutValue` leaves out an empty key.
unfoldable pub put_values : Metadata → Metadata → Metadata
put_values md [] = md
put_values md ((k, v) ∷ values) = put_values (put_value md k v) values

unfoldable pub merge_metadata : List (Option WrapperMsg) → Metadata → Metadata
unfolding put_values
merge_metadata [] md = md
merge_metadata (none ∷ msgs) md = merge_metadata msgs md
merge_metadata (some m ∷ msgs) md =
    merge_metadata msgs
      (if m.node_id == "" then md else if m.err == "" then put_values md m.msg.metadata else md)

abbrev pub finish : Bool → ActionGroup → ActionGroup
unfolding filter_empty merge_metadata
finish r g = record g {
  finished = true;
  metadata = merge_metadata g.msgs g.metadata;
  merged = some (r, filter_empty g.msgs);
}

-- The sections of a callback, after `completed` was found to be 0: the slot of the node is set; the
-- end is counted; a match is counted; the counters are read and, in one atomic operation with the
-- test of `completed`, the result is made.
abbrev pub store_msg : ℕ → WrapperMsg → ActionGroup → ActionGroup
store_msg index m g = record g { msgs = set g.msgs index (some m) }

abbrev pub count_action : ActionGroup → ActionGroup
count_action g = record g { ends = inc32 g.ends }

abbrev pub count_match : Bool → ActionGroup → ActionGroup
count_match is_match g = record g {
  matched_count = if is_match then inc32 g.matched_count else g.matched_count;
}

abbrev pub decide_action : (num length : ℕ) → ActionGroup → ActionGroup
unfolding filter_empty merge_metadata
decide_action num length g =
    if sle32 num g.matched_count
    then (if g.finished then g else finish true g)
    else if sle32 length g.ends
    then (if g.finished then g else finish false g)
    else g

-- A callback that no other one overlaps.
unfoldable pub on_action_end :
    (match : String) → (num length index : ℕ) → ActionGroup → WrapperMsg → String → ActionGroup
unfolding decide_action
on_action_end match num length index g m relation_type =
    if g.finished
    then g
    else decide_action num length
        (count_match (match == relation_type) (count_action (store_msg index m g)))

-- Each call with the index of its node, what it brings, and its relation type.
unfoldable pub on_action_ends :
    (match : String) → (num length : ℕ) → ActionGroup → List (ℕ × WrapperMsg × String) → ActionGroup
unfolding on_action_end
on_action_ends match num n g [] = g
on_action_ends match num n g ((index, m, r) ∷ ends) =
    on_action_ends match num n (on_action_end match num n index g m r) ends
