-- ===== src/Engine/Tests.antt =====
-- A message that runs through two nodes, and one that a node tells under two relation types.
use rulego.Prelude.{
  String, ◌≡◌, refl, Bool, true, false, ◌&&◌, Option, none, some, List, [], ◌∷◌, if◌then◌else◌,
  ◌==◌, string_eq, nat_key,
}
use rulego.Prelude.Dict.{put_all}
use rulego.Msg.{RuleMsg, copy}
use rulego.Chain.{NodeRef, node_ref, chain_ref, node_key}
use rulego.Engine.Context.{
  child_ready, child_done, done, completed, next_node, on_msg_called, on_end_called, State,
}
use rulego.Engine.Run.{initial, Tell, World, run, start, execute_after_aop, handed}
use rulego.Engine.Count.{sum_by}
use rulego.Engine.Executing.{execute_node, execute_node-skips}
use rulego.Engine.Waiting.{Call, custom_end, aspects_completed, closed, on_msg_and_wait}
use rulego.Engine.Done.{completions}

abbrev msg : RuleMsg
msg = record {
  ts = 500;
  id = "m1";
  data_type = "JSON";
  type = "TEMP";
  content = "{}";
  metadata = [];
}

abbrev first : NodeRef
first = node_ref (node_key "s1")

abbrev second : NodeRef
second = node_ref (node_key "s2")

abbrev success : Tell
success = record { msg = msg; err = none; relation_types = some ("Success" ∷ []) }

-- The node s1 leads to s2 under `Success`; nothing else is connected.

abbrev when : Bool → List NodeRef
when true = second ∷ []
when false = []

abbrev is_s1 : NodeRef → Bool
is_s1 (node_ref id) = id.id == "s1"
is_s1 (chain_ref a) = false

abbrev world : List String → World
world relation_types = record {
  env = record { now = 700; uuid = "fresh" };
  on_msg = λ n m. record {
    tells = record success { relation_types = some relation_types } ∷ [];
    panics = false;
  };
  next_nodes = λ n r. when (r == "Success" && is_s1 n);
  before_aspects = [];
  around_aspects = [];
  after_aspects = [];
  global_on_end = false;
  left_metadata = λ n m r. m.metadata;
}

abbrev one : World
one = world ("Success" ∷ [])

abbrev two : World
two = world ("Success" ∷ "Failure" ∷ [])

abbrev at_start : World → State
at_start w = start w (some first) msg

once_test : completions (run one (0 ∷ 0 ∷ 0 ∷ []) (at_start one)) ≡ 1
unfolding run start sum_by
once_test = refl

waiting_test : completions (run one (0 ∷ 0 ∷ []) (at_start one)) ≡ 0
unfolding run start sum_by
waiting_test = refl

-- Two relation types: the callback is called while the second node is still to be run.
early_test :
    (completions (run two (0 ∷ 1 ∷ []) (at_start two)) ≡ 1)
    × ((run two (0 ∷ 1 ∷ []) (at_start two)).tasks ≡ next_node 1 msg second "Success" ∷ [])
unfolding run start sum_by copy put_all
early_test = (refl, refl)

abbrev loud : World
loud = record one {
  before_aspects =
      record { point_cut = λ n m r. true; before = λ n m r. record m { content = "changed" } } ∷ [];
  around_aspects =
      record {
        point_cut = λ n m r. true;
        around = λ n m r. (record m { content = "changed" }, true, []);
      }
      ∷ [];
}

abbrev find_first : String → Option NodeRef
find_first id = if id == "s1" then some first else none

-- The node s1 leads to s2, but only s1 is run.
execute_node-skips_example :
    let s = run one (0 ∷ 0 ∷ []) (execute_node one find_first "s1" msg true) in
    (s.events
      ≡ on_msg_called first (handed one first (copy one.env msg) "")
        ∷ on_end_called 1 (execute_after_aop one [] (some first) msg none "Success") none "Success"
        ∷ [])
    × (s.tasks ≡ [])
execute_node-skips_example =
    execute_node-skips one find_first "s1" first msg msg none "Success" refl _ refl refl

-- Without a node of that name the callback gets the error at once.
missing_test :
    (execute_node one find_first "s9" msg true).events
    ≡ on_end_called 0 msg (some "node id not found nodeId=s9") "Failure" ∷ []
unfolding execute_node
missing_test = refl

abbrev stamp : String → RuleMsg → RuleMsg
stamp text m = record m { content = text }

abbrev waiting_call : Call
waiting_call = record {
  start_aspects = record { point_cut = λ n m r. true; start_with = λ n. stamp "started" } ∷ [];
  end_aspects = record { point_cut = λ n m r. true; end_with = λ n m e r. stamp "ended" m } ∷ [];
  completed_aspects = record { point_cut = λ n m r. true; complete_with = λ n m. m } ∷ [];
  first = some first;
  on_end = true;
  on_all_node_completed = false;
  wait = true;
}

-- The aspects for the completion get the message as it was when the run started.
seen_test :
    on_msg_and_wait one waiting_call msg (0 ∷ 0 ∷ 0 ∷ 0 ∷ [])
    ≡ custom_end 2 (stamp "ended" msg) none "Success"
      ∷ aspects_completed (stamp "started" msg)
      ∷ closed
      ∷ []
unfolding on_msg_and_wait
seen_test = refl

-- The loop of `tell` overlapped by the task that it submitted: the first child is done before the
-- second one is counted, and the callback is called while the second one is still to run.
early_child_test :
    let s = child_ready 0 (done 0 (child_ready 0 (initial (some first)))) in
    (s.events ≡ completed 0 ∷ []) × ((s.contexts 0).waiting_count ≡ 1)
unfolding child_ready child_done initial
early_child_test = (refl, refl)
