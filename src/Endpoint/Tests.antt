-- ===== src/Endpoint/Tests.antt =====
-- Examples of routers, over messages that carry what endpoint.go needs.
use rulego.Prelude.{
  ℕ, ◌+◌, String, ◌≡◌, refl, ◌≢◌, ◌⊎◌, true, false, not, ◌&&◌, Option, none, some, List, [], ◌∷◌,
  ◌++◌, if◌then◌else◌, ◌==◌, string_eq, nat_key, is_some,
}
use rulego.Prelude.Dict.{get, put}
use rulego.Result.{Result, ok, err}
use rulego.Json.{Value, text}
use rulego.Dsl.{Configuration}
use rulego.Text.{check_has_var, contains}
use rulego.Msg.{RuleMsg, json_type}
use rulego.Endpoint.{
  MessageOps, Exchange, Process, End, Engine, Executor, chain_executor, To, From, Router,
  execute_process, to_side, to_string_by_dict, on_branch_ends, chain_not_found, chain_execute,
  do_process,
}
use rulego.Endpoint.Laws.{
  MessageLaws, Calls, do_process-pipeline, chain_execute-settled, AllGoOn, made_by,
}
use rulego.Endpoint.Errors.{error_of, last_error, chain_execute-error}
use rulego.Endpoint.Building.{
  before_colon, after_colon, path_key, new, is_path_support_var, init, make_to, default_executors,
  register,
}
use rulego.Endpoint.Building.Laws.{make_to-outcomes}

abbrev Plain : Type 0
Plain = Option RuleMsg × Option String

abbrev plain : MessageOps Plain
plain = record {
  get_msg = λ m. (m, m.0);
  set_msg = λ msg m. (some msg, m.1);
  set_status_code = λ code m. m;
  set_body = λ b m. m;
  get_error = λ m. m.1;
  set_error = λ e m. (m.0, some e);
}

plain_laws : MessageLaws plain
plain_laws = record { error_set = λ e m. refl; error_kept = λ msg m. refl }

abbrev msg : RuleMsg
msg = record { ts = 1; id = "m"; data_type = json_type; type = "T"; content = ""; metadata = [] }

abbrev count_on : Process Plain Plain
count_on x = (record x { in_message = (some msg, none) }, true)

abbrev stop : Process Plain Plain
stop x = (x, false)

abbrev chain_to : To Plain Plain ℕ
chain_to = record {
  has_vars = false;
  config = [];
  to = "chain:c1";
  to_path = "c1";
  process_list = count_on ∷ [];
  executor = some chain_executor;
  wait = true;
}

abbrev from_side_of : Option (To Plain Plain ℕ) → From Plain Plain ℕ
from_side_of to = record { config = []; from = "/a"; process_list = stop ∷ []; to = to }

abbrev failing : Engine
failing m = (m, some "boom") ∷ (m, none) ∷ []

abbrev router : Router Plain Plain ℕ
router = record {
  from = some (from_side_of (some chain_to));
  rule_go = λ id. if id == "c1" then some failing else none;
  disable = false;
}

abbrev exchange : Exchange Plain Plain
exchange = record { in_message = (some msg, none); out = (none, none) }

abbrev node_run : ℕ → RuleMsg → List End
node_run n m = (m, none) ∷ []

stopped : do_process plain plain node_run (count_on ∷ []) router exchange ≡ (exchange, [])
unfolding do_process execute_process
stopped = refl

do_process-pipeline_example :
    let qs = (count_on ∷ []) ++ (stop ∷ []) in
    let told = do_process plain plain node_run (count_on ∷ []) router exchange in
    (AllGoOn qs exchange × (told ≡ to_side plain plain node_run router (made_by qs exchange)))
    ⊎ ((before : List (Process Plain Plain)) × (p : Process Plain Plain) × (after : List
          (Process Plain Plain))
        × (qs ≡ before ++ p ∷ after)
        × AllGoOn before exchange
        × ((p (made_by before exchange)).1 ≡ false)
        × (told ≡ ((p (made_by before exchange)).0, [])))
do_process-pipeline_example =
    do_process-pipeline plain plain node_run (count_on ∷ []) router exchange

calls : Calls plain plain router exchange chain_to (some msg, none) msg
calls = record { f = from_side_of (some chain_to); has_from = refl; has_to = refl; makes = refl }

found : router.rule_go (to_string_by_dict chain_to []) ≡ some failing
unfolding to_string_by_dict
found = refl

chain_execute-settled_test :
    let (x', later) = chain_execute plain plain router exchange in
    (on_branch_ends plain chain_to x' later ≡ on_branch_ends plain chain_to exchange (failing msg))
    × (true ≡ true → later ≡ [])
    × (true ≡ false → (x' ≡ exchange) × (later ≡ failing msg))
chain_execute-settled_test =
    chain_execute-settled plain plain router exchange chain_to (some msg, none) msg failing calls
      found

chain_execute-error_example :
    let (x', later) = chain_execute plain plain router exchange in
    let chain_id = to_string_by_dict chain_to [] in
    ((engine : Engine)
      → router.rule_go chain_id ≡ some engine
      → error_of plain (on_branch_ends plain chain_to x' later) ≡ last_error none (engine msg))
    × (router.rule_go chain_id ≡ none
        → (later ≡ [])
          × (chain_to.process_list ≢ [] → error_of plain x' ≡ some (chain_not_found chain_id))
          × (chain_to.process_list ≡ [] → error_of plain x' ≡ none))
chain_execute-error_example =
    chain_execute-error plain plain plain_laws router exchange chain_to (some msg, none) msg calls
      ((λ x. refl), tt)

abbrev new_node : String → Result ℕ
new_node type = if type == "known" then ok 7 else err "not found"

abbrev init_node : Configuration → ℕ → Result ℕ
init_node config n = ok (n + 1)

abbrev value_text : Value → String
value_text (text s) = s
value_text _ = ""

abbrev trim : String → String
trim s = s

made_chain :
    let (t, panicked) =
      make_to new_node init_node value_text trim {In = Plain} {Out = Plain} default_executors
        "chain:${id}" [] in
    (panicked ≡ none)
    × (t.executor ≡ some chain_executor)
    × (t.to_path ≡ "${id}")
    × (t.has_vars ≡ true)
unfolding make_to new default_executors register before_colon after_colon init check_has_var put get
    contains
made_chain = (refl, refl, refl, refl)

panics :
    (make_to new_node init_node value_text trim {In = Plain} {Out = Plain} default_executors "chain"
      []).1
    ≡ some "slice bounds out of range"
unfolding make_to new default_executors register before_colon after_colon init check_has_var put get
    contains
panics = refl

make_to-outcomes_test :
    let (t, panicked) =
      make_to new_node init_node value_text trim {In = Plain} {Out = Plain} default_executors
        "component:known" [] in
    (new {Node = ℕ} default_executors (before_colon "component:known") ≡ none
      → (panicked ≡ none) × (t.executor ≡ some chain_executor) × (t.to_path ≡ "component:known"))
    × ((e : Executor ℕ)
        → new {Node = ℕ} default_executors (before_colon "component:known") ≡ some e
        → (check_has_var "component:known" && not (is_path_support_var e) ≡ true
            → (is_some panicked ≡ true) × (t.executor ≡ none))
          × (after_colon "component:known" ≡ none → (is_some panicked ≡ true) × (t.executor ≡ none))
          × ((rest : String) (made : Executor ℕ) (failed : Option String)
              → check_has_var "component:known" && not (is_path_support_var e) ≡ false
              → after_colon "component:known" ≡ some rest
              → init new_node init_node value_text trim e t.config ≡ (made, failed)
              → (t.to_path ≡ trim rest)
                × (get path_key t.config ≡ some (text (trim rest)))
                × (panicked ≡ failed)
                × (t.executor ≡ (if is_some failed then none else some made))))
make_to-outcomes_test =
    make_to-outcomes new_node init_node value_text trim Plain Plain default_executors
      "component:known" []
