-- ===== src/Endpoint/Websocket/Tests.antt =====
-- Examples of the endpoint for web sockets.
use rulego.Prelude.{
  ℕ, String, ◌≡◌, refl, Bool, true, false, none, some, List, [], ◌∷◌, ◌++◌, if◌then◌else◌,
  string_eq, nat_key, filter_map,
}
use rulego.Prelude.Dict.{get, put}
use rulego.Msg.{RuleMsg, Env}
use rulego.Endpoint.{End, is_disable, set_disable, from_to_string}
use rulego.Endpoint.Websocket.{
  text_message, binary_message, control_message, Request, SocketRouter, Heap, Websocket, router_key,
  add_router, remove_router,
}
use rulego.Endpoint.Websocket.Frames.{frame, not_found, handler}
use rulego.Endpoint.Websocket.Laws.{Input, served_part, is_refused, served, handler-served}

abbrev env : Env
env = record { now = 5; uuid = "u" }

abbrev router : Bool → SocketRouter ℕ
router disable = record {
  from = some (record { config = []; from = "/ws"; process_list = []; to = none });
  rule_go = λ id. none;
  disable = disable;
}

abbrev node_run : ℕ → RuleMsg → List End
node_run n msg = []

abbrev request : Request
request = record { url = "/ws"; form_value = λ key. ""; query = [] }

abbrev reads : List (Input ℕ)
reads =
    (env, router false, frame text_message "a")
    ∷ (env, router false, frame control_message "")
    ∷ (env, router true, frame binary_message "b")
    ∷ []

abbrev joined : List String → String
joined vs = "[]"

abbrev number : ℕ → String
number n = "1"

refused_test : is_refused reads ≡ true
unfolding is_disable
refused_test = refl

handler-served_example :
    handler joined number node_run [] [] request reads
    ≡ filter_map (served joined number node_run [] [] request) (served_part reads)
      ++ (if is_refused reads then not_found ∷ [] else [])
handler-served_example = handler-served joined number node_run [] [] request reads

abbrev heap : Heap ℕ
heap a = router false

abbrev started : Websocket
started = record { router_storage = ("GET /ws", 3) ∷ []; handles = ("/ws", 3) ∷ [] }

added_test : (add_router heap (record { router_storage = []; handles = [] }) (some 3)).0.1 ≡ started
unfolding add_router router_key get put from_to_string
added_test = refl

removed_test : is_disable (remove_router heap started "/ws" 3) ≡ true
unfolding remove_router router_key get set_disable is_disable
removed_test = refl
