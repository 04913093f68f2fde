-- ===== src/Endpoint/Rest/Tests.antt =====
-- Examples of the HTTP endpoint.
use rulego.Prelude.{
  ℕ, String, ◌≡◌, refl, ◌≢◌, Bool, true, false, none, some, List, [], ◌∷◌, if◌then◌else◌, ◌==◌,
  string_eq, nat_key,
}
use rulego.Prelude.Dict.{get, put}
use rulego.Msg.{RuleMsg, Env}
use rulego.Endpoint.{End, is_disable, set_disable, from_to_string}
use rulego.Endpoint.Rest.Messages.{Request}
use rulego.Endpoint.Rest.{
  HttpRouter, Heap, Rest, router_key, add_method, add_methods, add_router, disable_methods,
  remove_router, not_found, handler,
}
use rulego.Endpoint.Rest.Laws.{IsSound, add-remove-add, handler-removed}

abbrev upper : String → String
upper s = if s == "get" then "GET" else if s == "post" then "POST" else s

abbrev accepts : List (String × String × ℕ) → String → String → Bool
accepts handles method path = false

abbrev router : HttpRouter ℕ
router = record {
  from = some (record { config = []; from = "/a"; process_list = []; to = none });
  rule_go = λ id. none;
  disable = false;
}

abbrev heap : Heap ℕ
heap a = router

abbrev fresh : Rest
fresh = record { router_storage = []; handles = [] }

abbrev rest : Rest
rest = record {
  router_storage = ("POST /a", 1) ∷ ("GET /a", 1) ∷ [];
  handles = ("POST", "/a", 1) ∷ ("GET", "/a", 1) ∷ [];
}

two_methods :
    (add_router upper accepts heap fresh ("get" ∷ "post" ∷ []) (some 1)).0.1.handles ≡ rest.handles
unfolding add_router add_methods add_method router_key put get from_to_string
two_methods = refl

-- A router without a `From` panics after it was stored.
bare_test :
    (add_router upper accepts (λ a. record router { from = none }) fresh ("get" ∷ []) (some 1)).0.2
    ≡ some "nil pointer dereference"
unfolding add_router add_methods add_method router_key put get from_to_string
bare_test = refl

-- A method that is not in capitals finds no router, and nothing is removed.
not_removed : is_disable ((remove_router heap rest ("get" ∷ []) "/a").0 1) ≡ false
unfolding remove_router disable_methods router_key get set_disable is_disable
not_removed = refl

-- Removed under one method, a router answers under none.
removed_for_all : is_disable ((remove_router heap rest ("GET" ∷ []) "/a").0 1) ≡ true
unfolding remove_router disable_methods router_key get set_disable is_disable
removed_for_all = refl

rest-IsSound : IsSound rest
unfolding router_key get
rest-IsSound = (refl, (refl, tt))

free : get (router_key (upper "get") (from_to_string router)) fresh.router_storage ≡ none
unfolding router_key get from_to_string
free = refl

add-remove-add_example :
    let (h1, r1, p1) = (add_router upper accepts heap fresh ("get" ∷ []) (some 1)).0 in
    let h2 = (remove_router h1 r1 ("GET" ∷ []) (from_to_string router)).0 in
    let (h3, r3, p3) = (add_router upper accepts h2 r1 ("get" ∷ []) (some 2)).0 in
    (r1.handles ≡ ("GET", from_to_string router, 1) ∷ [])
    × (is_disable (h2 1) ≡ true)
    × (is_disable (h3 1) ≡ false)
    × (r3 ≡ r1)
    × (◌≢◌ {A = ℕ} 2 1 → h3 2 ≡ heap 2)
add-remove-add_example = add-remove-add upper accepts heap fresh "get" 1 2 free refl refl

abbrev env : Env
env = record { now = 5; uuid = "u" }

abbrev request : Request
request = record {
  url = "/a?x=1";
  header = λ key. "application/json";
  body = "{}";
  form_value = λ key. "";
  query = ("x", "1" ∷ []) ∷ [];
}

abbrev node_run : ℕ → RuleMsg → List End
node_run n msg = []

abbrev joined : List String → String
joined vs = "[]"

handler-removed_example :
    let heap' = (remove_router heap rest ("GET" ∷ []) "/a").0 in
    (handler joined node_run env [] (heap' 1) [] request ≡ not_found)
    × ((b : ℕ) → b ≢ 1 → heap' b ≡ heap b)
handler-removed_example =
    handler-removed node_run joined heap rest 1 "GET" "/a" 1 env [] [] request rest-IsSound refl
