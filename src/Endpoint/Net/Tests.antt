-- ===== src/Endpoint/Net/Tests.antt =====
-- Examples of the line endpoint.
use rulego.Prelude.{
  ℕ, String, ◌≡◌, refl, Bool, true, false, none, some, List, [], ◌∷◌, map, if◌then◌else◌, ◌==◌,
  string_eq, nat_key, filter_map,
}
use rulego.Result.{Result, ok, err}
use rulego.Dsl.{pos}
use rulego.Msg.{RuleMsg, Env}
use rulego.Endpoint.{End}
use rulego.Endpoint.Net.{
  NetRouter, Routers, new_config, init, add_router, Read, line, net_timeout, net_error, handler,
}
use rulego.Endpoint.Net.Laws.{take_until, ends_loop, text_of, process_text, handler-rounds}

abbrev compile : String → Result (String → Bool)
compile expr = if expr == "(" then err "missing )" else ok (λ text. text == expr)

abbrev router : NetRouter ℕ
router = record {
  from = some (record { config = []; from = "a"; process_list = []; to = none });
  rule_go = λ id. none;
  disable = false;
}

abbrev routers : Routers ℕ
routers = ("b", record { router = router; regexp = none }) ∷ []

tcp : (init (record { protocol = ""; server = ":1"; read_timeout = pos 0 })).protocol ≡ "tcp"
unfolding init
tcp = refl

-- A router without a `From` panics.
bare_test : add_router compile routers (some (record router { from = none })) ≡ none
unfolding add_router
bare_test = refl

abbrev env : Env
env = record { now = 5; uuid = "u" }

abbrev node_run : ℕ → RuleMsg → List End
node_run n msg = []

abbrev reads : List (Env × Routers ℕ × Bool × Read)
reads =
    (env, routers, true, line "x")
    ∷ (env, routers, true, line "ping")
    ∷ (env, routers, true, net_timeout)
    ∷ (env, routers, true, net_error)
    ∷ (env, routers, true, line "y")
    ∷ []

one_line : filter_map text_of (take_until (ends_loop new_config) reads) ≡ (env, routers, "x") ∷ []
one_line = refl

handler-rounds_example :
    handler node_run new_config [] "1.2.3.4:5" reads
    ≡ map
        (process_text node_run new_config [] "1.2.3.4:5")
        (filter_map text_of (take_until (ends_loop new_config) reads))
handler-rounds_example = handler-rounds node_run new_config [] "1.2.3.4:5" reads
