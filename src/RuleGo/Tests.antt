-- ===== src/RuleGo/Tests.antt =====
-- Examples of a pool of engines: a text is the identifier of the chain that it defines.
use rulego.RuleGo.Loading.{load_pattern, load_files, load, load-stops}
use rulego.Prelude.{
  String, ◌≡◌, refl, ◌≢◌, ◌⊎◌, true, false, Option, none, some, List, [], ◌∷◌, eq_iff,
  if◌then◌else◌, ◌==◌, string_eq, nat_key,
}
use rulego.Prelude.Dict.{get, put}
use mathlib.Core.Bool.{false≢true}
use rulego.Result.{Result, ok, err}
use rulego.Dsl.{pos, RuleChain}
use rulego.Chain.{RuleChainCtx, chain_key, set_rule_chain_pool}
use rulego.RuleGo.{RuleEngine, Engines, reload_self, new_engine, get_engine, del_engine, stop_all}
use rulego.RuleGo.Laws.{reload_self_outcomes, get_engine-new, get_engine-del, get_engine-stop_all}

abbrev blank : RuleChain
blank = record {
  rule_chain = record {
    id = "";
    additional_info = [];
    name = "";
    debug_mode = false;
    root = true;
    configuration = [];
  };
  metadata = record {
    first_node_index = pos 0;
    nodes = [];
    connections = [];
    rule_chain_connections = [];
  };
}

abbrev ctx : String → RuleChainCtx (Unit {0})
ctx id = record {
  id = chain_key id;
  self_definition = blank;
  initialized = true;
  node_ids = [];
  nodes = [];
  node_routes = [];
  relation_cache = [];
  root_rule_context = none;
  rule_chain_pool = none;
}

abbrev decode : String → Result (RuleChainCtx (Unit {0}))
decode def = if def == "{" then err "unexpected end" else ok (ctx def)

abbrev engine : RuleEngine (Unit {0})
engine = record {
  id = "e1";
  rule_chain_pool = 7;
  root_rule_chain_ctx = some (record (ctx "c1") { id = chain_key "e1"; rule_chain_pool = some 0 });
}

abbrev pool : Engines decode
pool = ("e1", engine) ∷ []

made : new_engine decode 7 [] "e1" "c1" ≡ (pool, ok engine)
unfolding new_engine set_rule_chain_pool get put
made = refl

reload_self_outcomes_example :
    let (e', error) = reload_self decode engine "c2" in
    (e'.id ≡ "e1")
    × (((text : String) × (decode "c2" ≡ err text)
          × (error ≡ some text)
          × (e'.root_rule_chain_ctx
              ≡ some (
                  set_rule_chain_pool
                    (record (ctx "c1") { id = chain_key "e1"; rule_chain_pool = some 0 })
                    (some 7))))
        ⊎ ((ctx' new : RuleChainCtx (Unit {0})) × (decode "c2" ≡ ok ctx')
            × (error ≡ none)
            × (e'.root_rule_chain_ctx ≡ some new)
            × (new ≡ record ctx' { relation_cache = []; rule_chain_pool = some 7 })))
reload_self_outcomes_example =
    reload_self_outcomes decode engine
      (record (ctx "c1") { id = chain_key "e1"; rule_chain_pool = some 0 }) "c2" refl

named : engine.id ≢ ""
named e = false≢true ((eq_iff "e1" "").1 e)

free : get_engine decode [] "e1" ≡ none
unfolding get_engine get
free = refl

get_engine-new_example :
    (get_engine decode pool "e1" ≡ some engine)
    × (engine.rule_chain_pool ≡ 7)
    × ((def' : String) → new_engine decode 7 pool "e1" def' ≡ (pool, ok engine))
    × ((k : String) → k ≢ engine.id → get_engine decode pool k ≡ get_engine decode [] k)
get_engine-new_example = get_engine-new decode 7 [] pool "e1" "c1" engine named free made

get_engine-del_test :
    get_engine decode (del_engine decode pool "e1") "e1"
    ≡ (if string_eq.beq "e1" "e1" then none else get_engine decode pool "e1")
get_engine-del_test = get_engine-del decode pool "e1" "e1"

get_engine-stop_all_test : get_engine decode (stop_all decode pool pool) "e1" ≡ none
get_engine-stop_all_test = get_engine-stop_all decode pool "e1"

abbrev folder_paths : String → Result (List String)
folder_paths pattern =
    if pattern == "chains/*.json" then ok ("a" ∷ "b" ∷ "c" ∷ []) else err "no such folder"

abbrev file_text : String → Option String
file_text path = if path == "b" then some "{" else some path

abbrev loaded : Engines decode
loaded =
    (
      "a",
      record {
        id = "a";
        rule_chain_pool = 7;
        root_rule_chain_ctx = some (record (ctx "a") { rule_chain_pool = some 0 });
      },
    )
    ∷ []

pattern_test :
    (load_pattern "chains/" ≡ load_pattern "chains") × (load_pattern "x*.json" ≡ "x*.json")
unfolding load_pattern
pattern_test = (refl, refl)

first_file : load_files decode file_text 7 [] ("a" ∷ []) ≡ (loaded, none)
unfolding load_files new_engine set_rule_chain_pool get put
first_file = refl

chain_files : folder_paths (load_pattern "chains") ≡ ok ("a" ∷ "b" ∷ "c" ∷ [])
unfolding load_pattern
chain_files = refl

second_file : (new_engine decode 7 loaded "" "{").1 ≡ err "unexpected end"
unfolding new_engine get
second_file = refl

load-stops_example :
    load decode folder_paths file_text 7 [] "chains" ≡ (loaded, some "unexpected end")
load-stops_example =
    load-stops decode folder_paths file_text 7 [] loaded "chains" "b" "{" "unexpected end"
      ("a" ∷ []) ("c" ∷ []) chain_files first_file refl second_file
