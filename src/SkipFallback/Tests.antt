-- ===== src/SkipFallback/Tests.antt =====
-- Examples of the aspect: a node is skipped after three errors, for a second.
use rulego.Prelude.{
  ◌≡◌, refl, ◌↔◌, true, false, ◌&&◌, none, some, [], ◌∷◌, arith, if◌then◌else◌, string_eq, nat_key,
}
use rulego.Prelude.Dict.{get, put}
use rulego.Prelude.Words.{add64, slt64, sle64}
use rulego.Dsl.{node, chain}
use rulego.SkipFallback.{
  SkipFallbackAspect, Place, NodeError, failure, one_error_more, errors_at, around, after,
  on_reload,
}
use rulego.SkipFallback.Laws.{
  same_place, errors_at-after, around_skips, errors_at-on_reload, failures, failures_skip,
}

abbrev fresh : SkipFallbackAspect
fresh = record { error_count_limit = 3; limit_duration = 1000; chain_node_error_cache = [] }

abbrev place : Place
place = record { chain_id = "c1"; self_id = "s1" }

skipped_test : (around 1900 (failures fresh place (700 ∷ 800 ∷ 900 ∷ [])) place).1 ≡ false
unfolding around after get put
skipped_test = refl

errors_at-after_test : errors_at (after 700 fresh place "Failure") place ≡ (
    if string_eq.beq "Failure" failure && same_place place place
    then some (one_error_more 700 (errors_at fresh place))
    else errors_at fresh place)
errors_at-after_test = errors_at-after 700 fresh place place "Failure"

around_skips_test : ((around 900 fresh place).1 ≡ false) ↔ (
    (e : NodeError) × (errors_at fresh place ≡ some e)
    × (sle64 3 e.error_count ≡ true)
    × (slt64 (add64 e.last_error_time 1000) 900 ≡ false))
around_skips_test = around_skips 900 fresh place

errors_at-on_reload_test :
    errors_at
      (on_reload fresh (record { id = "c1"; type = chain }) (record { id = "s1"; type = node }))
      place
    ≡ (if same_place (record { chain_id = "c1"; self_id = "s1" }) place
        then none
        else errors_at fresh place)
errors_at-on_reload_test = errors_at-on_reload fresh (record { id = "c1"; type = chain }) "s1" place

no_errors : errors_at fresh place ≡ none
unfolding errors_at get
no_errors = refl

failures_skip_example : (around 1900 (failures fresh place (700 ∷ 800 ∷ 900 ∷ [])) place).1 ≡ false
failures_skip_example =
    failures_skip fresh place 700 (800 ∷ 900 ∷ []) 1900 no_errors (omega arith) refl refl
