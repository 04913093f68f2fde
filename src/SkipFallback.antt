-- ===== src/SkipFallback.antt =====
-- aspect/skip_fallback_aspect.go: the aspect that skips a node which failed too often. The caches
-- (`sync.Map`) are maps by value: a call runs as one step. The limits and the times are Go's int64,
-- bit patterns below 2 ^ 64; the clock is the argument `now`, in milliseconds.
pub mod Laws
mod Tests
use rulego.Prelude.{
  ℕ, String, Bool, true, false, Option, none, some, [], if◌then◌else◌, ◌==◌, string_eq, nat_key,
}
use rulego.Prelude.Dict.{Map, get, put, remove}
use rulego.Prelude.Words.{add64, slt64, sle64}
use rulego.Dsl.{ComponentType, node, chain, RuleNodeId}

pub record NodeError : Type 0 where
  pub error_count : ℕ  -- int64
  pub last_error_time : ℕ  -- int64

abbrev pub ChainNodeErrorCache : Type 0
ChainNodeErrorCache = Map String NodeError

pub record SkipFallbackAspect : Type 0 where
  pub error_count_limit : ℕ  -- int64
  pub limit_duration : ℕ  -- in milliseconds, int64
  pub chain_node_error_cache : Map String ChainNodeErrorCache

abbrev pub failure : String
failure = "Failure"

-- The node of a rule context and its chain.
pub record Place : Type 0 where
  pub chain_id : String
  pub self_id : String

unfoldable pub get_chain_error : SkipFallbackAspect → String → Option ChainNodeErrorCache
get_chain_error aspect chain_id = get chain_id aspect.chain_node_error_cache

unfoldable pub get_node_error : ChainNodeErrorCache → String → Option NodeError
get_node_error cache node_id = get node_id cache

abbrev pub node_error_of : String → Option ChainNodeErrorCache → Option NodeError
unfolding get_node_error
node_error_of id none = none
node_error_of id (some cache) = get_node_error cache id

-- The errors recorded for a node.
unfoldable pub errors_at : SkipFallbackAspect → Place → Option NodeError
unfolding get_chain_error get_node_error
errors_at aspect p = node_error_of p.self_id (get_chain_error aspect p.chain_id)

abbrev pub store_chain : SkipFallbackAspect → String → ChainNodeErrorCache → SkipFallbackAspect
store_chain aspect id cache = record aspect {
  chain_node_error_cache = put id cache aspect.chain_node_error_cache;
}

-- `Around`: the aspect after it, and whether the engine goes on; if not, the aspect has told the
-- message under `Failure`.
abbrev pub around_error :
    ℕ
    → SkipFallbackAspect
    → Place
    → ChainNodeErrorCache
    → Option NodeError
    → SkipFallbackAspect × Bool
around_error now aspect p cache none = (aspect, true)
around_error now aspect p cache (some e) =
    let expired : SkipFallbackAspect × Bool =
      (store_chain aspect p.chain_id (remove p.self_id cache), true) in
    if sle64 aspect.error_count_limit e.error_count
    then (if slt64 (add64 e.last_error_time aspect.limit_duration) now
        then expired
        else (aspect, false))
    else (aspect, true)

abbrev pub around_cached :
    ℕ → SkipFallbackAspect → Place → Option ChainNodeErrorCache → SkipFallbackAspect × Bool
unfolding get_node_error
around_cached now aspect p none = (aspect, true)
around_cached now aspect p (some cache) =
    around_error now aspect p cache (get_node_error cache p.self_id)

unfoldable pub around : ℕ → SkipFallbackAspect → Place → SkipFallbackAspect × Bool
unfolding get_chain_error get_node_error
around now aspect p = around_cached now aspect p (get_chain_error aspect p.chain_id)

abbrev pub cache_or_new : Option ChainNodeErrorCache → ChainNodeErrorCache
cache_or_new none = []
cache_or_new (some cache) = cache

abbrev pub one_error_more : ℕ → Option NodeError → NodeError
one_error_more now none = record { error_count = 1; last_error_time = now }
one_error_more now (some e) = record { error_count = add64 e.error_count 1; last_error_time = now }

-- `After` returns the message as it is.
unfoldable pub after : ℕ → SkipFallbackAspect → Place → String → SkipFallbackAspect
unfolding get_chain_error get_node_error
after now aspect p relation_type =
    let cache = cache_or_new (get_chain_error aspect p.chain_id) in
    let recorded = put p.self_id (one_error_more now (get_node_error cache p.self_id)) cache in
    if relation_type == failure then store_chain aspect p.chain_id recorded else aspect

abbrev pub forget_node :
    SkipFallbackAspect → String → String → Option ChainNodeErrorCache → SkipFallbackAspect
forget_node aspect chain_id id none = aspect
forget_node aspect chain_id id (some cache) = store_chain aspect chain_id (remove id cache)

abbrev pub forget_chain : SkipFallbackAspect → String → SkipFallbackAspect
forget_chain aspect id = record aspect {
  chain_node_error_cache = remove id aspect.chain_node_error_cache;
}

abbrev reload_by_type :
    ComponentType → SkipFallbackAspect → RuleNodeId → RuleNodeId → SkipFallbackAspect
reload_by_type chain aspect parent id = forget_chain aspect id.id
reload_by_type node aspect parent id =
    forget_node aspect parent.id id.id (get parent.id aspect.chain_node_error_cache)

unfoldable pub on_reload : SkipFallbackAspect → RuleNodeId → RuleNodeId → SkipFallbackAspect
on_reload aspect parent id = reload_by_type id.type aspect parent id

abbrev destroy_by_type : ComponentType → SkipFallbackAspect → RuleNodeId → SkipFallbackAspect
destroy_by_type chain aspect id = forget_chain aspect id.id
destroy_by_type node aspect id = aspect

unfoldable pub on_destroy : SkipFallbackAspect → RuleNodeId → SkipFallbackAspect
on_destroy aspect id = destroy_by_type id.type aspect id
