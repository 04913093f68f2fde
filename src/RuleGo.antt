-- ===== src/RuleGo.antt =====
-- rulego.go, and `RuleEngine` of engine.go: engines, reloading, and the pool of engines by identifier.
-- `Parser.DecodeRuleChain` is the parameter `decode`; options, aspects and the destruction of
-- components are left out. Pools have addresses, and an engine is kept by value.
pub mod Loading
pub mod Laws
mod Tests
use rulego.Prelude.{
  ℕ, String, not, Option, none, some, [], ◌∷◌, if◌then◌else◌, ◌==◌, string_eq, nat_key,
}
use rulego.Prelude.Dict.{Map, get, put, remove, has}
use rulego.Result.{Result, ok, err}
use rulego.Dsl.{RuleNodeId, chain}
use rulego.Chain.{RuleChainCtx, chain_key, copy, set_rule_chain_pool}

-- The address of `DefaultRuleGo`.
abbrev pub default_rule_go : ℕ
default_rule_go = 0

pub record RuleEngine (C : Type 0) : Type 0 where
  pub id : String
  pub rule_chain_pool : ℕ
  pub root_rule_chain_ctx : Option (RuleChainCtx C)

abbrev pub with_chain : {C : Type 0} → RuleEngine C → RuleChainCtx C → RuleEngine C
with_chain e rc = record e {
  root_rule_chain_ctx = some (set_rule_chain_pool rc (some e.rule_chain_pool));
}

module _ {C : Type 0} (decode : String → Result (RuleChainCtx C)) where
  abbrev pub reload_chain_with :
      RuleChainCtx C → Result (RuleChainCtx C) → RuleChainCtx C × Option String
  reload_chain_with rc (ok ctx) = (copy rc ctx, none)
  reload_chain_with rc (err e) = (rc, some e)

  -- `RuleChainCtx.ReloadSelf`, with the error that it returns.
  unfoldable pub reload_chain : RuleChainCtx C → String → RuleChainCtx C × Option String
  reload_chain rc def = reload_chain_with rc (decode def)

  abbrev pub first_load : RuleEngine C → Result (RuleChainCtx C) → RuleEngine C × Option String
  first_load e (ok ctx) = (with_chain e ctx, none)
  first_load e (err text) = (e, some text)

  abbrev pub reload_root :
      RuleEngine C → String → Option (RuleChainCtx C) → RuleEngine C × Option String
  unfolding reload_chain
  reload_root e def none = first_load e (decode def)
  reload_root e def (some rc) = let (rc', text) = reload_chain rc def in (with_chain e rc', text)

  -- `RuleEngine.ReloadSelf`
  unfoldable pub reload_self : RuleEngine C → String → RuleEngine C × Option String
  unfolding reload_chain
  reload_self e def = reload_root e def e.root_rule_chain_ctx

  -- The identifier that was asked for goes to the chain; without one the engine takes the chain's.
  abbrev pub name_engine : String → RuleEngine C → Option (RuleChainCtx C) → RuleEngine C
  name_engine id e none = e
  name_engine id e (some rc) =
      if id == ""
      then record e { id = rc.id.id }
      else record e { root_rule_chain_ctx = some (record rc { id = chain_key id }) }

  abbrev pub named_or_failed : String → RuleEngine C × Option String → Result (RuleEngine C)
  named_or_failed id (e, some text) = err text
  named_or_failed id (e, none) = ok (name_engine id e e.root_rule_chain_ctx)

  unfoldable pub new_rule_engine : String → String → Result (RuleEngine C)
  unfolding reload_self
  new_rule_engine id def =
      let fresh : RuleEngine C = record {
        id = id;
        rule_chain_pool = default_rule_go;
        root_rule_chain_ctx = none;
      } in
      if def == "" then err "def can not nil" else named_or_failed id (reload_self fresh def)

  unfoldable pub stop : RuleEngine C → RuleEngine C
  stop e = record e { root_rule_chain_ctx = none }

  abbrev pub Engines : Type 0
  Engines = Map String (RuleEngine C)

  unfoldable pub get_engine : Engines → String → Option (RuleEngine C)
  get_engine g id = get id g

  -- The new engine is stored under its identifier, if it has one, and belongs to the pool `self`.
  abbrev pub store_engine : ℕ → Engines → Result (RuleEngine C) → Engines × Result (RuleEngine C)
  store_engine self g (err text) = (g, err text)
  store_engine self g (ok e) =
      let e' = record e { rule_chain_pool = self } in
      ((if e.id == "" then g else put e.id e' g), ok e')

  abbrev pub found_or_new :
      ℕ → Engines → String → String → Option (RuleEngine C) → Engines × Result (RuleEngine C)
  unfolding new_rule_engine
  found_or_new self g id def (some e) = (g, ok e)
  found_or_new self g id def none = store_engine self g (new_rule_engine id def)

  -- `RuleGo.New` of the pool at the address `self`.
  unfoldable pub new_engine : ℕ → Engines → String → String → Engines × Result (RuleEngine C)
  unfolding new_rule_engine
  new_engine self g id def = found_or_new self g id def (get id g)

  -- `Del`: what was stopped is no longer in the pool.
  unfoldable pub del_engine : Engines → String → Engines
  del_engine g id = if has id g then remove id g else g

  -- `Stop`, over the engines that the range comes to.
  unfoldable pub stop_all : Engines → Engines → Engines
  stop_all [] g = g
  stop_all ((id, e) ∷ rest) g = stop_all rest (remove id g)
