-- ===== src/SkipFallback/Laws.antt =====
-- When a node is skipped, and what is recorded of its errors.
use rulego.Prelude.{
  ℕ, suc, ◌+◌, ◌^◌, ◌<◌, String, ◌≡◌, refl, sym, ap, ◌∙◌, ◌↔◌, inl, inr, Bool, true, false, ◌&&◌,
  Option, none, some, List, [], ◌∷◌, arith, eq_iff, if◌then◌else◌, ◌==◌, string_eq, nat_key,
  Bool-cases, Option-cases, length, none-ne-some,
}
use rulego.Prelude.Dict.{get, put, remove, eq_self, get-put, get-remove}
use rulego.Prelude.Words.{add64, slt64, sle64}
use rulego.Dsl.{node, RuleNodeId}
use mathlib.Core.Path.{subst}
use mathlib.Core.Bool.{false≢true}
use rulego.SkipFallback.{
  NodeError, SkipFallbackAspect, failure, Place, around_error, around_cached, errors_at,
  node_error_of, store_chain, cache_or_new, ChainNodeErrorCache, one_error_more, around, after,
  on_reload,
}

abbrev pub same_place : Place → Place → Bool
same_place p q = p.chain_id == q.chain_id && p.self_id == q.self_id

errors_at-store_chain :
    (a : SkipFallbackAspect) (id : String) (cache : ChainNodeErrorCache) (q : Place)
    → errors_at (store_chain a id cache) q
      ≡ (if id == q.chain_id then get q.self_id cache else errors_at a q)
unfolding errors_at
errors_at-store_chain a id cache q =
    ground (arith, get-put id q.chain_id cache a.chain_node_error_cache)

get-cache_or_new :
    (id : String) (o : Option ChainNodeErrorCache) → get id (cache_or_new o) ≡ node_error_of id o
unfolding get node_error_of
get-cache_or_new id none = refl
get-cache_or_new id (some cache) = refl

-- The errors of a place in the cache of its chain.
in_cache :
    (a : SkipFallbackAspect) (chain_id : String) (q : Place)
    → chain_id ≡ q.chain_id
    → get q.self_id (cache_or_new (get chain_id a.chain_node_error_cache)) ≡ errors_at a q
unfolding errors_at
in_cache a chain_id q e =
    get-cache_or_new q.self_id (get chain_id a.chain_node_error_cache)
    ∙ ap (λ k. node_error_of q.self_id (get k a.chain_node_error_cache)) e

after-failure :
    (now : ℕ) (a : SkipFallbackAspect) (p : Place) (r : String)
    → (r == failure) ≡ true
    → after now a p r
      ≡ store_chain a p.chain_id (
          put p.self_id
            (one_error_more now (errors_at a p))
            (cache_or_new (get p.chain_id a.chain_node_error_cache)))
unfolding after
after-failure now a p r h =
    rw (h, after)
      (ap
        (λ o. store_chain a p.chain_id (
          put p.self_id (one_error_more now o)
            (cache_or_new (get p.chain_id a.chain_node_error_cache))))
        (in_cache a p.chain_id p refl))

after_cases :
    (p q : Place) (r : String) (fails : (r == failure) ≡ true) (e : NodeError)
    (cache : ChainNodeErrorCache) (old new : Option NodeError)
    → new ≡ (if p.self_id == q.self_id then some e else get q.self_id cache)
    → (p.chain_id ≡ q.chain_id → get q.self_id cache ≡ old)
    → (if p.chain_id == q.chain_id then new else old)
      ≡ (if r == failure && same_place p q then some e else old)
after_cases p q r fails e cache old new h k =
    ground (arith, eq_iff p.chain_id q.chain_id, eq_iff p.self_id q.self_id)

-- A branch that ends under `Failure` counts one more error for its node, at the time of the call, and
-- leaves the errors of all other nodes alone; another relation type changes nothing.
pub errors_at-after :
    (now : ℕ) (a : SkipFallbackAspect) (p q : Place) (r : String)
    → errors_at (after now a p r) q ≡ (
        if r == failure && same_place p q
        then some (one_error_more now (errors_at a p))
        else errors_at a q)
unfolding errors_at after
errors_at-after now a p q r = elim (Bool-cases (r == failure)) [
  | inr other ↦ rw (other, after) refl
  | inl fails ↦
      let cache = cache_or_new (get p.chain_id a.chain_node_error_cache) in
      let e = one_error_more now (errors_at a p) in
      ap (λ b. errors_at b q) (after-failure now a p r fails)
      ∙ errors_at-store_chain a p.chain_id (put p.self_id e cache) q
      ∙ after_cases p q r fails e cache (errors_at a q) (get q.self_id (put p.self_id e cache))
          (get-put p.self_id q.self_id e cache) (in_cache a p.chain_id q)
]

abbrev goes_on : ℕ → SkipFallbackAspect → Option NodeError → Bool
goes_on now a none = true
goes_on now a (some e) =
    if sle64 a.error_count_limit e.error_count
    then slt64 (add64 e.last_error_time a.limit_duration) now
    else true

around_error-goes_on :
    (now : ℕ) (a : SkipFallbackAspect) (p : Place) (cache : ChainNodeErrorCache)
    (o : Option NodeError)
    → (around_error now a p cache o).1 ≡ goes_on now a o
around_error-goes_on now a p cache none = refl
around_error-goes_on now a p cache (some e) = ground arith

around_cached-goes_on :
    (now : ℕ) (a : SkipFallbackAspect) (p : Place) (o : Option ChainNodeErrorCache)
    → (around_cached now a p o).1 ≡ goes_on now a (node_error_of p.self_id o)
unfolding around_cached node_error_of
around_cached-goes_on now a p none = refl
around_cached-goes_on now a p (some cache) =
    around_error-goes_on now a p cache (get p.self_id cache)

around-goes_on :
    (now : ℕ) (a : SkipFallbackAspect) (p : Place)
    → (around now a p).1 ≡ goes_on now a (errors_at a p)
unfolding errors_at around
around-goes_on now a p = around_cached-goes_on now a p (get p.chain_id a.chain_node_error_cache)

recent_skips :
    (now : ℕ) (a : SkipFallbackAspect) (e e' : NodeError)
    → some e ≡ some e'
    → sle64 a.error_count_limit e'.error_count ≡ true
    → slt64 (add64 e'.last_error_time a.limit_duration) now ≡ false
    → goes_on now a (some e) ≡ false
recent_skips now a e e' same limit recent =
    subst (λ o. goes_on now a o ≡ false) (sym same) (rw limit recent)

goes_on-skips :
    (now : ℕ) (a : SkipFallbackAspect) (o : Option NodeError)
    → (goes_on now a o ≡ false) ↔ (
        (e : NodeError) × (o ≡ some e)
        × (sle64 a.error_count_limit e.error_count ≡ true)
        × (slt64 (add64 e.last_error_time a.limit_duration) now ≡ false))
goes_on-skips now a none = ((λ h. absurd (false≢true (sym h))), (λ t. absurd (none-ne-some t.1)))
goes_on-skips now a (some e) = (
  (λ h. (e, refl, ground (arith, h), ground (arith, h))),
  (λ t. recent_skips now a e t.0 t.1 t.2 t.3),
)

-- The aspect takes the place of a node exactly when at least the limit of errors is recorded for it,
-- and the time of the last error plus the duration of the limit has not passed.
pub around_skips :
    (now : ℕ) (a : SkipFallbackAspect) (p : Place)
    → ((around now a p).1 ≡ false) ↔ (
        (e : NodeError) × (errors_at a p ≡ some e)
        × (sle64 a.error_count_limit e.error_count ≡ true)
        × (slt64 (add64 e.last_error_time a.limit_duration) now ≡ false))
unfolding errors_at around
around_skips now a p =
    let (to, from) = goes_on-skips now a (errors_at a p) in
    let same = around-goes_on now a p in ((λ h. to (sym same ∙ h)), (λ t. same ∙ from t))

forgotten :
    (parent id : String) (q : Place) (old : Option NodeError)
    → (parent ≡ q.chain_id → old ≡ none)
    → old ≡ (if parent == q.chain_id && id == q.self_id then none else old)
forgotten parent id q old h = ground (arith, eq_iff parent q.chain_id)

forgotten_in :
    (parent id : String) (q : Place) (old new in_cache : Option NodeError)
    → new ≡ (if id == q.self_id then none else in_cache)
    → (parent ≡ q.chain_id → in_cache ≡ old)
    → (if parent == q.chain_id then new else old)
      ≡ (if parent == q.chain_id && id == q.self_id then none else old)
forgotten_in parent id q old new in_cache h k = ground (arith, eq_iff parent q.chain_id)

-- Reloading a node forgets its errors, and no others.
pub errors_at-on_reload :
    (a : SkipFallbackAspect) (parent : RuleNodeId) (id : String) (q : Place)
    → errors_at (on_reload a parent (record { id = id; type = node })) q ≡ (
        if same_place (record { chain_id = parent.id; self_id = id }) q
        then none
        else errors_at a q)
unfolding errors_at on_reload
errors_at-on_reload a parent id q = elim (Option-cases (get parent.id a.chain_node_error_cache)) [
  | inl unknown ↦ rw unknown (
      forgotten parent.id id q (errors_at a q) (λ e.
        ap (λ k. node_error_of q.self_id (get k a.chain_node_error_cache)) (sym e)
        ∙ ap (node_error_of q.self_id) unknown))
  | inr (cache, known) ↦ rw known (
      errors_at-store_chain a parent.id (remove id cache) q
      ∙ forgotten_in parent.id id q (errors_at a q) (get q.self_id (remove id cache))
          (get q.self_id cache) (get-remove id q.self_id cache)
          (λ e. ap (λ o. get q.self_id (cache_or_new o)) (sym known) ∙ in_cache a parent.id q e))
]

-- Failures of one node at the given times, one after the other.
abbrev pub failures : SkipFallbackAspect → Place → List ℕ → SkipFallbackAspect
failures a p [] = a
failures a p (now ∷ times) = failures (after now a p failure) p times

abbrev pub last_of : ℕ → List ℕ → ℕ
last_of now [] = now
last_of now (t ∷ times) = last_of t times

again :
    (a : SkipFallbackAspect) (p : Place) (now : ℕ)
    → errors_at (after now a p failure) p ≡ some (one_error_more now (errors_at a p))
again a p now = ground (
  arith,
  errors_at-after now a p p failure,
  eq_self failure,
  eq_self p.chain_id,
  eq_self p.self_id,
)

failures_from :
    (a : SkipFallbackAspect) (p : Place) (count now : ℕ) (times : List ℕ)
    → errors_at a p ≡ some (record { error_count = count; last_error_time = now })
    → count + length times < 2 ^ 63
    → errors_at (failures a p times) p
      ≡ some (record { error_count = count + length times; last_error_time = last_of now times })
failures_from a p count now [] h b =
    h ∙ ap (λ c. some (record { error_count = c; last_error_time = now })) (omega arith)
failures_from a p count now (t ∷ times) h b =
    failures_from (after t a p failure) p (count + 1) t times
      (again a p t
        ∙ ap (λ o. some (one_error_more t o)) h
        ∙ ap (λ c. some (record { error_count = c; last_error_time = t })) (omega arith))
      (omega arith)
    ∙ ap (λ c. some (record { error_count = c; last_error_time = last_of t times })) (omega arith)

after-limits :
    (a : SkipFallbackAspect) (p : Place) (t : ℕ)
    → ((after t a p failure).error_count_limit ≡ a.error_count_limit)
      × ((after t a p failure).limit_duration ≡ a.limit_duration)
after-limits a p t =
    let same = after-failure t a p failure (eq_self failure) in
    (ap (λ b. b.error_count_limit) same, ap (λ b. b.limit_duration) same)

failures-limits :
    (a : SkipFallbackAspect) (p : Place) (times : List ℕ)
    → ((failures a p times).error_count_limit ≡ a.error_count_limit)
      × ((failures a p times).limit_duration ≡ a.limit_duration)
failures-limits a p [] = (refl, refl)
failures-limits a p (t ∷ times) =
    let (count, duration) = failures-limits (after t a p failure) p times in
    (count ∙ (after-limits a p t).0, duration ∙ (after-limits a p t).1)

-- A node without errors that fails as often as the limit says, or more often, is skipped from then on
-- until the time of its last failure plus the duration of the limit has passed. The node fails at
-- least once and less than 2 ^ 63 times.
pub failures_skip :
    (a : SkipFallbackAspect) (p : Place) (first : ℕ) (times : List ℕ) (now : ℕ)
    → errors_at a p ≡ none
    → suc (length times) < 2 ^ 63
    → sle64 a.error_count_limit (suc (length times)) ≡ true
    → slt64 (add64 (last_of first times) a.limit_duration) now ≡ false
    → (around now (failures a p (first ∷ times)) p).1 ≡ false
failures_skip a p first times now h b limit recent =
    let errors =
      failures_from (after first a p failure) p 1 first times
        (again a p first ∙ ap (λ o. some (one_error_more first o)) h) (omega arith) in
    let (count, duration) = failures-limits a p (first ∷ times) in
    (around_skips now (failures a p (first ∷ times)) p).1 (
      _,
      errors,
      rw count (ap (sle64 a.error_count_limit) (omega arith) ∙ limit),
      rw duration recent,
    )
