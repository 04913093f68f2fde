-- ===== src/RuleGo/Laws.antt =====
-- What the pool of engines finds, and what a reload leaves of an engine.
use rulego.Prelude.{
  ℕ, String, ◌≡◌, refl, sym, ap, ◌∙◌, ◌≢◌, ◌⊎◌, inl, inr, true, false, Option, none, some, [], ◌∷◌,
  arith, eq_iff, if◌then◌else◌, ◌==◌, string_eq, nat_key, Bool-cases,
}
use rulego.Prelude.Dict.{get, put, remove, has, get-put, get-remove, get-put_self}
use rulego.Result.{Result, ok, err, Result-cases, err-ne-ok, ok-injective}
use rulego.Chain.{RuleChainCtx, copy, set_rule_chain_pool}
use rulego.RuleGo.{
  RuleEngine, Engines, default_rule_go, with_chain, reload_chain, reload_self, first_load,
  name_engine, named_or_failed, new_rule_engine, get_engine, store_engine, new_engine, del_engine,
  stop_all,
}

not_empty : (id : String) → id ≢ "" → (id == "") ≡ false
not_empty id h = ground (arith, eq_iff id "")

skip {ℓ} : {A : Type ℓ} (id k : String) (a b : A) → k ≢ id → (if id == k then a else b) ≡ b
skip id k a b other = elim (Bool-cases (id == k)) [
  | inl same ↦ absurd (other (sym ((eq_iff id k).0 same)))
  | inr different ↦ rw different refl
]

module _ {C : Type 0} (decode : String → Result (RuleChainCtx C)) where
  -- A reload of an engine that has a chain keeps the name of the engine. If the text cannot be decoded
  -- it returns the error, and the chain stays as it is but for the pool, which becomes that of the
  -- engine. If it can, the chain is replaced as a whole, its identifier and its pool included, so that
  -- the name which `New` gave to the chain is lost where the definition has another.
  pub reload_self_outcomes :
      (e : RuleEngine C) (rc : RuleChainCtx C) (def : String)
      → e.root_rule_chain_ctx ≡ some rc
      → let (e', error) = reload_self decode e def in
        (e'.id ≡ e.id)
        × (((text : String) × (decode def ≡ err text)
              × (error ≡ some text)
              × (e'.root_rule_chain_ctx ≡ some (set_rule_chain_pool rc (some e.rule_chain_pool))))
            ⊎ ((ctx new : RuleChainCtx C) × (decode def ≡ ok ctx)
                × (error ≡ none)
                × (e'.root_rule_chain_ctx ≡ some new)
                × (new ≡ record ctx {
                  relation_cache = [];
                  rule_chain_pool = some e.rule_chain_pool;
                })))
  unfolding reload_self reload_chain copy set_rule_chain_pool
  reload_self_outcomes e rc def root = elim (Result-cases (decode def)) [
    | inr (text, bad) ↦ rw (root, reload_self) (rw bad (refl, inl (text, refl, refl, refl)))
    | inl (ctx, good) ↦
        rw (root, reload_self)
          (rw good (
            refl,
            inr (
              ctx,
              set_rule_chain_pool (copy rc ctx) (some e.rule_chain_pool),
              refl,
              refl,
              refl,
              refl,
            ),
          ))
  ]

  named_id :
      (id : String) (e : RuleEngine C) (o : Option (RuleChainCtx C))
      → id ≢ ""
      → (name_engine decode id e o).id ≡ e.id
  named_id id e none named = refl
  named_id id e (some rc) named = ground (arith, eq_iff id "")

  abbrev fresh : String → RuleEngine C
  fresh id = record { id = id; rule_chain_pool = default_rule_go; root_rule_chain_ctx = none }

  new_rule_engine-loads :
      (id def : String) (p : Result (RuleChainCtx C))
      → (def == "") ≡ false
      → decode def ≡ p
      → new_rule_engine decode id def ≡ named_or_failed decode id (first_load decode (fresh id) p)
  unfolding new_rule_engine reload_self
  new_rule_engine-loads id def p full e =
      rw (full, new_rule_engine)
        (ap (λ q. named_or_failed decode id (first_load decode (fresh id) q)) e)

  new_rule_engine-empty :
      (id def : String) → (def == "") ≡ true → new_rule_engine decode id def ≡ err "def can not nil"
  unfolding new_rule_engine
  new_rule_engine-empty id def h = rw (h, new_rule_engine) refl

  new_rule_engine-id :
      (id def : String) (e : RuleEngine C)
      → id ≢ ""
      → new_rule_engine decode id def ≡ ok e
      → e.id ≡ id
  new_rule_engine-id id def e named h = elim (Bool-cases (def == "")) [
    | inl empty ↦ absurd (err-ne-ok (sym (new_rule_engine-empty id def empty) ∙ h))
    | inr full ↦ elim (Result-cases (decode def)) [
      | inr (text, bad) ↦
          absurd (err-ne-ok (sym (new_rule_engine-loads id def (err text) full bad) ∙ h))
      | inl (ctx, good) ↦
          ap (λ x. x.id)
            (sym (ok-injective (sym (new_rule_engine-loads id def (ok ctx) full good) ∙ h)))
          ∙ named_id id (with_chain (fresh id) ctx) (with_chain (fresh id) ctx).root_rule_chain_ctx
              named
    ]
  ]

  new_engine-free :
      (self : ℕ) (g : Engines decode) (id def : String) (r : Result (RuleEngine C))
      → get id g ≡ none
      → new_rule_engine decode id def ≡ r
      → new_engine decode self g id def ≡ store_engine decode self g r
  unfolding new_engine
  new_engine-free self g id def r free e = rw (free, new_engine) (ap (store_engine decode self g) e)

  new_engine-found :
      (self : ℕ) (g : Engines decode) (id def : String) (e : RuleEngine C)
      → get id g ≡ some e
      → new_engine decode self g id def ≡ (g, ok e)
  unfolding new_engine
  new_engine-found self g id def e there = rw (there, new_engine) refl

  -- What is stored for an engine with the name that was asked for.
  store_engine-named :
      (self : ℕ) (g : Engines decode) (id : String) (e : RuleEngine C)
      → id ≢ ""
      → e.id ≡ id
      → store_engine decode self g (ok e)
        ≡ (put id (record e { rule_chain_pool = self }) g, ok (record e { rule_chain_pool = self }))
  store_engine-named self g id e named same = rw (not_empty e.id (λ h. named (sym same ∙ h))) (
      ap
        (λ k.
          (put k (record e { rule_chain_pool = self }) g, ok (record e { rule_chain_pool = self })))
        same)

  -- An engine that is made under a name is found under it, belongs to the pool, and is what `New`
  -- returns from then on, whatever definition it is called with; other names keep what they had.
  pub get_engine-new :
      (self : ℕ) (g g' : Engines decode) (id def : String) (e : RuleEngine C)
      → id ≢ ""
      → get_engine decode g id ≡ none
      → new_engine decode self g id def ≡ (g', ok e)
      → (get_engine decode g' id ≡ some e)
        × (e.rule_chain_pool ≡ self)
        × ((def' : String) → new_engine decode self g' id def' ≡ (g', ok e))
        × ((k : String) → k ≢ id → get_engine decode g' k ≡ get_engine decode g k)
  unfolding get_engine new_engine
  get_engine-new self g g' id def e named free h =
      elim (Result-cases (new_rule_engine decode id def)) [
        | inr (text, bad) ↦ absurd (
            err-ne-ok (ap (λ t. t.1) (sym (new_engine-free self g id def (err text) free bad) ∙ h)))
        | inl (e0, good) ↦
            let stored =
              sym (
                new_engine-free self g id def (ok e0) free good
                ∙ store_engine-named self g id e0 named (new_rule_engine-id id def e0 named good))
              ∙ h in
            let e' : RuleEngine C = record e0 { rule_chain_pool = self } in
            let same : e' ≡ e = ok-injective (ap (λ t. t.1) stored) in
            let pool : put id e' g ≡ g' = ap (λ t. t.0) stored in
            let there : get id g' ≡ some e =
              ap (get id) (sym pool) ∙ get-put_self id e' g ∙ ap some same in
            (
              there,
              ap (λ x. x.rule_chain_pool) (sym same),
              (λ def'. new_engine-found self g' id def' e there),
              (λ k other.
                  ap (get k) (sym pool) ∙ get-put id k e' g ∙ skip id k (some e') (get k g) other),
            )
      ]

  -- After `Del` the name is free, and other names keep what they had.
  pub get_engine-del :
      (g : Engines decode) (id k : String)
      → get_engine decode (del_engine decode g id) k
        ≡ (if id == k then none else get_engine decode g k)
  unfolding get_engine del_engine
  get_engine-del g id k = ground (arith, get-remove id k g, eq_iff id k)

  get_engine-stop_from :
      (rest g : Engines decode) (k : String)
      → get_engine decode (stop_all decode rest g) k
        ≡ (if has k rest then none else get_engine decode g k)
  unfolding get_engine stop_all get
  get_engine-stop_from [] g k = refl
  get_engine-stop_from ((id, e) ∷ rest) g k =
      ground (arith, get_engine-stop_from rest (remove id g) k, get-remove id k g)

  -- After `Stop` of the whole pool no name is found.
  pub get_engine-stop_all :
      (g : Engines decode) (k : String) → get_engine decode (stop_all decode g g) k ≡ none
  unfolding get_engine
  get_engine-stop_all g k = ground (arith, get_engine-stop_from g g k)
