-- ===== src/Endpoint/Building/Laws.antt =====
-- What `From.To` of endpoint/endpoint.go makes of a path.
use rulego.Prelude.{
  String, ◌≡◌, refl, sym, ap, ◌∙◌, inl, inr, true, false, not, ◌&&◌, Option, none, some, List, [],
  if◌then◌else◌, string_eq, nat_key, Bool-cases, is_some,
}
use rulego.Prelude.Dict.{get, put, get-put_self}
use Prim.Native.String.{◌∷◌ as ◌then◌}
use rulego.Result.{Result}
use rulego.Json.{Value, text}
use rulego.Dsl.{Configuration}
use rulego.Text.{check_has_var}
use rulego.Endpoint.{Executor, chain_executor, To}
use rulego.Endpoint.Building.{
  Executors, before_colon, after_colon, path_key, new, is_path_support_var, init, make_to,
  merge_configs, end_init,
}

module _ {In Out Node : Type 0} (new_node : String → Result Node)
    (init_node : Configuration → Node → Result Node) (to_string : Value → String)
    (trim_space : String → String) where
  end_init_lem :
      (t : To In Out Node) (done : Executor Node × Option String)
      → t.executor ≡ none
      → let (t', panicked) = end_init new_node init_node to_string trim_space t done in
        (t'.config ≡ t.config)
        × (t'.to_path ≡ t.to_path)
        × (panicked ≡ done.1)
        × (t'.executor ≡ (if is_some done.1 then none else some done.0))
  end_init_lem t (made, none) h = (refl, refl, refl, refl)
  end_init_lem t (made, some e) h = (refl, refl, refl, h)

module _ {Node : Type 0} (new_node : String → Result Node)
    (init_node : Configuration → Node → Result Node) (to_string : Value → String)
    (trim_space : String → String) where
  -- `From.To`, for every path and every table of the executors of endpoint.go. A path whose part
  -- before the first colon is no registered executor names a chain, as a whole, and nothing panics.
  -- For a registered one: variables in the path of an executor that has none panic; so does a path
  -- without a colon; in both cases the `To` has no executor. Otherwise the path is what follows the
  -- colon, trimmed, the configuration has it under `_path`, and `Init` with that configuration
  -- decides: the `To` has the executor that it made, or none and the panic is its error.
  pub make_to-outcomes :
      (In Out : Type 0) (executors : Executors Node) (to : String) (configs : List Configuration)
      → let (t, panicked) =
          make_to new_node init_node to_string trim_space {In = In} {Out = Out} executors to
            configs in
        (new executors (before_colon to) ≡ none
          → (panicked ≡ none) × (t.executor ≡ some chain_executor) × (t.to_path ≡ to))
        × ((e : Executor Node)
            → new executors (before_colon to) ≡ some e
            → (check_has_var to && not (is_path_support_var e) ≡ true
                → (is_some panicked ≡ true) × (t.executor ≡ none))
              × (after_colon to ≡ none → (is_some panicked ≡ true) × (t.executor ≡ none))
              × ((rest : String) (made : Executor Node) (failed : Option String)
                  → check_has_var to && not (is_path_support_var e) ≡ false
                  → after_colon to ≡ some rest
                  → init new_node init_node to_string trim_space e t.config ≡ (made, failed)
                  → (t.to_path ≡ trim_space rest)
                    × (get path_key t.config ≡ some (text (trim_space rest)))
                    × (panicked ≡ failed)
                    × (t.executor ≡ (if is_some failed then none else some made))))
  unfolding make_to
  make_to-outcomes In Out executors to configs = (
    λ e. rw (e, make_to) (refl, refl, refl),
    λ e found. (
      λ bad. rw (found, make_to) (rw bad (refl, refl)),
      λ cut.
          rw (found, make_to)
            (elim (Bool-cases (check_has_var to && not (is_path_support_var e))) [
              | inl bad ↦ rw bad (refl, refl)
              | inr fine ↦ rw (fine, cut) (refl, refl)
            ]),
      λ rest made failed fine cut.
          rw (found, make_to)
            (rw (fine, cut)
              (λ i.
                let t : To In Out Node = record {
                  has_vars = check_has_var to;
                  config = put path_key (text (trim_space rest)) (merge_configs [] configs);
                  to = to;
                  to_path = trim_space rest;
                  process_list = [];
                  executor = none;
                  wait = false;
                } in
                let run = init new_node init_node to_string trim_space e in
                let (same, path, panic, kept) =
                  end_init_lem new_node init_node to_string trim_space t (run t.config) refl in
                let i' : run t.config ≡ (made, failed) = ap run (sym same) ∙ i in
                (
                  path,
                  ap (get path_key) same
                      ∙ get-put_self path_key (text (trim_space rest)) (merge_configs [] configs),
                  panic ∙ ap (λ q. q.1) i',
                  kept ∙ ap (λ q. if is_some q.1 then none else some q.0) i',
                ))),
    ),
  )
