-- ===== src/Endpoint/Net/Laws.antt =====
-- The routers of the line endpoint, and the lines that a connection handles (endpoint/net/net.go).
use rulego.Prelude.{
  zero, suc, String, ◌≡◌, refl, ap, ◌∙◌, inl, inr, Bool, true, false, not, ◌&&◌, Option, none, some,
  List, [], ◌∷◌, map, arith, ltb, if◌then◌else◌, ◌==◌, string_eq, nat_key, Bool-cases, is_some, set,
  filter_map,
}
use rulego.Prelude.Dict.{get, has}
use rulego.Result.{Result, ok, err}
use rulego.Msg.{RuleMsg, Env}
use rulego.Endpoint.{Exchange, Process, End}
use rulego.Dsl.{ℤ, pos, negsuc}
use rulego.Endpoint.Net.{
  RequestMessage, ResponseMessage, NetRouter, Routers, Config, compile_from, remove_router, Read,
  line, net_timeout, net_error, bare_timeout, other_error, has_timeout, round_of, process_routers,
  new_exchange, after_round, handler,
}

module _ {Node : Type 0} (compile : String → Result (String → Bool)) where
  -- What `add_compiled` makes of the routers, for each answer of the compiler.
  abbrev pub Added :
      Routers Node → NetRouter Node → String → Routers Node × String × Option String → Type 0
  Added routers router expr (routers', id, error) =
      ((e : String)
        → compile_from compile expr ≡ err e
        → (routers' ≡ routers) × (id ≡ "") × (error ≡ some e))
      × ((re : Option (String → Bool))
          → compile_from compile expr ≡ ok re
          → (has expr routers ≡ true → (routers' ≡ routers) × (id ≡ expr) × (is_some error ≡ true))
            × (has expr routers ≡ false
                → (error ≡ none)
                  × (id ≡ expr)
                  × ((k : String)
                      → get k routers' ≡ (
                          if expr == k
                          then some (record { router = router; regexp = re })
                          else get k routers))
                  × ((k : String) → get k (remove_router routers' id) ≡ get k routers)))

-- A round: the environment and the routers that it finds, whether the deadline could be set, and what
-- the read gives.
abbrev pub Incoming : Type 0 → Type 0
Incoming Node = Env × Routers Node × Bool × Read

abbrev pub is_above_zero : ℤ → Bool
is_above_zero (pos n) = ltb 0 n
is_above_zero (negsuc n) = false

above_at :
    (i : ℤ) (config : Config)
    → config.read_timeout ≡ i
    → has_timeout config ≡ is_above_zero config.read_timeout
above_at (pos zero) config e = rw e refl
above_at (pos (suc n)) config e = rw e (ground arith)
above_at (negsuc n) config e = rw e refl

has_timeout-above : (config : Config) → has_timeout config ≡ is_above_zero config.read_timeout
has_timeout-above config = above_at config.read_timeout config refl

-- The connection is over: a deadline that is wanted cannot be set, or the read ends in an error that is
-- not that of a deadline.
abbrev pub ends_loop : {Node : Type 0} → Config → Incoming Node → Bool
ends_loop config (env, routers, deadline_set, net_error) = true
ends_loop config (env, routers, deadline_set, other_error) = true
ends_loop config (env, routers, deadline_set, read) =
    is_above_zero config.read_timeout && not deadline_set

-- What is handled of a round that does not end the connection: a line that is no heartbeat, and the
-- empty text for the bare error of a deadline.
abbrev pub text_of : {Node : Type 0} → Incoming Node → Option (Env × Routers Node × String)
text_of (env, routers, deadline_set, line s) = if s == "ping" then none else some (env, routers, s)
text_of (env, routers, deadline_set, bare_timeout) = some (env, routers, "")
text_of (env, routers, deadline_set, read) = none

abbrev pub take_until {ℓ} : {A : Type ℓ} → (A → Bool) → List A → List A
take_until p [] = []
take_until p (x ∷ xs) = let rest = take_until p xs in if p x then [] else x ∷ rest

module _ {Node : Type 0} (on_node_msg : Node → RuleMsg → List End) (config : Config)
    (interceptors : List (Process RequestMessage ResponseMessage)) (addr : String) where
  abbrev pub process_text :
      Env × Routers Node × String
      → Exchange RequestMessage ResponseMessage × List (String × List End)
  process_text (env, routers, text) =
      process_routers on_node_msg env interceptors routers text (new_exchange env addr text)

  abbrev handled :
      List (Incoming Node)
      → List (Exchange RequestMessage ResponseMessage × List (String × List End))
  handled reads = map process_text (filter_map text_of (take_until (ends_loop config) reads))

  stopped :
      (env : Env) (routers : Routers Node) (set : Bool) (read : Read) (reads : List (Incoming Node))
      → is_above_zero config.read_timeout && not set ≡ true
      → after_round
          (round_of config set read)
          (λ text. process_text (env, routers, text))
          (handled reads)
        ≡ handled ((env, routers, set, read) ∷ reads)
  stopped env routers set (line s) reads e = rw (has_timeout-above config, e) refl
  stopped env routers set net_timeout reads e = rw (has_timeout-above config, e) refl
  stopped env routers set net_error reads e = rw (has_timeout-above config, e) refl
  stopped env routers set bare_timeout reads e = rw (has_timeout-above config, e) refl
  stopped env routers set other_error reads e = rw (has_timeout-above config, e) refl

  line_lem :
      (env : Env) (routers : Routers Node) (set : Bool) (s : String) (reads : List (Incoming Node))
      → is_above_zero config.read_timeout && not set ≡ false
      → after_round
          (round_of config set (line s))
          (λ text. process_text (env, routers, text))
          (handled reads)
        ≡ handled ((env, routers, set, line s) ∷ reads)
  line_lem env routers set s reads e = elim (Bool-cases (s == "ping")) [
    | inl ping ↦ rw (has_timeout-above config, e, ping) refl
    | inr data' ↦ rw (has_timeout-above config, e, data') refl
  ]

  going :
      (env : Env) (routers : Routers Node) (set : Bool) (read : Read) (reads : List (Incoming Node))
      → is_above_zero config.read_timeout && not set ≡ false
      → after_round
          (round_of config set read)
          (λ text. process_text (env, routers, text))
          (handled reads)
        ≡ handled ((env, routers, set, read) ∷ reads)
  going env routers set (line s) reads e = line_lem env routers set s reads e
  going env routers set net_timeout reads e = rw (has_timeout-above config, e) refl
  going env routers set net_error reads e = rw (has_timeout-above config, e) refl
  going env routers set bare_timeout reads e = rw (has_timeout-above config, e) refl
  going env routers set other_error reads e = rw (has_timeout-above config, e) refl

  round_lem :
      (env : Env) (routers : Routers Node) (set : Bool) (read : Read) (reads : List (Incoming Node))
      → after_round
          (round_of config set read)
          (λ text. process_text (env, routers, text))
          (handled reads)
        ≡ handled ((env, routers, set, read) ∷ reads)
  round_lem env routers set read reads =
      elim (Bool-cases (is_above_zero config.read_timeout && not set)) [
        | inl quit ↦ stopped env routers set read reads quit
        | inr on ↦ going env routers set read reads on
      ]

  -- A connection hands to its routers exactly the texts of the rounds before the first that ends it,
  -- in order, and each to the routers of its own time. It ends with a deadline that is wanted and
  -- cannot be set, or with an error of a read that is not that of a deadline. A line that is a
  -- heartbeat ("ping") and the deadline of a read from the network are passed over; any other line is
  -- handled, and for the bare error of a deadline the empty text is.
  pub handler-rounds :
      (reads : List (Incoming Node))
      → handler on_node_msg config interceptors addr reads
        ≡ map process_text (filter_map text_of (take_until (ends_loop config) reads))
  unfolding handler
  handler-rounds [] = refl
  handler-rounds ((env, routers, set, read) ∷ reads) =
      ap (after_round (round_of config set read) (λ text. process_text (env, routers, text)))
        (handler-rounds reads)
      ∙ round_lem env routers set read reads
