-- ===== src/Endpoint/Websocket/Laws.antt =====
-- The frames that a connection handles (endpoint/websocket/websocket.go).
use rulego.Prelude.{
  ℕ, String, ◌≡◌, refl, ap, Bool, true, false, Option, none, some, List, [], ◌∷◌, ◌++◌,
  if◌then◌else◌, filter_map,
}
use rulego.Msg.{RuleMsg, Env}
use rulego.Endpoint.{Process, End, is_disable}
use rulego.Endpoint.Websocket.{
  MessageType, text_message, binary_message, control_message, Request, RequestMessage,
  ResponseMessage, SocketRouter,
}
use rulego.Endpoint.Websocket.Frames.{
  Read, failed, frame, round_of, Served, not_found, after_round, serve, handler,
}

abbrev pub Input : Type 0 → Type 0
Input Node = Env × SocketRouter Node × Read

-- The rounds before the first read that fails and the first frame for a disabled router.
abbrev pub served_part : {Node : Type 0} → List (Input Node) → List (Input Node)
served_part [] = []
served_part ((env, router, failed) ∷ reads) = []
served_part ((env, router, frame mt text) ∷ reads) =
    let rest = served_part reads in
    if is_disable router then [] else (env, router, frame mt text) ∷ rest

-- Whether a frame for a disabled router comes before the first read that fails.
abbrev pub is_refused : {Node : Type 0} → List (Input Node) → Bool
is_refused [] = false
is_refused ((env, router, failed) ∷ reads) = false
is_refused ((env, router, frame mt text) ∷ reads) =
    let rest = is_refused reads in if is_disable router then true else rest

module _ {Node : Type 0} (to_string : List String → String) (itoa : ℕ → String)
    (on_node_msg : Node → RuleMsg → List End)
    (interceptors : List (Process RequestMessage ResponseMessage)) (params : List (String × String))
    (r : Request) where
  -- A text or a binary frame goes to the router; the other frames are passed over.
  abbrev pub served : Input Node → Option Served
  served (env, router, frame text_message text) =
      some (serve to_string itoa on_node_msg interceptors params r env router text_message text)
  served (env, router, frame binary_message text) =
      some (serve to_string itoa on_node_msg interceptors params r env router binary_message text)
  served _ = none

  frame_step :
      (env : Env) (router : SocketRouter Node) (mt : MessageType) (text : String)
      (rest : List (Input Node)) (more : List Served) (refused disabled : Bool)
      → more ≡ filter_map served rest ++ (if refused then not_found ∷ [] else [])
      → after_round
          (round_of disabled (frame mt text))
          (serve to_string itoa on_node_msg interceptors params r env router)
          more
        ≡ filter_map served (if disabled then [] else (env, router, frame mt text) ∷ rest)
          ++ (if if disabled then true else refused then not_found ∷ [] else [])
  frame_step env router mt text rest more refused true h = refl
  frame_step env router text_message text rest more refused false h =
      ap
        (λ m.
          serve to_string itoa on_node_msg interceptors params r env router text_message text ∷ m)
        h
  frame_step env router binary_message text rest more refused false h =
      ap
        (λ m.
          serve to_string itoa on_node_msg interceptors params r env router binary_message text ∷ m)
        h
  frame_step env router control_message text rest more refused false h = h

  -- A connection serves exactly the text and binary frames before its end, in order. Its end is the
  -- first read that fails or the first frame that finds the router disabled, whatever the type of the
  -- frame; in the second case, and only then, "not found" is written, once and last.
  pub handler-served :
      (reads : List (Input Node))
      → handler to_string itoa on_node_msg interceptors params r reads
        ≡ filter_map served (served_part reads) ++ (if is_refused reads then not_found ∷ [] else [])
  unfolding handler
  handler-served [] = refl
  handler-served ((env, router, failed) ∷ reads) = refl
  handler-served ((env, router, frame mt text) ∷ reads) =
      frame_step env router mt text (served_part reads)
        (handler to_string itoa on_node_msg interceptors params r reads) (is_refused reads)
        (is_disable router) (handler-served reads)
