-- ===== src/Endpoint/Websocket/Frames.antt =====
-- endpoint/websocket/websocket.go: the loop of `handler` over the frames of a connection. A round has
-- the environment and the router as they are at its time, since the router can be disabled between
-- two frames.
use rulego.Prelude.{
  ℕ, String, Bool, true, false, Option, none, some, List, [], ◌∷◌, string_eq, nat_key,
}
use rulego.Prelude.Dict.{Map}
use rulego.Msg.{RuleMsg, Env, Metadata, put_value}
use rulego.Endpoint.{Exchange, Process, End, is_disable, do_process}
use rulego.Endpoint.Websocket.{
  MessageType, text_message, binary_message, control_message, type_number, Request, RequestMessage,
  ResponseMessage, request_get_msg, request_ops, response_ops, SocketRouter,
}

pub data Read : Type 0 where
  failed : Read
  frame : MessageType → String → Read

-- What a round does: it leaves the loop, at once or after "not found" was written; it goes on; or it
-- handles a frame.
pub data Round : Type 0 where
  leave refuse next : Round
  handle : MessageType → String → Round

abbrev pub round_of : Bool → Read → Round
round_of disabled failed = leave
round_of true (frame mt text) = refuse
round_of false (frame text_message text) = handle text_message text
round_of false (frame binary_message text) = handle binary_message text
round_of false (frame control_message text) = next

pub data Served : Type 0 where
  not_found : Served
  processed : Exchange RequestMessage ResponseMessage → List End → Served

abbrev pub after_round : Round → (MessageType → String → Served) → List Served → List Served
after_round leave f more = []
after_round refuse f more = not_found ∷ []
after_round next f more = more
after_round (handle mt text) f more = f mt text ∷ more

module _ (to_string : List String → String) (itoa : ℕ → String) where
  abbrev put_params : Metadata → List (String × String) → Metadata
  unfolding put_value
  put_params md [] = md
  put_params md ((k, v) ∷ params) = put_params (put_value md k v) params

  -- Several values of a key are one text; `url.ParseQuery` gives at least one value.
  abbrev query_value : List String → String
  query_value [] = ""
  query_value (v ∷ []) = v
  query_value (v ∷ w ∷ vs) = to_string (v ∷ w ∷ vs)

  abbrev put_query : Metadata → Map String (List String) → Metadata
  unfolding put_value
  put_query md [] = md
  put_query md ((k, vs) ∷ query) = put_query (put_value md k (query_value vs)) query

  -- The metadata of a frame, when the router gets it.
  unfoldable pub frame_metadata :
      MessageType → List (String × String) → Request → Metadata → Metadata
  unfolding put_value
  frame_metadata mt params r md =
      put_query (put_value (put_params md params) "messageType" (itoa (type_number mt))) r.query

  abbrev with_metadata : (Metadata → Metadata) → RequestMessage × Option RuleMsg → RequestMessage
  with_metadata f (m, none) = m
  with_metadata f (m, some msg) = record m { msg = some (record msg { metadata = f msg.metadata }) }

  unfoldable pub new_exchange :
      Env
      → List (String × String)
      → Request
      → MessageType
      → String
      → Exchange RequestMessage ResponseMessage
  unfolding request_get_msg frame_metadata
  new_exchange env params r mt text =
      let m : RequestMessage = record {
        message_type = mt;
        request = some r;
        body = text;
        params = params;
        msg = none;
        err = none;
      } in
      record {
        in_message = with_metadata (frame_metadata mt params r) (request_get_msg env m);
        out = record {
          message_type = mt;
          request = some r;
          sent = [];
          body = "";
          msg = none;
          err = none;
        };
      }

  module _ {Node : Type 0} (on_node_msg : Node → RuleMsg → List End)
      (interceptors : List (Process RequestMessage ResponseMessage))
      (params : List (String × String)) (r : Request) where
    abbrev pub serve : Env → SocketRouter Node → MessageType → String → Served
    unfolding new_exchange do_process request_ops response_ops
    serve env router mt text =
        let (x, later) =
          do_process (request_ops env) response_ops on_node_msg interceptors router
            (new_exchange env params r mt text) in
        processed x later

    unfoldable pub handler : List (Env × SocketRouter Node × Read) → List Served
    unfolding is_disable
    handler [] = []
    handler ((env, router, read) ∷ reads) =
        after_round (round_of (is_disable router) read) (serve env router) (handler reads)
