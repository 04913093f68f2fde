-- ===== src/Endpoint/Rest/Messages.antt =====
-- endpoint/rest/rest.go: the messages of a request and of its response. `header` is `Get` of the
-- headers of a request. The error of a body that cannot be read is left out.
use rulego.Prelude.{
  ℕ, String, Option, none, some, List, [], ◌∷◌, ◌++◌, if◌then◌else◌, ◌==◌, string_eq, nat_key,
}
use rulego.Prelude.Dict.{Map}
use rulego.Msg.{RuleMsg, Env, new_msg, new_metadata, text_type, json_type}
use rulego.Endpoint.{MessageOps}

pub record Request : Type 0 where
  pub url : String
  pub header : String → String
  pub body : String
  pub form_value : String → String
  pub query : Map String (List String)

pub record RequestMessage : Type 0 where
  pub request : Option Request
  pub body : Option String
  pub params : List (String × String)
  pub msg : Option RuleMsg
  pub err : Option String

-- What is written to a response, in order.
pub data Write : Type 0 where
  status : ℕ → Write
  content : String → Write

pub record ResponseMessage : Type 0 where
  pub request : Option Request
  pub response : Option (List Write)
  pub body : String
  pub msg : Option RuleMsg
  pub err : Option String

unfoldable pub request_body : RequestMessage → RequestMessage × String
request_body m = elim m.body [
  | some b ↦ (m, b)
  | none ↦ elim m.request [ none ↦ (m, "") | some r ↦ (record m { body = some r.body }, r.body) ]
]

-- `From` of both messages, and `GetParam`.
unfoldable pub url_of : Option Request → String
url_of none = ""
url_of (some r) = r.url

unfoldable pub get_param : Option Request → String → String
get_param none key = ""
get_param (some r) key = r.form_value key

abbrev content_type : Option Request → String
content_type none = ""
content_type (some r) = r.header "Content-Type"

-- The message is made at the first call and kept.
unfoldable pub request_get_msg : Env → RequestMessage → RequestMessage × Option RuleMsg
unfolding request_body url_of new_msg new_metadata
request_get_msg env m = elim m.msg [
  | some msg ↦ (m, some msg)
  | none ↦
      let (m', body) = request_body m in
      let data_type =
        if content_type m.request == "application/json" then json_type else text_type in
      let msg = new_msg env 0 (url_of m.request) data_type new_metadata body in
      (record m' { msg = some msg }, some msg)
]

unfoldable pub request_ops : Env → MessageOps RequestMessage
unfolding request_get_msg
request_ops env = record {
  get_msg = request_get_msg env;
  set_msg = λ msg m. record m { msg = some msg };
  set_status_code = λ code m. m;
  set_body = λ b m. record m { body = some b };
  get_error = λ m. m.err;
  set_error = λ e m. record m { err = some e };
}

abbrev written : Option (List Write) → Write → Option (List Write)
written none w = none
written (some ws) w = some (ws ++ (w ∷ []))

unfoldable pub set_status_code : ResponseMessage → ℕ → ResponseMessage
set_status_code m code = record m { response = written m.response (status code) }

unfoldable pub set_body : ResponseMessage → String → ResponseMessage
set_body m b = record m { body = b; response = written m.response (content b) }

unfoldable pub response_ops : MessageOps ResponseMessage
unfolding set_status_code set_body
response_ops = record {
  get_msg = λ m. (m, m.msg);
  set_msg = λ msg m. record m { msg = some msg };
  set_status_code = λ code m. set_status_code m code;
  set_body = λ b m. set_body m b;
  get_error = λ m. m.err;
  set_error = λ e m. record m { err = some e };
}
