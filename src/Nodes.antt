-- ===== src/Nodes.antt =====
-- The nodes under components/ that only tell: what they share. A call of `OnMsg` returns what it
-- tells, in order. `encoding/json` and the texts of values are the fields of `Codec`.
pub mod Scripts
pub mod ExprTransform
pub mod Iterator
pub mod Functions
pub mod Flow
pub mod Laws
mod Tests
use rulego.Prelude.{String, if◌then◌else◌, ◌==◌, string_eq, nat_key}
use rulego.Result.{Result, ok, err}
use rulego.Json.{Value, null, boolean, number, text, array, object, Fields, last, fields}
use rulego.Msg.{RuleMsg, json_type}

pub data Tell : Type 0 where
  tell_next : RuleMsg → (relation_type : String) → Tell
  tell_success : RuleMsg → Tell
  tell_failure : RuleMsg → String → Tell

pub record Codec : Type 0 where
  pub unmarshal : String → Result Value
  pub to_string_maybe_err : Value → Result String

-- str.ToString: the error is dropped, with an empty text.
abbrev pub text_or_empty : Result String → String
text_or_empty (ok s) = s
text_or_empty (err e) = ""

abbrev pub to_string : Codec → Value → String
to_string codec v = text_or_empty (codec.to_string_maybe_err v)

abbrev pub or_content : RuleMsg → Result Value → Value
or_content msg (ok v) = v
or_content msg (err e) = text msg.content

-- The data of a message as a script sees it: content that is declared as JSON and is none is a text.
unfoldable pub data_of : Codec → RuleMsg → Value
data_of codec msg =
    if msg.data_type == json_type
    then or_content msg (codec.unmarshal msg.content)
    else text msg.content

-- The same where the content is decoded into a map: an array or a number is no map either, and `null`
-- leaves a map without keys.
abbrev pub as_map : RuleMsg → Result Value → Value
as_map msg (ok (object fs)) = object fs
as_map msg (ok null) = object last
as_map msg (ok v) = text msg.content
as_map msg (err e) = text msg.content

unfoldable pub map_data_of : Codec → RuleMsg → Value
map_data_of codec msg =
    if msg.data_type == json_type
    then as_map msg (codec.unmarshal msg.content)
    else text msg.content
