-- ===== src/Msg.antt =====
-- api/types/msg.go: messages and their metadata. `DataType` is a string in the source and here.
-- The clock and the UUID generator are the argument `Env` of what calls them. `Metadata` is a map
-- by value: each `Copy` builds a map of its own, and a nil map is taken as an empty one.
pub mod Laws
mod Tests
use rulego.Prelude.{ℕ, String, Bool, [], none, some, if◌then◌else◌, ◌==◌, string_eq}
use rulego.Prelude.Dict.{Map, get, put, put_all, has}
use rulego.Prelude.Words.{sle64}

abbrev pub Metadata : Type 0
Metadata = Map String String

pub record RuleMsg : Type 0 where
  pub ts : ℕ  -- int64
  pub id : String
  pub data_type : String
  pub type : String
  pub content : String
  pub metadata : Metadata

pub record WrapperMsg : Type 0 where
  pub msg : RuleMsg
  pub err : String
  pub node_id : String

-- What `time.Now().UnixMilli()` and `uuid.NewV4()` return.
pub record Env : Type 0 where
  pub now : ℕ
  pub uuid : String

abbrev pub json_type : String
json_type = "JSON"

abbrev pub text_type : String
text_type = "TEXT"

abbrev pub binary_type : String
binary_type = "BINARY"

unfoldable pub new_metadata : Metadata
new_metadata = []

unfoldable pub build_metadata : Metadata → Metadata
unfolding new_metadata
build_metadata src = put_all new_metadata src

unfoldable pub copy_metadata : Metadata → Metadata
unfolding build_metadata
copy_metadata md = build_metadata md

unfoldable pub has_key : Metadata → String → Bool
has_key md key = has key md

unfoldable pub get_value : Metadata → String → String
get_value md key = elim (get key md) [ none ↦ "" | some v ↦ v ]

unfoldable pub put_value : Metadata → String → String → Metadata
put_value md key value = if key == "" then md else put key value md

unfoldable pub new_msg_with_id : Env → String → ℕ → String → String → Metadata → String → RuleMsg
new_msg_with_id env id ts msg_type data_type metadata content = record {
  ts = if sle64 ts 0 then env.now else ts;
  id = if id == "" then env.uuid else id;
  type = msg_type;
  data_type = data_type;
  content = content;
  metadata = metadata;
}

unfoldable pub new_msg : Env → ℕ → String → String → Metadata → String → RuleMsg
unfolding new_msg_with_id
new_msg env ts msg_type data_type metadata content =
    new_msg_with_id env env.uuid ts msg_type data_type metadata content

unfoldable pub copy : Env → RuleMsg → RuleMsg
unfolding new_msg_with_id copy_metadata
copy env m = new_msg_with_id env m.id m.ts m.type m.data_type (copy_metadata m.metadata) m.content
