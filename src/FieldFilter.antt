-- ===== src/FieldFilter.antt =====
-- components/filter/field_filter_node.go: whether a message has the fields that the configuration
-- names. `json.Unmarshal` into a map is the parameter `unmarshal`; a nil map has no keys, as an
-- empty one.
pub mod Laws
mod Tests
use rulego.Prelude.{
  String, Bool, true, false, ◌&&◌, ◌||◌, List, [], ◌∷◌, if◌then◌else◌, ◌==◌, string_eq, nat_key,
}
use rulego.Prelude.Dict.{Map, has}
use rulego.Json.{Value}
use rulego.Result.{Result, ok, err}
use rulego.Msg.{Metadata, RuleMsg, has_key, json_type}
use rulego.Text.{split_comma}

pub record FieldFilterNodeConfiguration : Type 0 where
  pub check_all_keys : Bool
  pub data_names : String
  pub metadata_names : String

pub record FieldFilterNode : Type 0 where
  pub config : FieldFilterNodeConfiguration
  pub data_names_list : List String
  pub metadata_names_list : List String

pub data Effect : Type 0 where
  tell_next : RuleMsg → (relation_type : String) → Effect
  tell_failure : RuleMsg → String → Effect

-- `Init`, for a configuration that was decoded into `config`.
unfoldable pub init : FieldFilterNodeConfiguration → FieldFilterNode
init config = record {
  config = config;
  data_names_list = split_comma config.data_names;
  metadata_names_list = split_comma config.metadata_names;
}

unfoldable pub check_all_keys_metadata : List String → Metadata → Bool
check_all_keys_metadata [] metadata = true
check_all_keys_metadata (item ∷ items) metadata =
    let rest = check_all_keys_metadata items metadata in
    if has_key metadata item then rest else false

unfoldable pub check_all_keys_data : List String → Map String Value → Bool
check_all_keys_data [] fields = true
check_all_keys_data (item ∷ items) fields =
    let rest = check_all_keys_data items fields in if has item fields then rest else false

unfoldable pub check_at_least_one_metadata : List String → Metadata → Bool
check_at_least_one_metadata [] metadata = false
check_at_least_one_metadata (item ∷ items) metadata =
    let rest = check_at_least_one_metadata items metadata in
    if has_key metadata item then true else rest

unfoldable pub check_at_least_one_data : List String → Map String Value → Bool
check_at_least_one_data [] fields = false
check_at_least_one_data (item ∷ items) fields =
    let rest = check_at_least_one_data items fields in if has item fields then true else rest

abbrev pub answer : RuleMsg → Bool → Effect
answer msg b = tell_next msg (if b then "True" else "False")

abbrev pub passes : FieldFilterNode → Metadata → Map String Value → Bool
unfolding check_all_keys_metadata check_all_keys_data check_at_least_one_metadata
    check_at_least_one_data
passes x metadata fields =
    if x.config.check_all_keys
    then check_all_keys_metadata x.metadata_names_list metadata
      && check_all_keys_data x.data_names_list fields
    else check_at_least_one_metadata x.metadata_names_list metadata
      || check_at_least_one_data x.data_names_list fields

abbrev pub check_decoded : FieldFilterNode → RuleMsg → Result (Map String Value) → Effect
unfolding check_all_keys_metadata check_all_keys_data check_at_least_one_metadata
    check_at_least_one_data
check_decoded x msg (err e) = tell_failure msg e
check_decoded x msg (ok fields) = answer msg (passes x msg.metadata fields)

unfoldable pub on_msg : (String → Result (Map String Value)) → FieldFilterNode → RuleMsg → Effect
unfolding check_all_keys_metadata check_all_keys_data check_at_least_one_metadata
    check_at_least_one_data
on_msg unmarshal x msg =
    check_decoded x msg (if msg.data_type == json_type then unmarshal msg.content else ok [])
