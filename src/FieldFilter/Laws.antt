-- ===== src/FieldFilter/Laws.antt =====
-- What the field filter answers, against the lists of names.
use rulego.Prelude.{
  String, ◌≡◌, refl, ap, ◌∙◌, Bool, true, false, ◌&&◌, ◌||◌, List, [], ◌∷◌, arith, if◌then◌else◌,
  ◌==◌, string_eq, nat_key, any, all,
}
use rulego.Prelude.Dict.{Map, has}
use rulego.Json.{Value}
use rulego.Result.{Result, ok, err}
use rulego.Msg.{Metadata, RuleMsg, has_key, json_type}
use rulego.Text.{split_comma}
use rulego.FieldFilter.{
  FieldFilterNodeConfiguration, Effect, tell_next, tell_failure, init, check_all_keys_metadata,
  check_all_keys_data, check_at_least_one_metadata, check_at_least_one_data, answer, passes,
  check_decoded, on_msg,
}

all_metadata :
    (names : List String) (md : Metadata)
    → check_all_keys_metadata names md ≡ all (λ k. has k md) names
unfolding check_all_keys_metadata has_key
all_metadata [] md = refl
all_metadata (k ∷ names) md = ground (arith, all_metadata names md)

all_data :
    (names : List String) (fields : Map String Value)
    → check_all_keys_data names fields ≡ all (λ k. has k fields) names
unfolding check_all_keys_data
all_data [] fields = refl
all_data (k ∷ names) fields = ground (arith, all_data names fields)

any_metadata :
    (names : List String) (md : Metadata)
    → check_at_least_one_metadata names md ≡ any (λ k. has k md) names
unfolding check_at_least_one_metadata has_key
any_metadata [] md = refl
any_metadata (k ∷ names) md = ground (arith, any_metadata names md)

any_data :
    (names : List String) (fields : Map String Value)
    → check_at_least_one_data names fields ≡ any (λ k. has k fields) names
unfolding check_at_least_one_data
any_data [] fields = refl
any_data (k ∷ names) fields = ground (arith, any_data names fields)

-- Whether a message has what a configuration asks for.
abbrev pub has_fields : FieldFilterNodeConfiguration → Metadata → Map String Value → Bool
has_fields config md fields =
    let metadata_names = split_comma config.metadata_names in
    let data_names = split_comma config.data_names in
    if config.check_all_keys
    then all (λ k. has k md) metadata_names && all (λ k. has k fields) data_names
    else any (λ k. has k md) metadata_names || any (λ k. has k fields) data_names

abbrev pub expected : FieldFilterNodeConfiguration → RuleMsg → Result (Map String Value) → Effect
expected config msg (err e) = tell_failure msg e
expected config msg (ok fields) =
    tell_next msg (if has_fields config msg.metadata fields then "True" else "False")

passes-has_fields :
    (config : FieldFilterNodeConfiguration) (md : Metadata) (fields : Map String Value)
    → passes (init config) md fields ≡ has_fields config md fields
unfolding init passes
passes-has_fields config md fields =
    let m = split_comma config.metadata_names in
    let d = split_comma config.data_names in
    ground (arith, all_metadata m md, all_data d fields, any_metadata m md, any_data d fields)

check_decoded-expected :
    (config : FieldFilterNodeConfiguration) (msg : RuleMsg) (r : Result (Map String Value))
    → check_decoded (init config) msg r ≡ expected config msg r
unfolding check_decoded
check_decoded-expected config msg (err e) = refl
check_decoded-expected config msg (ok fields) =
    ap (answer msg) (passes-has_fields config msg.metadata fields)

and_false : (b : Bool) → b && false ≡ false
and_false true = refl
and_false false = refl

asks_blank :
    (config : FieldFilterNodeConfiguration) (md : Metadata) (fields : Map String Value)
    → config.check_all_keys ≡ true
    → config.data_names ≡ ""
    → has "" fields ≡ false
    → has_fields config md fields ≡ false
unfolding split_comma
asks_blank config md fields all_keys blank missing =
    rw (all_keys, blank, missing)
      (and_false (all (λ k. has k md) (split_comma config.metadata_names)))

-- The filter answers every message once: under `Failure` with the error of the decoder if the message
-- is JSON that cannot be decoded, and otherwise under `True` or `False`, after the fields that are
-- asked for, where a message that is not JSON has no data fields.
pub on_msg-has_fields :
    (unmarshal : String → Result (Map String Value)) (config : FieldFilterNodeConfiguration)
    (msg : RuleMsg)
    → on_msg unmarshal (init config) msg
      ≡ expected config msg (if msg.data_type == json_type then unmarshal msg.content else ok [])
unfolding on_msg
on_msg-has_fields unmarshal config msg =
    check_decoded-expected config msg
      (if msg.data_type == json_type then unmarshal msg.content else ok [])

-- A filter that asks for all keys, with no data names configured, never lets a message without a data
-- field of empty name pass: the list of names then holds the empty name.
pub no_data_names-false :
    (unmarshal : String → Result (Map String Value)) (config : FieldFilterNodeConfiguration)
    (msg : RuleMsg) (fields : Map String Value)
    → config.check_all_keys ≡ true
    → config.data_names ≡ ""
    → (if msg.data_type == json_type then unmarshal msg.content else ok []) ≡ ok fields
    → has "" fields ≡ false
    → on_msg unmarshal (init config) msg ≡ tell_next msg "False"
unfolding split_comma
no_data_names-false unmarshal config msg fields all_keys blank decoded missing =
    on_msg-has_fields unmarshal config msg
    ∙ ap (expected config msg) decoded
    ∙ ap (λ b. tell_next msg (if b then "True" else "False"))
        (asks_blank config msg.metadata fields all_keys blank missing)
