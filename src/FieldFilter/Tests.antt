-- ===== src/FieldFilter/Tests.antt =====
-- Examples of the field filter.
use rulego.Prelude.{
  String, ◌≡◌, refl, true, false, [], ◌∷◌, if◌then◌else◌, ◌==◌, string_eq, nat_key,
}
use rulego.Prelude.Dict.{Map, get, has}
use rulego.Json.{Value, text}
use rulego.Result.{Result, ok, err}
use rulego.Msg.{RuleMsg, json_type, has_key}
use rulego.Text.{split_comma}
use rulego.FieldFilter.{FieldFilterNodeConfiguration, tell_next, init, on_msg}
use rulego.FieldFilter.Laws.{expected, on_msg-has_fields, no_data_names-false}

abbrev fields : Map String Value
fields = ("temperature", text "35") ∷ []

abbrev unmarshal : String → Result (Map String Value)
unmarshal s = if s == "{" then err "unexpected end of JSON input" else ok fields

abbrev msg : RuleMsg
msg = record {
  ts = 500;
  id = "m1";
  data_type = "JSON";
  type = "TEMP";
  content = "{}";
  metadata = ("site", "north") ∷ [];
}

abbrev all_of : String → String → FieldFilterNodeConfiguration
all_of data_names metadata_names = record {
  check_all_keys = true;
  data_names = data_names;
  metadata_names = metadata_names;
}

passes_test : on_msg unmarshal (init (all_of "temperature" "site")) msg ≡ tell_next msg "True"
unfolding on_msg init split_comma has_key get
passes_test = refl

on_msg-has_fields_example :
    on_msg unmarshal (init (all_of "temperature" "site,room")) msg
    ≡ expected
        (all_of "temperature" "site,room")
        msg
        (if string_eq.beq msg.data_type json_type then unmarshal "{}" else ok [])
on_msg-has_fields_example = on_msg-has_fields unmarshal (all_of "temperature" "site,room") msg

no_blank : has "" fields ≡ false
unfolding get
no_blank = refl

no_data_names-false_test : on_msg unmarshal (init (all_of "" "site")) msg ≡ tell_next msg "False"
no_data_names-false_test =
    no_data_names-false unmarshal (all_of "" "site") msg fields refl refl refl no_blank
