-- ===== src/Msg/Tests.antt =====
-- Examples of messages.
use rulego.Prelude.{
  String, ◌≡◌, refl, sym, ◌∙◌, ◌≢◌, Bool, false, [], ◌∷◌, eq_iff, if◌then◌else◌, ◌==◌, string_eq,
  nat_key,
}
use rulego.Prelude.Dict.{get, IsMap}
use mathlib.Core.Bool.{false≢true}
use rulego.Msg.{Metadata, RuleMsg, Env, copy, new_msg, get_value, put_value}
use rulego.Msg.Laws.{IsValid, copy-IsValid, new_msg-IsValid, get_value-put_value}

abbrev env : Env
env = record { now = 700; uuid = "fresh" }

abbrev labels : Metadata
labels = ("device", "d1") ∷ ("site", "north") ∷ []

abbrev reading : RuleMsg
reading = record {
  ts = 500;
  id = "m1";
  data_type = "JSON";
  type = "TEMP";
  content = "{}";
  metadata = labels;
}

abbrev eq : String → String → Bool
eq a b = a == b

labels-IsMap : IsMap labels
unfolding get
labels-IsMap = (refl, (refl, tt))

different : (a b : String) → (a == b) ≡ false → a ≢ b
different a b h e = false≢true (sym h ∙ (eq_iff a b).1 e)

reading-IsValid : IsValid reading
reading-IsValid = record { stamped = refl; named = different "m1" "" refl; keyed = labels-IsMap }

copy_test : (copy env reading).id ≡ "m1"
unfolding copy
copy_test = refl

copy-IsValid_test :
    IsValid (copy env reading)
    × ((copy env reading).ts ≡ 500)
    × ((copy env reading).id ≡ "m1")
    × ((copy env reading).type ≡ "TEMP")
    × ((copy env reading).data_type ≡ "JSON")
    × ((copy env reading).content ≡ "{}")
    × ((k : String) → get k (copy env reading).metadata ≡ get k labels)
copy-IsValid_test = copy-IsValid env reading reading-IsValid

new_msg-IsValid_test : IsValid (new_msg env 0 "TEMP" "JSON" labels "{}")
new_msg-IsValid_test =
    new_msg-IsValid env 0 "TEMP" "JSON" labels "{}" refl (different "fresh" "" refl) labels-IsMap

get_value-put_value_test : get_value (put_value labels "site" "south") "site" ≡ (
    if eq "site" ""
    then get_value labels "site"
    else if eq "site" "site"
    then "south"
    else get_value labels "site")
get_value-put_value_test = get_value-put_value labels "site" "site" "south"
