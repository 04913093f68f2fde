-- ===== src/Text.antt =====
-- utils/str/str.go: placeholders and small text routines, with the routines of Go's `strings` and
-- `strconv` that they use. A text is walked by characters: on valid UTF-8 the matches are those
-- that Go finds by bytes. A loop over a map goes through it from its head.
pub mod Dollar
mod Tests
use Prim.Native.Char.{Char, code}
use Prim.Native.String.{count, ◌++◌ as ◌+++◌}
use Prim.Native.String.{[], ◌∷◌}
use mathlib.Core.List.{List}
use text.Mathlib.Text.{starts_with}
use rulego.Prelude.{
  ℕ, zero, suc, ◌+◌, ◌-◌, ◌/◌, ◌%◌, String, Bool, true, ◌&&◌, if◌then◌else◌, ◌==◌, string_eq,
  nat_key,
}
use rulego.Prelude.Dict.{Map}

-- strings.Contains
unfoldable pub contains : String → String → Bool
contains [] sub = starts_with [] sub
contains (c ∷ s) sub = if starts_with (c ∷ s) sub then true else contains s sub

-- strings.Replace(s, old, new, -1) for an `old` that is not empty; `skip` counts the characters of
-- the last match that are still to be passed over.
unfoldable pub replace_from : ℕ → String → String → String → String
replace_from skip [] old new = []
replace_from (suc skip) (c ∷ s) old new = replace_from skip s old new
replace_from zero (c ∷ s) old new =
    let matched = new +++ replace_from (count old - 1) s old new in
    let kept = c ∷ replace_from zero s old new in if starts_with (c ∷ s) old then matched else kept

unfoldable pub replace : String → String → String → String
unfolding replace_from
replace s old new = replace_from zero s old new

abbrev pub var_pattern_left : String
var_pattern_left = "${"

abbrev pub var_pattern_right : String
var_pattern_right = "}"

unfoldable pub process_var : String → String → String → String
unfolding replace
process_var pattern key val = replace pattern (var_pattern_left +++ key +++ var_pattern_right) val

unfoldable pub sprintf_var : String → String → Map String String → String
unfolding process_var
sprintf_var pattern key_prefix List.[] = pattern
sprintf_var pattern key_prefix (List.◌∷◌ (key, value) dict) =
    sprintf_var (process_var pattern (key_prefix +++ key) value) key_prefix dict

unfoldable pub sprintf_dict : String → Map String String → String
unfolding sprintf_var
sprintf_dict pattern dict = sprintf_var pattern "" dict

unfoldable pub check_has_var : String → Bool
unfolding contains
check_has_var s = contains s "${" && contains s "}"

-- The loop of `RemoveBraces`, for texts of ASCII characters: `string(c)` of a larger byte is another
-- text in the source. `continue` after `i++` passes over two bytes.
unfoldable pub remove_braces_from : ℕ → String → String
remove_braces_from skip [] = []
remove_braces_from (suc skip) (c ∷ s) = remove_braces_from skip s
remove_braces_from zero (c ∷ s) =
    let opened = remove_braces_from 1 s in
    let passed = remove_braces_from zero s in
    let kept = c ∷ remove_braces_from zero s in
    if code c == b'$' && starts_with s "{"
    then opened
    else if code c == b'}'
    then passed
    else if code c == b' '
    then passed
    else kept

unfoldable pub remove_braces : String → String
unfolding remove_braces_from
remove_braces s = remove_braces_from zero s

abbrev pub digit : ℕ → String
digit n =
    if n == 0
    then "0"
    else if n == 1
    then "1"
    else if n == 2
    then "2"
    else if n == 3
    then "3"
    else if n == 4
    then "4"
    else if n == 5
    then "5"
    else if n == 6
    then "6"
    else if n == 7
    then "7"
    else if n == 8
    then "8"
    else "9"

-- strconv.Itoa and the verb %d, for numbers that are not negative; `n + 1` rounds are enough.
unfoldable pub itoa_from : ℕ → ℕ → String → String
itoa_from zero n acc = acc
itoa_from (suc fuel) n acc =
    let more = itoa_from fuel (n / 10) (digit (n % 10) +++ acc) in
    if n / 10 == 0 then digit (n % 10) +++ acc else more

unfoldable pub itoa : ℕ → String
unfolding itoa_from
itoa n = itoa_from (n + 1) n ""

-- strings.Split(s, ","): a text without a comma is one part, the empty text too.
abbrev to_first : String → List String → List String
to_first part List.[] = List.◌∷◌ part List.[]
to_first part (List.◌∷◌ first rest) = List.◌∷◌ (part +++ first) rest

unfoldable pub split_comma : String → List String
split_comma [] = List.◌∷◌ "" List.[]
split_comma (c ∷ s) =
    let rest = split_comma s in if code c == b',' then List.◌∷◌ "" rest else to_first (c ∷ []) rest
