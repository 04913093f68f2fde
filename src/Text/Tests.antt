-- ===== src/Text/Tests.antt =====
-- Examples of placeholders.
use rulego.Prelude.{◌<◌, ◌≡◌, refl, some, [], ◌∷◌, arith, if◌then◌else◌, string_eq}
use rulego.Text.Dollar.{
  marks, number, convert_dollar_placeholder, convert_dollar_placeholder-number,
}
use rulego.Text.{sprintf_dict, sprintf_var, remove_braces, itoa}

sprintf_dict_test :
    sprintf_dict "a ${name} ${x}${name}." (("name", "bo") ∷ ("y", "1") ∷ []) ≡ "a bo ${x}bo."
unfolding sprintf_dict
sprintf_dict_test = refl

sprintf_var_test : sprintf_var "${global.k}${k}" "global." (("k", "v") ∷ []) ≡ "v${k}"
unfolding sprintf_var
sprintf_var_test = refl

remove_braces_test : remove_braces "${a} $ b}" ≡ "a$b"
unfolding remove_braces
remove_braces_test = refl

itoa_test : itoa 1020 ≡ "1020"
unfolding itoa
itoa_test = refl

numbered_test : number 1 "a = ? and b = ?" ≡ "a = $1 and b = $2"
unfolding number itoa
numbered_test = refl

two_marks : marks "a = ? and b = ?" < 3
unfolding marks
two_marks = omega arith

convert_dollar_placeholder-number_example :
    convert_dollar_placeholder 3 "a = ? and b = ?" "postgres"
    ≡ some (
        if string_eq.beq "postgres" "postgres"
        then number 1 "a = ? and b = ?"
        else "a = ? and b = ?")
convert_dollar_placeholder-number_example =
    convert_dollar_placeholder-number 3 "a = ? and b = ?" "postgres" two_marks
