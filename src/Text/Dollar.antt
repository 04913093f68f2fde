-- ===== src/Text/Dollar.antt =====
-- utils/str/str.go: `ConvertDollarPlaceholder`, with the loop of the source: one mark is replaced in
-- each round, as long as there is one.
use rulego.Prelude.{
  ℕ, zero, suc, ◌+◌, ◌/◌, ◌%◌, ◌<◌, String, ◌≡◌, refl, sym, ap, ◌∙◌, inl, inr, Bool, true, false,
  ◌||◌, Option, none, some, arith, if◌then◌else◌, ◌==◌, string_eq, nat_key, Bool-cases,
}
use Prim.Native.Char.{Char, code}
use Prim.Native.String.{[] as end_of_text, ◌∷◌ as ◌then◌, ◌++◌ as ◌+++◌}
use text.Mathlib.TextLemmas.{cons-append, nil-append}
use mathlib.Core.Bool.{false≢true}
use rulego.Text.{itoa, itoa_from, digit}

abbrev pub is_mark : Char → Bool
is_mark c = code c == b'?'

-- strings.Contains(s, "?")
unfoldable pub has_mark : String → Bool
has_mark end_of_text = false
has_mark (c then s) = is_mark c || has_mark s

-- strings.Replace(s, "?", r, 1)
unfoldable pub replace_mark : String → String → String
replace_mark end_of_text r = ""
replace_mark (c then s) r =
    let rest = replace_mark s r in if is_mark c then r +++ s else c then rest

-- fmt.Sprintf("$%d", n)
abbrev pub dollar : ℕ → String
dollar n = "$" +++ itoa n

-- The loop from the number `n` on; nothing when the fuel is used up.
unfoldable pub convert_from : ℕ → ℕ → String → Option String
unfolding has_mark replace_mark
convert_from zero n sql = none
convert_from (suc fuel) n sql =
    let rest = convert_from fuel (n + 1) (replace_mark sql (dollar n)) in
    if has_mark sql then rest else some sql

unfoldable pub convert_dollar_placeholder : ℕ → String → String → Option String
unfolding convert_from
convert_dollar_placeholder fuel sql db_type =
    if db_type == "postgres" then convert_from fuel 1 sql else some sql

-- The number of marks, and the text with its marks numbered in one pass.
unfoldable pub marks : String → ℕ
marks end_of_text = 0
marks (c then s) = if is_mark c then suc (marks s) else marks s

unfoldable pub number : ℕ → String → String
number n end_of_text = ""
number n (c then s) =
    let next = number (n + 1) s in
    let same = number n s in if is_mark c then dollar n +++ next else c then same

has_mark-append : (s t : String) → has_mark (s +++ t) ≡ has_mark s || has_mark t
unfolding has_mark
has_mark-append end_of_text t = rw (nil-append t) refl
has_mark-append (c then s) t = rw (cons-append c s t) (ground (arith, has_mark-append s t))

has_mark-if :
    (b : Bool) (s t : String)
    → has_mark s ≡ false
    → has_mark t ≡ false
    → has_mark (if b then s else t) ≡ false
has_mark-if true s t h k = h
has_mark-if false s t h k = k

has_mark-digit : (d : ℕ) → has_mark (digit d) ≡ false
unfolding has_mark
has_mark-digit d =
    (has_mark-if (d == 0) "0" _ refl (
      has_mark-if (d == 1) "1" _ refl (
        has_mark-if (d == 2) "2" _ refl (
          has_mark-if (d == 3) "3" _ refl (
            has_mark-if (d == 4) "4" _ refl (
              has_mark-if (d == 5) "5" _ refl (
                has_mark-if (d == 6) "6" _ refl
                  (has_mark-if (d == 7) "7" _ refl (has_mark-if (d == 8) "8" _ refl refl)))))))))

has_mark-itoa_from :
    (fuel n : ℕ) (acc : String) → has_mark acc ≡ false → has_mark (itoa_from fuel n acc) ≡ false
unfolding itoa_from
has_mark-itoa_from zero n acc h = h
has_mark-itoa_from (suc fuel) n acc h =
    let acc' = digit (n % 10) +++ acc in
    let h' : has_mark acc' ≡ false =
      has_mark-append (digit (n % 10)) acc ∙ rw (has_mark-digit (n % 10)) h in
    has_mark-if (n / 10 == 0) acc' (itoa_from fuel (n / 10) acc') h'
      (has_mark-itoa_from fuel (n / 10) acc' h')

has_mark-dollar : (n : ℕ) → has_mark (dollar n) ≡ false
unfolding itoa has_mark
has_mark-dollar n = has_mark-append "$" (itoa n) ∙ has_mark-itoa_from (n + 1) n "" refl

-- A text without marks before another one is passed over.
marks-append : (s t : String) → has_mark s ≡ false → marks (s +++ t) ≡ marks t
unfolding marks has_mark
marks-append end_of_text t h = rw (nil-append t) refl
marks-append (c then s) t h = rw (cons-append c s t) (ground (arith, h, marks-append s t))

number-append : (n : ℕ) (s t : String) → has_mark s ≡ false → number n (s +++ t) ≡ s +++ number n t
unfolding number has_mark
number-append n end_of_text t h = rw (nil-append t) (sym (nil-append (number n t)))
number-append n (c then s) t h = elim (Bool-cases (is_mark c)) [
  | inl e ↦ elim (false≢true (sym h ∙ ap (λ b. b || has_mark s) e)) [ ]
  | inr e ↦
      let h' : has_mark s ≡ false = sym (ap (λ b. b || has_mark s) e) ∙ h in
      rw (cons-append c s t, cons-append c s (number n t))
        (rw e (ap (λ u. c then u) (number-append n s t h')))
]

marks-replace_mark :
    (s r : String)
    → has_mark s ≡ true
    → has_mark r ≡ false
    → suc (marks (replace_mark s r)) ≡ marks s
unfolding marks has_mark replace_mark
marks-replace_mark end_of_text r h k = elim (false≢true h) [ ]
marks-replace_mark (c then s) r h k = elim (Bool-cases (is_mark c)) [
  | inl e ↦ rw e (ap suc (marks-append r s k))
  | inr e ↦
      let h' : has_mark s ≡ true = sym (ap (λ b. b || has_mark s) e) ∙ h in
      rw e (rw e (marks-replace_mark s r h' k))
]

number-replace_mark :
    (n : ℕ) (s : String)
    → has_mark s ≡ true
    → number (n + 1) (replace_mark s (dollar n)) ≡ number n s
unfolding number has_mark replace_mark
number-replace_mark n end_of_text h = elim (false≢true h) [ ]
number-replace_mark n (c then s) h = elim (Bool-cases (is_mark c)) [
  | inl e ↦ rw e (number-append (n + 1) (dollar n) s (has_mark-dollar n))
  | inr e ↦
      let h' : has_mark s ≡ true = sym (ap (λ b. b || has_mark s) e) ∙ h in
      rw e (rw e (ap (λ u. c then u) (number-replace_mark n s h')))
]

number-no_mark : (n : ℕ) (s : String) → has_mark s ≡ false → number n s ≡ s
unfolding number has_mark
number-no_mark n end_of_text h = refl
number-no_mark n (c then s) h = elim (Bool-cases (is_mark c)) [
  | inl e ↦ elim (false≢true (sym h ∙ ap (λ b. b || has_mark s) e)) [ ]
  | inr e ↦
      let h' : has_mark s ≡ false = sym (ap (λ b. b || has_mark s) e) ∙ h in
      rw e (ap (λ u. c then u) (number-no_mark n s h'))
]

none_below : (n : ℕ) → n < 0 → ⊥
none_below n h = omega arith

convert_from-number :
    (fuel n : ℕ) (sql : String) → marks sql < fuel → convert_from fuel n sql ≡ some (number n sql)
unfolding convert_from
convert_from-number zero n sql h = elim (none_below (marks sql) h) [ ]
convert_from-number (suc fuel) n sql h = elim (Bool-cases (has_mark sql)) [
  | inl e ↦
      let fewer : suc (marks (replace_mark sql (dollar n))) ≡ marks sql =
        marks-replace_mark sql (dollar n) e (has_mark-dollar n) in
      rw e (
        convert_from-number fuel (n + 1) (replace_mark sql (dollar n)) (omega (arith, fewer, h))
        ∙ ap some (number-replace_mark n sql e))
  | inr e ↦ rw e (ap some (sym (number-no_mark n sql e)))
]

-- One round more than there are marks is enough fuel for every statement: the loop ends, and for
-- postgres it has put $1, $2 and so on for the marks, from left to right, and left the rest alone;
-- for any other database the statement stays as it is.
pub convert_dollar_placeholder-number :
    (fuel : ℕ) (sql db_type : String)
    → marks sql < fuel
    → convert_dollar_placeholder fuel sql db_type
      ≡ some (if db_type == "postgres" then number 1 sql else sql)
unfolding convert_dollar_placeholder
convert_dollar_placeholder-number fuel sql db_type h = elim (Bool-cases (db_type == "postgres")) [
  | inl e ↦ rw e (convert_from-number fuel 1 sql h)
  | inr e ↦ rw e refl
]
