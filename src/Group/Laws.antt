-- ===== src/Group/Laws.antt =====
-- The result of a group does not depend on the order in which its nodes end.
use rulego.Prelude.{
  ℕ, suc, ◌+◌, ◌^◌, ◌<◌, String, ◌≡◌, refl, sym, ap, ◌∙◌, ◌⊎◌, inl, inr, Bool, true, false, not,
  none, some, List, [], ◌∷◌, arith, ◌==◌, string_eq, nat_key, length, any, all,
}
use rulego.Prelude.Words.{inc32, sle32}
use rulego.Group.{FilterGroup, on_filter_end, on_filter_ends, new_group, true_relation}

pub last_ended : (n k : ℕ) → k + 1 ≡ n → n < 2 ^ 31 → sle32 n (inc32 k) ≡ true
last_ended n k l b = ground arith

not_ended : (n k : ℕ) → k + 1 < n → n < 2 ^ 31 → sle32 n (inc32 k) ≡ false
not_ended n k l b = ground arith

pub inc32_small : (k : ℕ) → k < 2 ^ 31 → inc32 k ≡ k + 1
inc32_small k l = omega arith

on_filter_ends-completed :
    (all_matches : Bool) (n : ℕ) (g : FilterGroup) (rs : List String)
    → g.completed ≡ true
    → on_filter_ends all_matches n g rs ≡ g
unfolding on_filter_ends
on_filter_ends-completed all_matches n g [] h = refl
on_filter_ends-completed all_matches n g (r ∷ rs) h =
    ap (λ g'. on_filter_ends all_matches n g' rs) (rw (h, on_filter_end) refl)
    ∙ on_filter_ends-completed all_matches n g rs h

-- What a group filter is to decide from the relation types of its nodes.
abbrev pub decision : Bool → List String → Bool
decision true rs = all (λ r. r == true_relation) rs
decision false rs = any (λ r. r == true_relation) rs

abbrev waiting : ℕ → FilterGroup
waiting k = record { end_count = k; completed = false; c = none }

abbrev decided : ℕ → Bool → FilterGroup
decided k result = record { end_count = k; completed = true; c = some result }

module _ (n k : ℕ) (r : String) (l : k < n) (b : n < 2 ^ 31) where
  counted : inc32 k ≡ k + 1
  counted = inc32_small k (omega arith)

  on_filter_end-decides :
      (all_matches : Bool)
      → (r == true_relation) ≡ not all_matches
      → on_filter_end all_matches n (waiting k) r ≡ decided (k + 1) (not all_matches)
  unfolding on_filter_end
  on_filter_end-decides true h = rw (h, counted) refl
  on_filter_end-decides false h = rw (h, counted) refl

  on_filter_end-last :
      (all_matches : Bool)
      → (r == true_relation) ≡ all_matches
      → k + 1 ≡ n
      → on_filter_end all_matches n (waiting k) r ≡ decided (k + 1) all_matches
  unfolding on_filter_end
  on_filter_end-last true h e = rw (h, last_ended n k e b, counted) refl
  on_filter_end-last false h e = rw (h, last_ended n k e b, counted) refl

  on_filter_end-waits :
      (all_matches : Bool)
      → (r == true_relation) ≡ all_matches
      → k + 1 < n
      → on_filter_end all_matches n (waiting k) r ≡ waiting (k + 1)
  unfolding on_filter_end
  on_filter_end-waits true h e = rw (h, not_ended n k e b, counted) refl
  on_filter_end-waits false h e = rw (h, not_ended n k e b, counted) refl

pub decision-cons :
    (all_matches : Bool) (r : String) (rs : List String)
    → (r == true_relation) ≡ all_matches
    → decision all_matches (r ∷ rs) ≡ decision all_matches rs
decision-cons true r rs h = rw h refl
decision-cons false r rs h = rw h refl

pub decision-early :
    (all_matches : Bool) (r : String) (rs : List String)
    → (r == true_relation) ≡ not all_matches
    → decision all_matches (r ∷ rs) ≡ not all_matches
decision-early true r rs h = rw h refl
decision-early false r rs h = rw h refl

decision-nil : (all_matches : Bool) → decision all_matches [] ≡ all_matches
decision-nil true = refl
decision-nil false = refl

pub same_or_not : (a b : Bool) → (a ≡ b) ⊎ (a ≡ not b)
same_or_not true true = inl refl
same_or_not true false = inr refl
same_or_not false true = inr refl
same_or_not false false = inl refl

filter_early :
    (all_matches : Bool) (n k : ℕ) (r : String) (rs : List String)
    → k < n
    → n < 2 ^ 31
    → (r == true_relation) ≡ not all_matches
    → (on_filter_ends all_matches n (on_filter_end all_matches n (waiting k) r) rs).c
      ≡ some (decision all_matches (r ∷ rs))
filter_early all_matches n k r rs l b other =
    ap (λ g. (on_filter_ends all_matches n g rs).c)
      (on_filter_end-decides n k r l b all_matches other)
    ∙ ap (λ g. g.c)
        (on_filter_ends-completed all_matches n (decided (k + 1) (not all_matches)) rs refl)
    ∙ ap some (sym (decision-early all_matches r rs other))

filter_from :
    (all_matches : Bool) (n k : ℕ) (r : String) (rs : List String)
    → k + suc (length rs) ≡ n
    → n < 2 ^ 31
    → (on_filter_ends all_matches n (on_filter_end all_matches n (waiting k) r) rs).c
      ≡ some (decision all_matches (r ∷ rs))
unfolding on_filter_ends
filter_from all_matches n k r [] e b = elim (same_or_not (r == true_relation) all_matches) [
  | inr other ↦ filter_early all_matches n k r [] (omega arith) b other
  | inl same ↦
      ap (λ g. g.c) (on_filter_end-last n k r (omega arith) b all_matches same (omega arith))
      ∙ ap some (sym (decision-cons all_matches r [] same ∙ decision-nil all_matches))
]
filter_from all_matches n k r (r' ∷ rs) e b = elim (same_or_not (r == true_relation) all_matches) [
  | inr other ↦ filter_early all_matches n k r (r' ∷ rs) (omega arith) b other
  | inl same ↦
      ap (λ g. (on_filter_ends all_matches n g (r' ∷ rs)).c)
        (on_filter_end-waits n k r (omega arith) b all_matches same (omega arith))
      ∙ filter_from all_matches n (k + 1) r' rs (omega arith) b
      ∙ ap some (sym (decision-cons all_matches r (r' ∷ rs) same))
]

-- For callbacks that do not overlap. When as many nodes have ended as the group has, the group
-- filter has its result, whatever the order in which they ended: with `allMatches`, whether all of
-- them ended under `True`, and without it, whether one of them did. The group is not empty and has
-- less than 2 ^ 31 nodes.
pub filter_result :
    (all_matches : Bool) (rs : List String)
    → 0 < length rs
    → length rs < 2 ^ 31
    → (on_filter_ends all_matches (length rs) new_group rs).c ≡ some (decision all_matches rs)
unfolding on_filter_ends
filter_result all_matches [] p b = absurd (omega arith)
filter_result all_matches (r ∷ rs) p b =
    filter_from all_matches (suc (length rs)) 0 r rs (omega arith) b
