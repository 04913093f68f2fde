-- ===== src/Group/Overlap.antt =====
-- What a group filter decides when the callbacks of its nodes overlap (group_filter_node.go).
use rulego.Prelude.{
  ℕ, zero, suc, ◌^◌, ◌≤◌, ◌<◌, String, ◌≡◌, refl, ap, ◌∙◌, ◌⊎◌, inl, inr, Bool, true, false, not,
  Option, none, some, List, [], ◌∷◌, ◌++◌, arith, ltb, ◌==◌, string_eq, nat_key, Bool-cases,
  Option-cases, length, get_elem?, take, drop, All, none-ne-some,
}
use rulego.Prelude.Words.{inc32, sle32}
use mathlib.Core.Path.{subst}
use rulego.Group.{
  FilterGroup, new_group, true_relation, count_end, decide_with, decide_end, FilterRun, FilterStep,
  enter, decide, filter_step, filter_steps,
}
use rulego.Group.Laws.{decision, decision-cons, decision-early, same_or_not, inc32_small}

abbrev pub waiting : ℕ → Option Bool → FilterGroup
waiting k c = record { end_count = k; completed = false; c = c }

abbrev pub finished : ℕ → Option Bool → FilterGroup
finished k c = record { end_count = k; completed = true; c = c }

finished-stays :
    (all_matches m e : Bool) (k : ℕ) (c : Option Bool)
    → decide_with all_matches m e (finished k c) ≡ finished k c
finished-stays true true true k c = refl
finished-stays true true false k c = refl
finished-stays true false e k c = refl
finished-stays false true e k c = refl
finished-stays false false true k c = refl
finished-stays false false false k c = refl

some-injective : {a b : String} → some a ≡ some b → a ≡ b
some-injective h = cc

-- What the decision of a callback makes of a group that has no result: none yet, the result that all
-- agree on, or the other one.
decided_cases :
    (all_matches m e : Bool) (k : ℕ) (c : Option Bool)
    → ((e ≡ false) × (decide_with all_matches m e (waiting k c) ≡ waiting k c))
      ⊎ (decide_with all_matches m e (waiting k c) ≡ finished k (some all_matches))
      ⊎ ((m ≡ not all_matches)
          × (decide_with all_matches m e (waiting k c) ≡ finished k (some (not all_matches))))
decided_cases true true true k c = inr (inl refl)
decided_cases true true false k c = inl (refl, refl)
decided_cases true false e k c = inr (inr (refl, refl))
decided_cases false true e k c = inr (inr (refl, refl))
decided_cases false false true k c = inr (inl refl)
decided_cases false false false k c = inl (refl, refl)

-- The result is the one that all agree on, or it is the other one, and some node did not agree.
abbrev pub IsFair : Bool → List String → Option Bool → Type 0
IsFair all_matches entered c =
    (c ≡ some all_matches)
    ⊎ ((c ≡ some (not all_matches)) × (decision all_matches entered ≡ not all_matches))

abbrev pub Stands : Bool → List String → String → Type 0
Stands all_matches entered r =
    (r == true_relation) ≡ not all_matches → decision all_matches entered ≡ not all_matches

disagrees-cons :
    (all_matches : Bool) (r : String) (rs : List String)
    → decision all_matches rs ≡ not all_matches
    → decision all_matches (r ∷ rs) ≡ not all_matches
disagrees-cons all_matches r rs h = elim (same_or_not (r == true_relation) all_matches) [
  | inl same ↦ decision-cons all_matches r rs same ∙ h
  | inr other ↦ decision-early all_matches r rs other
]

All-Stands :
    (all_matches : Bool) (r : String) (entered rs : List String)
    → All (Stands all_matches entered) rs
    → All (Stands all_matches (r ∷ entered)) rs
All-Stands all_matches r entered [] h = tt
All-Stands all_matches r entered (q ∷ rs) (h, hs) =
    (λ e. disagrees-cons all_matches r entered (h e), All-Stands all_matches r entered rs hs)

abbrev pub at : FilterGroup → List String → List String → FilterRun
at g running entered = record { group = g; running = running; entered = entered }

-- The runs that come about. In an open one nothing was sent, all that entered have counted, and some
-- node has not entered or some callback is still to decide. A closed one has a result that is fair.
pub data IsRun (all_matches : Bool) (n : ℕ) : FilterRun → Type 0 where
  undecided :
      (c : Option Bool) (running entered : List String)
      → (length running ≡ 0 → length entered < n)
      → All (Stands all_matches entered) running
      → length entered ≤ n
      → IsRun all_matches n (at (waiting (length entered) c) running entered)
  closed :
      (k : ℕ) (c : Option Bool) (running entered : List String)
      → IsFair all_matches entered c
      → IsRun all_matches n (at (finished k c) running entered)

module _ (P : String → Type 0) where
  All-remove : (rs : List String) (i : ℕ) → All P rs → All P (take i rs ++ drop (suc i) rs)
  All-remove [] zero h = tt
  All-remove [] (suc i) h = tt
  All-remove (r ∷ rs) zero h = h.1
  All-remove (r ∷ rs) (suc i) h = (h.0, All-remove rs i h.1)

  All-elem : (rs : List String) (i : ℕ) (r : String) → All P rs → get_elem? rs i ≡ some r → P r
  All-elem [] i r h e = elim (none-ne-some e) [ ]
  All-elem (q ∷ rs) zero r h e = subst P (some-injective e) h.0
  All-elem (q ∷ rs) (suc i) r h e = All-elem rs i r h.1 e

IsFair-later :
    (all_matches : Bool) (r : String) (entered : List String) (c : Option Bool)
    → IsFair all_matches entered c
    → IsFair all_matches (r ∷ entered) c
IsFair-later all_matches r entered c (inl e) = inl e
IsFair-later all_matches r entered c (inr (e, h)) = inr (e, disagrees-cons all_matches r entered h)

still_below : (n k : ℕ) → k ≤ n → n < 2 ^ 31 → sle32 n k ≡ false → k < n
still_below n k l b h = ground arith

module _ (all_matches : Bool) (n : ℕ) (b : n < 2 ^ 31) where
  enter_undecided :
      (r : String) (c : Option Bool) (running entered : List String)
      → All (Stands all_matches entered) running
      → length entered < n
      → IsRun all_matches n
          (at (count_end (waiting (length entered) c)) (r ∷ running) (r ∷ entered))
  unfolding count_end
  enter_undecided r c running entered h l =
      let one : inc32 (length entered) ≡ suc (length entered) =
        inc32_small (length entered) (omega arith) ∙ omega arith in
      rw one (
        undecided c (r ∷ running) (r ∷ entered) (λ e. absurd (omega arith))
          (decision-early all_matches r entered, All-Stands all_matches r entered running h)
          (omega arith))

  decide_undecided :
      (i : ℕ) (r : String) (c : Option Bool) (running entered : List String)
      → All (Stands all_matches entered) running
      → length entered ≤ n
      → get_elem? running i ≡ some r
      → IsRun all_matches n (
          at
            (decide_end all_matches n (waiting (length entered) c) r)
            (take i running ++ drop (suc i) running)
            entered)
  unfolding decide_end
  decide_undecided i r c running entered h l e =
      let ended = sle32 n (length entered) in
      elim (decided_cases all_matches (r == true_relation) ended (length entered) c) [
        | inl (left, same) ↦ rw same (
            undecided c (take i running ++ drop (suc i) running) entered
              (λ none_left. still_below n (length entered) l b left)
              (All-remove (Stands all_matches entered) running i h) l)
        | inr (inl sent) ↦ rw sent (closed (length entered) (some all_matches) _ entered (inl refl))
        | inr (inr (other, sent)) ↦ rw sent (
            closed (length entered) (some (not all_matches)) _ entered
              (inr (refl, All-elem (Stands all_matches entered) running i r h e other)))
      ]

  decide_closed :
      (i : ℕ) (r : String) (k : ℕ) (c : Option Bool) (running entered : List String)
      → IsFair all_matches entered c
      → IsRun all_matches n (
          at
            (decide_end all_matches n (finished k c) r)
            (take i running ++ drop (suc i) running)
            entered)
  unfolding decide_end
  decide_closed i r k c running entered f =
      rw (finished-stays all_matches (r == true_relation) (sle32 n k) k c)
        (closed k c (take i running ++ drop (suc i) running) entered f)

  filter_step-IsRun :
      (x : FilterRun) (step : FilterStep)
      → IsRun all_matches n x
      → IsRun all_matches n (filter_step all_matches n x step)
  unfolding filter_step
  filter_step-IsRun x (enter r) (undecided c running entered o h l) =
      elim (Bool-cases (ltb (length entered) n)) [
        | inl more ↦ rw more (enter_undecided r c running entered h (ground arith))
        | inr full ↦ rw full (undecided c running entered o h l)
      ]
  filter_step-IsRun x (enter r) (closed k c running entered f) =
      elim (Bool-cases (ltb (length entered) n)) [
        | inl more ↦
            rw more (closed k c running (r ∷ entered) (IsFair-later all_matches r entered c f))
        | inr full ↦ rw full (closed k c running entered f)
      ]
  filter_step-IsRun x (decide i) (undecided c running entered o h l) =
      elim (Option-cases (get_elem? running i)) [
        | inl past ↦ rw past (undecided c running entered o h l)
        | inr (r, e) ↦ rw e (decide_undecided i r c running entered h l e)
      ]
  filter_step-IsRun x (decide i) (closed k c running entered f) =
      elim (Option-cases (get_elem? running i)) [
        | inl past ↦ rw past (closed k c running entered f)
        | inr (r, e) ↦ rw e (decide_closed i r k c running entered f)
      ]

  filter_steps-IsRun :
      (x : FilterRun) (steps : List FilterStep)
      → IsRun all_matches n x
      → IsRun all_matches n (filter_steps all_matches n x steps)
  unfolding filter_steps
  filter_steps-IsRun x [] h = h
  filter_steps-IsRun x (step ∷ steps) h =
      filter_steps-IsRun (filter_step all_matches n x step) steps (filter_step-IsRun x step h)

ended-IsFair :
    (all_matches : Bool) (n : ℕ) (x : FilterRun)
    → IsRun all_matches n x
    → x.running ≡ []
    → length x.entered ≡ n
    → IsFair all_matches x.entered x.group.c
ended-IsFair all_matches n x (undecided c running entered o h l) quiet full =
    let below = o (ap length quiet) in absurd (omega arith)
ended-IsFair all_matches n x (closed k c running entered f) quiet full = f

-- However the callbacks of a group filter overlap: when all its nodes have called back and no
-- callback is still running, a result was sent. It is `allMatches` itself, or it is the other one,
-- and then it is what the relation types of the nodes decide. So if all nodes agree with
-- `allMatches` the result is right; if one of them does not, overlapping callbacks can send either.
-- The group is not empty and has less than 2 ^ 31 nodes.
pub filter_steps-IsFair :
    (all_matches : Bool) (n : ℕ) (steps : List FilterStep)
    → 0 < n
    → n < 2 ^ 31
    → let x = filter_steps all_matches n (at new_group [] []) steps in
      x.running ≡ [] → length x.entered ≡ n → IsFair all_matches x.entered x.group.c
filter_steps-IsFair all_matches n steps p b quiet full =
    let x = filter_steps all_matches n (at new_group [] []) steps in
    ended-IsFair all_matches n x
      (filter_steps-IsRun all_matches n b (at new_group [] []) steps
        (undecided none [] [] (λ e. p) tt (omega arith)))
      quiet full
