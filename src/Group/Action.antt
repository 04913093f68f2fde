-- ===== src/Group/Action.antt =====
-- The result of a group action against the number of nodes that match.
use rulego.Prelude.{
  ℕ, zero, suc, ◌+◌, ◌^◌, ◌≤◌, ◌<◌, String, ◌≡◌, refl, sym, ap, ◌∙◌, inl, inr, Bool, true, false,
  Option, none, some, List, [], ◌∷◌, arith, leb, if◌then◌else◌, ◌==◌, string_eq, nat_key,
  Bool-cases, length,
}
use rulego.Prelude.Words.{inc32, sle32}
use mathlib.Core.Option
use rulego.Msg.{WrapperMsg, Metadata}
use rulego.Dsl.{ℤ, pos, negsuc}
use rulego.Group.{match_num, ActionGroup, on_action_end, on_action_ends}

abbrev pub End : Type 0
End = ℕ × WrapperMsg × String

abbrev pub matching : String → List End → ℕ
matching match [] = 0
matching match ((index, m, r) ∷ ends) =
    if match == r then suc (matching match ends) else matching match ends

-- The Boolean that was sent, if one was.
abbrev pub sent : ActionGroup → Option Bool
sent g = Option.map (λ t. t.0) g.merged

-- Nothing was sent yet: `k` nodes have ended and `m` of them match.
pub record IsWaiting (k m : ℕ) (g : ActionGroup) : Type 0 where
  pub ended : g.ends ≡ k
  pub matched : g.matched_count ≡ m
  pub pending : g.finished ≡ false

on_action_ends-finished :
    (match : String) (num n : ℕ) (g : ActionGroup) (ends : List End)
    → g.finished ≡ true
    → on_action_ends match num n g ends ≡ g
unfolding on_action_ends
on_action_ends-finished match num n g [] h = refl
on_action_ends-finished match num n g ((index, m, r) ∷ ends) h =
    ap (λ g'. on_action_ends match num n g' ends) (rw (h, on_action_end) refl)
    ∙ on_action_ends-finished match num n g ends h

sle32_small : (a b : ℕ) → a < 2 ^ 31 → b < 2 ^ 31 → sle32 a b ≡ leb a b
sle32_small a b p q = ground arith

inc32_small : (k : ℕ) → k < 2 ^ 31 → inc32 k ≡ k + 1
inc32_small k l = omega arith

-- The matches after one more node.
abbrev one_more : String → String → ℕ → ℕ
one_more match r m = if match == r then m + 1 else m

module _ (match : String) (num n k m index : ℕ) (g : ActionGroup) (w : WrapperMsg) (r : String)
    (waits : IsWaiting k m g) (l : k < n) (b : n < 2 ^ 31) (mk : m ≤ k) (nn : num ≤ n) where
  all_ended : k + 1 ≡ n → leb n (k + 1) ≡ true
  all_ended e = ground arith

  some_left : k + 1 < n → leb n (k + 1) ≡ false
  some_left e = ground arith

  matched_more :
      (if match == r then inc32 g.matched_count else g.matched_count) ≡ one_more match r m
  matched_more = ground (arith, waits.matched, inc32_small m (omega arith))

  ends_more : inc32 g.ends ≡ k + 1
  ends_more = omega (arith, waits.ended)

  more_small : one_more match r m < 2 ^ 31
  more_small = ground arith

  reached : sle32 num (one_more match r m) ≡ leb num (one_more match r m)
  reached = sle32_small num (one_more match r m) (omega arith) more_small

  action_matches :
      leb num (one_more match r m) ≡ true
      → ((on_action_end match num n index g w r).finished ≡ true)
        × (sent (on_action_end match num n index g w r) ≡ some true)
  unfolding on_action_end
  action_matches h =
      rw (waits.pending, on_action_end) (rw matched_more (rw (reached ∙ h) (refl, refl)))

  action_ends :
      leb num (one_more match r m) ≡ false
      → k + 1 ≡ n
      → ((on_action_end match num n index g w r).finished ≡ true)
        × (sent (on_action_end match num n index g w r) ≡ some false)
  unfolding on_action_end
  action_ends h e =
      rw (waits.pending, on_action_end)
        (rw matched_more (
          rw (reached ∙ h)
            (rw ends_more (rw (sle32_small n (k + 1) b (omega arith) ∙ all_ended e) (refl, refl)))))

  action_waits :
      leb num (one_more match r m) ≡ false
      → k + 1 < n
      → IsWaiting (k + 1) (one_more match r m) (on_action_end match num n index g w r)
  unfolding on_action_end
  action_waits h e =
      rw (waits.pending, on_action_end)
        (rw matched_more (
          rw (reached ∙ h) (
            rw ends_more (
              rw (sle32_small n (k + 1) b (omega arith) ∙ some_left e)
                (record { ended = refl; matched = refl; pending = refl })))))

above : (num a b : ℕ) → leb num a ≡ true → leb num (a + b) ≡ true
above num a b h = ground arith

matching-cons :
    (match : String) (m index : ℕ) (w : WrapperMsg) (r : String) (ends : List End)
    → m + matching match ((index, w, r) ∷ ends) ≡ one_more match r m + matching match ends
matching-cons match m index w r ends = ground arith

one_more_le : (match r : String) (m k : ℕ) → m ≤ k → one_more match r m ≤ k + 1
one_more_le match r m k h = ground arith

action_early :
    (match : String) (num n k m index : ℕ) (g : ActionGroup) (w : WrapperMsg) (r : String)
    (ends : List End)
    → IsWaiting k m g
    → k < n
    → n < 2 ^ 31
    → m ≤ k
    → num ≤ n
    → leb num (one_more match r m) ≡ true
    → sent (on_action_ends match num n (on_action_end match num n index g w r) ends)
      ≡ some (leb num (m + matching match ((index, w, r) ∷ ends)))
action_early match num n k m index g w r ends waits l b mk nn h =
    let (done, result) = action_matches match num n k m index g w r waits l b mk nn h in
    ap sent (on_action_ends-finished match num n (on_action_end match num n index g w r) ends done)
    ∙ result
    ∙ ap some (
        sym (
          ap (leb num) (matching-cons match m index w r ends)
          ∙ above num (one_more match r m) (matching match ends) h))

action_from :
    (match : String) (num n k m : ℕ) (g : ActionGroup) (index : ℕ) (w : WrapperMsg) (r : String)
    (ends : List End)
    → IsWaiting k m g
    → k + suc (length ends) ≡ n
    → n < 2 ^ 31
    → m ≤ k
    → num ≤ n
    → sent (on_action_ends match num n (on_action_end match num n index g w r) ends)
      ≡ some (leb num (m + matching match ((index, w, r) ∷ ends)))
unfolding on_action_ends
action_from match num n k m g index w r [] waits e b mk nn =
    elim (Bool-cases (leb num (one_more match r m))) [
      | inl h ↦ action_early match num n k m index g w r [] waits (omega arith) b mk nn h
      | inr h ↦
          (action_ends match num n k m index g w r waits (omega arith) b mk nn h (omega arith)).1
          ∙ ap some (sym (ap (leb num) (matching-cons match m index w r [] ∙ omega arith) ∙ h))
    ]
action_from match num n k m g index w r ((i, w', r') ∷ ends) waits e b mk nn =
    elim (Bool-cases (leb num (one_more match r m))) [
      | inl h ↦
          action_early match num n k m index g w r ((i, w', r') ∷ ends) waits (omega arith) b mk nn
            h
      | inr h ↦
          let next =
            action_waits match num n k m index g w r waits (omega arith) b mk nn h (omega arith) in
          action_from match num n (k + 1) (one_more match r m)
            (on_action_end match num n index g w r) i w' r' ends next (omega arith) b
            (one_more_le match r m k mk) nn
          ∙ ap (λ v. some (leb num v)) (sym (matching-cons match m index w r ((i, w', r') ∷ ends)))
    ]

abbrev pub empty_slots : ℕ → List (Option WrapperMsg)
empty_slots zero = []
empty_slots (suc n) = none ∷ empty_slots n

abbrev pub new_action : Metadata → ℕ → ActionGroup
new_action md n = record {
  ends = 0;
  matched_count = 0;
  finished = false;
  msgs = empty_slots n;
  metadata = md;
  merged = none;
}

match_num_le : (m : ℤ) (n : ℕ) → match_num m n ≤ n
unfolding match_num
match_num_le (negsuc m) n = omega arith
match_num_le (pos zero) n = omega arith
match_num_le (pos (suc m)) n = ground arith

-- For callbacks that do not overlap. When as many nodes have ended as the group has, the group
-- action has its result, whatever the order in which they ended: `Success` exactly if at least as
-- many of them ended under the wanted relation type as `Init` made of the configured number. The
-- group is not empty and has less than 2 ^ 31 nodes.
pub action_result :
    (match : String) (configured : ℤ) (md : Metadata) (ends : List End)
    → 0 < length ends
    → length ends < 2 ^ 31
    → let n = length ends in
      let num = match_num configured n in
      sent (on_action_ends match num n (new_action md n) ends)
      ≡ some (leb num (matching match ends))
unfolding on_action_ends
action_result match configured md [] p b = absurd (omega arith)
action_result match configured md ((index, w, r) ∷ ends) p b =
    let n = suc (length ends) in
    let num = match_num configured n in
    action_from match num n 0 0 (new_action md n) index w r ends
      (record { ended = refl; matched = refl; pending = refl }) (omega arith) b (omega arith)
      (match_num_le configured n)
    ∙ ap (λ v. some (leb num v)) (omega arith)
