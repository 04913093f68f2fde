-- ===== src/Engine/Count.antt =====
-- Sums over the tasks and over the contexts, for the proofs about the counters.
use rulego.Prelude.{
  ℕ, zero, suc, ◌+◌, ◌<◌, ◌≡◌, refl, sym, ◌∙◌, ◌≢◌, inl, inr, Bool, true, false, ◌&&◌, Option, none,
  some, List, [], ◌∷◌, ◌++◌, arith, nat_eq, nat_eq_iff, if◌then◌else◌, Bool-cases, get_elem?, take,
  drop, none-ne-some,
}
use mathlib.Core.Bool.{false≢true}
use rulego.Engine.Context.{Task, first_node, next_node, branch_end}

abbrev pub one_if : Bool → ℕ
one_if true = 1
one_if false = 0

module _ {A : Type 0} (f : A → ℕ) where
  unfoldable pub sum_by : List A → ℕ
  sum_by [] = 0
  sum_by (x ∷ xs) = f x + sum_by xs

  pub sum_by-append : (xs ys : List A) → sum_by (xs ++ ys) ≡ sum_by xs + sum_by ys
  unfolding sum_by
  sum_by-append [] ys = omega arith
  sum_by-append (x ∷ xs) ys = omega (arith, sum_by-append xs ys)

  pub sum_by-remove :
      (xs : List A) (i : ℕ) (x : A)
      → get_elem? xs i ≡ some x
      → sum_by xs ≡ f x + sum_by (take i xs ++ drop (suc i) xs)
  unfolding sum_by
  sum_by-remove [] i x h = absurd (none-ne-some h)
  sum_by-remove (y ∷ ys) zero x h = ground arith
  sum_by-remove (y ∷ ys) (suc i) x h = omega (arith, sum_by-remove ys i x h)

  pub sum_by-singleton : (x : A) → sum_by (x ∷ []) ≡ f x
  unfolding sum_by
  sum_by-singleton x = omega arith

-- Tasks that will run a node under the context `c`, and tasks that end the branch of `c`.
abbrev pub tell_weight : ℕ → Task → ℕ
tell_weight c (first_node a msg e) = one_if (nat_eq a c)
tell_weight c (next_node a msg next relation_type) = one_if (nat_eq a c)
tell_weight c _ = 0

abbrev pub end_weight : ℕ → Task → ℕ
end_weight c (branch_end a msg e relation_type) = one_if (nat_eq a c)
end_weight c _ = 0

abbrev pub tells_at : ℕ → List Task → ℕ
tells_at c tasks = sum_by (tell_weight c) tasks

abbrev pub ends_at : ℕ → List Task → ℕ
ends_at c tasks = sum_by (end_weight c) tasks

abbrev pub is_parent : ℕ → Option ℕ → Bool
is_parent p none = false
is_parent p (some q) = nat_eq p q

abbrev pub child_weight : (ℕ → Option ℕ) → (ℕ → Bool) → ℕ → ℕ → ℕ
child_weight parent live p d = one_if (live d && is_parent p (parent d))

-- The live children of `p` among the contexts below `n`.
unfoldable pub children : ℕ → (ℕ → Option ℕ) → (ℕ → Bool) → ℕ → ℕ
children zero parent live p = 0
children (suc n) parent live p = child_weight parent live p n + children n parent live p

pub children-congr :
    (n : ℕ) (parent parent' : ℕ → Option ℕ) (live live' : ℕ → Bool) (p : ℕ)
    → ((d : ℕ) → d < n → child_weight parent live p d ≡ child_weight parent' live' p d)
    → children n parent live p ≡ children n parent' live' p
unfolding children
children-congr zero parent parent' live live' p h = refl
children-congr (suc n) parent parent' live live' p h = omega (
  arith,
  h n (omega arith),
  children-congr n parent parent' live live' p (λ d l. h d (omega arith)),
)

abbrev pub turn_off : ℕ → (ℕ → Bool) → ℕ → Bool
turn_off c live d = if nat_eq d c then false else live d

abbrev pub turn_on : ℕ → (ℕ → Bool) → ℕ → Bool
turn_on c live d = if nat_eq d c then true else live d

weight-turn_on_other :
    (parent parent' : ℕ → Option ℕ) (live : ℕ → Bool) (p c d : ℕ)
    → d ≢ c
    → parent' d ≡ parent d
    → child_weight parent live p d ≡ child_weight parent' (turn_on c live) p d
weight-turn_on_other parent parent' live p c d h e = ground arith

weight-turn_on_self :
    (parent : ℕ → Option ℕ) (live : ℕ → Bool) (p c : ℕ)
    → child_weight parent (turn_on c live) p c ≡ one_if (is_parent p (parent c))
weight-turn_on_self parent live p c = ground arith

weight-turn_off_other :
    (parent : ℕ → Option ℕ) (live : ℕ → Bool) (p c d : ℕ)
    → d ≢ c
    → child_weight parent live p d ≡ child_weight parent (turn_off c live) p d
weight-turn_off_other parent live p c d h = ground arith

weight-turn_off_self :
    (parent : ℕ → Option ℕ) (live : ℕ → Bool) (p c d : ℕ)
    → d ≡ c
    → live c ≡ true
    → child_weight parent live p d
      ≡ one_if (is_parent p (parent c)) + child_weight parent (turn_off c live) p d
weight-turn_off_self parent live p c d h l = ground arith

-- A context that is no longer live is a child less for its parent, and for no other.
pub children-turn_off :
    (n : ℕ) (parent : ℕ → Option ℕ) (live : ℕ → Bool) (p c : ℕ)
    → c < n
    → live c ≡ true
    → children n parent live p
      ≡ one_if (is_parent p (parent c)) + children n parent (turn_off c live) p
unfolding children
children-turn_off zero parent live p c l h = absurd (omega arith)
children-turn_off (suc n) parent live p c l h = elim (Bool-cases (nat_eq n c)) [
  | inl same ↦
      let e : n ≡ c = (nat_eq_iff n c).0 same in
      omega (
        arith,
        weight-turn_off_self parent live p c n e h,
        children-congr n parent parent live (turn_off c live) p
            (λ d l'. weight-turn_off_other parent live p c d (omega arith)),
      )
  | inr other ↦
      let ne : n ≢ c = λ e. false≢true (sym other ∙ (nat_eq_iff n c).1 e) in
      omega (
        arith,
        weight-turn_off_other parent live p c n ne,
        children-turn_off n parent live p c (omega arith) h,
      )
]

-- A new context is a child more for its parent, and for no other.
pub children-turn_on :
    (n : ℕ) (parent parent' : ℕ → Option ℕ) (live : ℕ → Bool) (p : ℕ)
    → ((d : ℕ) → d < n → parent' d ≡ parent d)
    → children (suc n) parent' (turn_on n live) p
      ≡ one_if (is_parent p (parent' n)) + children n parent live p
unfolding children
children-turn_on n parent parent' live p h = omega (
  arith,
  weight-turn_on_self parent' live p n,
  children-congr n parent parent' live (turn_on n live) p
      (λ d l. weight-turn_on_other parent parent' live p n d (omega arith) (h d l)),
)
