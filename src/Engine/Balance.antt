-- ===== src/Engine/Balance.antt =====
-- The balance of the counters of unfinished children, over plain functions: `T c` and `E c` are the
-- tasks that run a node under `c` and that end the branch of `c`, and `live` tells which contexts have
-- not been counted as done by their parents. What a context is owed is its tasks `T` and its live
-- children. Address 0 is the root.
use rulego.Prelude.{
  ℕ, zero, suc, ◌+◌, ◌^◌, ◌<◌, ◌≡◌, sym, ap, ◌∙◌, ◌≢◌, ◌⊎◌, inl, inr, Bool, true, false, Option,
  none, some, arith, nat_eq, nat_eq_iff, Bool-cases,
}
use rulego.Prelude.Words.{dec32, sle32}
use mathlib.Core.Path.{subst}
use native.Mathlib.Nat.{zero-add}
use mathlib.Core.Bool.{false≢true}
use rulego.Engine.Count.{one_if, is_parent, children, turn_off, children-turn_off}

-- A live context waits for what it is owed, or for the end of its branch.
abbrev pub IsBalanced : ℕ → ℕ → ℕ → ℕ → Type 0
IsBalanced zero waiting owed ends = (waiting ≡ 0) × (owed + ends ≡ 1)
IsBalanced (suc c) waiting owed ends =
    ((ends ≡ 1) × (waiting ≡ 0) × (owed ≡ 0))
    ⊎ ((ends ≡ 0) × (waiting ≡ owed) × (0 < owed) × (owed < 2 ^ 31))

-- A context just before `childDone` counts one of what it waits for.
abbrev pub IsDue : ℕ → ℕ → ℕ → ℕ → Type 0
IsDue zero waiting owed ends = (waiting ≡ 0) × (owed ≡ 0) × (ends ≡ 0)
IsDue (suc c) waiting owed ends =
    (ends ≡ 0) × (((waiting ≡ owed + 1) × (owed + 1 < 2 ^ 31)) ⊎ ((waiting ≡ 0) × (owed ≡ 0)))

minus_one : (waiting : ℕ) → waiting ≡ 0 → sle32 (dec32 waiting) 0 ≡ false → ⊥
minus_one waiting h e = ground arith

dec32_suc : (waiting n : ℕ) → waiting ≡ n + 1 → n + 1 < 2 ^ 31 → dec32 waiting ≡ n
dec32_suc waiting n h b = omega arith

sle32_pos : (n : ℕ) → sle32 n 0 ≡ false → 0 < n
sle32_pos n h = ground arith

sle32_zero : (n : ℕ) → n < 2 ^ 31 → sle32 n 0 ≡ true → n ≡ 0
sle32_zero n b h = ground arith

pub IsDue-waits :
    (c waiting owed ends : ℕ)
    → IsDue c waiting owed ends
    → sle32 (dec32 waiting) 0 ≡ false
    → (0 < c) × IsBalanced c (dec32 waiting) owed ends
IsDue-waits zero waiting owed ends d h = absurd (minus_one waiting d.0 h)
IsDue-waits (suc c) waiting owed ends (e, inl (w, b)) h = (
  omega arith,
  inr (
    e,
    omega arith,
    sle32_pos owed (subst (λ v. sle32 v 0 ≡ false) (dec32_suc waiting owed w b) h),
    omega arith,
  ),
)
IsDue-waits (suc c) waiting owed ends (e, inr (w, o)) h = absurd (minus_one waiting w h)

pub IsDue-finished :
    (c waiting owed ends : ℕ)
    → IsDue c waiting owed ends
    → sle32 (dec32 waiting) 0 ≡ true
    → (owed ≡ 0) × (ends ≡ 0)
IsDue-finished zero waiting owed ends d h = (d.1, d.2)
IsDue-finished (suc c) waiting owed ends (e, inl (w, b)) h = (
  sle32_zero owed (omega arith) (subst (λ v. sle32 v 0 ≡ true) (dec32_suc waiting owed w b) h),
  e,
)
IsDue-finished (suc c) waiting owed ends (e, inr (w, o)) h = (o, e)

pub IsBalanced-IsDue :
    (c waiting owed ends : ℕ) → IsBalanced c waiting (owed + 1) ends → IsDue c waiting owed ends
IsBalanced-IsDue zero waiting owed ends (w, b) = (w, omega arith, omega arith)
IsBalanced-IsDue (suc c) waiting owed ends (inl (e, w, o)) = absurd (omega arith)
IsBalanced-IsDue (suc c) waiting owed ends (inr (e, w, p, b)) = (e, inl (w, b))

abbrev pub is_hole : Option ℕ → ℕ → Bool
is_hole none c = false
is_hole (some h) c = nat_eq h c

-- All live contexts but the hole are balanced.
pub record IsGood (hole : Option ℕ) (live : ℕ → Bool) (parent : ℕ → Option ℕ) (waiting : ℕ → ℕ)
    (next : ℕ) (T E : ℕ → ℕ) : Type 0 where
  pub inhabited : 0 < next
  pub root : parent 0 ≡ none
  pub up : (c : ℕ) → 0 < c → c < next → (p : ℕ) × (parent c ≡ some p) × (p < c)
  pub below : (c : ℕ) → live c ≡ true → c < next
  pub dead : (c : ℕ) → live c ≡ false → (T c + children next parent live c ≡ 0) × (E c ≡ 0)
  pub balanced :
      (c : ℕ)
      → live c ≡ true
      → is_hole hole c ≡ false
      → IsBalanced c (waiting c) (T c + children next parent live c) (E c)

pub nat_eq-ne : (a b : ℕ) → a ≢ b → nat_eq a b ≡ false
nat_eq-ne a b h = ground arith

turn_off_ne : (c : ℕ) (live : ℕ → Bool) (a : ℕ) → a ≢ c → turn_off c live a ≡ live a
turn_off_ne c live a h = ground arith

turn_off_self :
    (c : ℕ) (live : ℕ → Bool) (a : ℕ) → turn_off c live a ≡ true → (a ≢ c) × (live a ≡ true)
turn_off_self c live a h = ground arith

is_parent_self : (p : ℕ) → one_if (is_parent p (some p)) ≡ 1
is_parent_self p = ground arith

is_parent_ne : (a p : ℕ) → a ≢ p → one_if (is_parent a (some p)) ≡ 0
is_parent_ne a p h = ground arith

module _ {live : ℕ → Bool} {parent : ℕ → Option ℕ} {waiting : ℕ → ℕ} {next : ℕ} {T E : ℕ → ℕ}
    (c p : ℕ) (g : IsGood (some c) live parent waiting next T E) (l : live c ≡ true)
    (up : parent c ≡ some p) (lt : p < c) where
  kids :
      (a : ℕ)
      → children next parent live a
        ≡ one_if (is_parent a (some p)) + children next parent (turn_off c live) a
  kids a =
      subst
        (λ o.
          children next parent live a
          ≡ one_if (is_parent a o) + children next parent (turn_off c live) a)
        up (children-turn_off next parent live a c (g.below c l) l)

  parent_live : live p ≡ true
  parent_live = elim (Bool-cases (live p)) [
    | inl on ↦ on
    | inr off ↦ absurd (omega (arith, g.dead p off, kids p, is_parent_self p))
  ]

  close-IsBalanced :
      (a : ℕ)
      → turn_off c live a ≡ true
      → is_hole (some p) a ≡ false
      → IsBalanced a (waiting a) (T a + children next parent (turn_off c live) a) (E a)
  close-IsBalanced a on away =
      let (ne, la) = turn_off_self c live a on in
      let here : a ≢ p = λ e. false≢true (sym away ∙ (nat_eq_iff p a).1 (sym e)) in
      let same : T a + children next parent live a
          ≡ T a + children next parent (turn_off c live) a =
        omega (arith, kids a, is_parent_ne a p here) in
      subst (λ o. IsBalanced a (waiting a) o (E a)) same
        (g.balanced a la (nat_eq-ne c a (λ e. ne (sym e))))

  close_dead :
      T c + children next parent live c ≡ 0
      → E c ≡ 0
      → (a : ℕ) → turn_off c live a ≡ false
      → (T a + children next parent (turn_off c live) a ≡ 0) × (E a ≡ 0)
  close_dead owed ends a off = elim (Bool-cases (nat_eq a c)) [
    | inl same ↦
        let e : c ≡ a = sym ((nat_eq_iff a c).0 same) in
        subst (λ b. (T b + children next parent (turn_off c live) b ≡ 0) × (E b ≡ 0)) e
          (omega (arith, kids c), ends)
    | inr other ↦
        let ne : a ≢ c = λ e. false≢true (sym other ∙ (nat_eq_iff a c).1 e) in
        let (o, e) = g.dead a (sym (turn_off_ne c live a ne) ∙ off) in (omega (arith, kids a), e)
  ]

  -- A context with nothing left is done: its parent is due.
  pub close :
      T c + children next parent live c ≡ 0
      → E c ≡ 0
      → IsGood (some p) (turn_off c live) parent waiting next T E
        × (turn_off c live p ≡ true)
        × IsDue p (waiting p) (T p + children next parent (turn_off c live) p) (E p)
  close owed ends = (
    record {
      inhabited = g.inhabited;
      root = g.root;
      up = g.up;
      below = λ a on. g.below a (turn_off_self c live a on).1;
      dead = close_dead owed ends;
      balanced = close-IsBalanced;
    },
    turn_off_ne c live p (omega arith) ∙ parent_live,
    IsBalanced-IsDue p (waiting p) (T p + children next parent (turn_off c live) p) (E p) (
        subst (λ o. IsBalanced p (waiting p) o (E p)) (omega (arith, kids p, is_parent_self p))
          (g.balanced p parent_live (nat_eq-ne c p (omega arith)))),
  )

module _ {live : ℕ → Bool} {parent : ℕ → Option ℕ} {waiting : ℕ → ℕ} {next : ℕ} {T E : ℕ → ℕ} where
  kids_root :
      (a : ℕ)
      → IsGood (some 0) live parent waiting next T E
      → live 0 ≡ true
      → children next parent live a ≡ children next parent (turn_off 0 live) a
  kids_root a g l =
      subst
        (λ o.
          children next parent live a
          ≡ one_if (is_parent a o) + children next parent (turn_off 0 live) a)
        g.root (children-turn_off next parent live a 0 g.inhabited l)
      ∙ zero-add _

  -- The root with nothing left is done.
  pub close_root :
      IsGood (some 0) live parent waiting next T E
      → live 0 ≡ true
      → T 0 + children next parent live 0 ≡ 0
      → E 0 ≡ 0
      → IsGood none (turn_off 0 live) parent waiting next T E
  close_root g l owed ends = record {
    inhabited = g.inhabited;
    root = g.root;
    up = g.up;
    below = λ a on. g.below a (turn_off_self 0 live a on).1;
    dead = λ a off. elim (Bool-cases (nat_eq a 0)) [
      | inl same ↦
          subst (λ b. (T b + children next parent (turn_off 0 live) b ≡ 0) × (E b ≡ 0))
            (sym ((nat_eq_iff a 0).0 same)) (omega (arith, kids_root 0 g l), ends)
      | inr other ↦
          let ne : a ≢ 0 = λ e. false≢true (sym other ∙ (nat_eq_iff a 0).1 e) in
          let (o, e) = g.dead a (sym (turn_off_ne 0 live a ne) ∙ off) in
          (omega (arith, kids_root a g l), e)
    ];
    balanced = λ a on away.
        let (ne, la) = turn_off_self 0 live a on in
        subst (λ k. IsBalanced a (waiting a) (T a + k) (E a)) (kids_root a g l)
          (g.balanced a la (nat_eq-ne 0 a (λ e. ne (sym e))));
  }

  -- Only the counter of the hole changes.
  pub recount :
      (c : ℕ) (waiting' : ℕ → ℕ)
      → ((a : ℕ) → a ≢ c → waiting' a ≡ waiting a)
      → IsGood (some c) live parent waiting next T E
      → IsGood (some c) live parent waiting' next T E
  recount c waiting' same g = record {
    inhabited = g.inhabited;
    root = g.root;
    up = g.up;
    below = g.below;
    dead = g.dead;
    balanced = λ a on away.
        subst (λ w. IsBalanced a w (T a + children next parent live a) (E a))
          (sym (same a (λ e. false≢true (sym away ∙ (nat_eq_iff c a).1 (sym e)))))
          (g.balanced a on away);
  }

  -- Only the tasks of the hole change.
  pub reweigh :
      (c : ℕ) (T' E' : ℕ → ℕ)
      → live c ≡ true
      → ((a : ℕ) → a ≢ c → T' a ≡ T a)
      → ((a : ℕ) → a ≢ c → E' a ≡ E a)
      → IsGood (some c) live parent waiting next T E
      → IsGood (some c) live parent waiting next T' E'
  reweigh c T' E' l sameT sameE g = record {
    inhabited = g.inhabited;
    root = g.root;
    up = g.up;
    below = g.below;
    dead = λ a off.
        let ne : a ≢ c = λ e. false≢true (sym off ∙ ap live e ∙ l) in
        (omega (arith, sameT a ne, g.dead a off), omega (arith, sameE a ne, g.dead a off));
    balanced = λ a on away.
        let ne : a ≢ c = λ e. false≢true (sym away ∙ (nat_eq_iff c a).1 (sym e)) in
        subst (λ t. IsBalanced a (waiting a) (t + children next parent live a) (E' a))
          (sym (sameT a ne))
          (subst (λ e. IsBalanced a (waiting a) (T a + children next parent live a) e)
            (sym (sameE a ne)) (g.balanced a on away));
  }

  -- The hole is filled.
  pub fill :
      (c : ℕ)
      → IsGood (some c) live parent waiting next T E
      → IsBalanced c (waiting c) (T c + children next parent live c) (E c)
      → IsGood none live parent waiting next T E
  fill c g b = record {
    inhabited = g.inhabited;
    root = g.root;
    up = g.up;
    below = g.below;
    dead = g.dead;
    balanced = λ a on away. elim (Bool-cases (nat_eq c a)) [
      | inl same ↦
          subst (λ d. IsBalanced d (waiting d) (T d + children next parent live d) (E d))
            ((nat_eq_iff c a).0 same) b
      | inr other ↦ g.balanced a on other
    ];
  }
