-- ===== src/Engine/Ending.antt =====
-- Balanced counters at the two ends of a run: a done root leaves nothing to do, and nothing to do
-- leaves no live context.
use rulego.Prelude.{
  ℕ, zero, suc, ◌+◌, ◌<◌, ◌≡◌, refl, inl, inr, Bool, true, false, Option, none, some, arith,
  Bool-cases,
}
use mathlib.Core.Bool.{false≢true}
use mathlib.Core.Path.{subst}
use rulego.Engine.Count.{one_if, is_parent, child_weight, children, turn_off, children-turn_off}
use rulego.Engine.Balance.{IsBalanced, IsGood}

is_parent_self : (p : ℕ) → one_if (is_parent p (some p)) ≡ 1
is_parent_self p = ground arith

is_parent-some : (c p : ℕ) → is_parent c (some p) ≡ true → c ≡ p
is_parent-some c p h = ground arith

childless :
    (n : ℕ) (parent : ℕ → Option ℕ) (live : ℕ → Bool) (p : ℕ)
    → ((d : ℕ) → d < n → is_parent p (parent d) ≡ true → live d ≡ false)
    → children n parent live p ≡ 0
unfolding children
childless zero parent live p h = refl
childless (suc n) parent live p h =
    let weight : child_weight parent live p n ≡ 0 = elim (Bool-cases (is_parent p (parent n))) [
      | inl is ↦ ground (arith, h n (omega arith) is)
      | inr other ↦ ground (arith, other)
    ] in
    omega (arith, weight, childless n parent live p (λ d l. h d (omega arith)))

owes_nothing : (c waiting owed ends : ℕ) → owed ≡ 0 → ends ≡ 0 → IsBalanced c waiting owed ends → ⊥
owes_nothing zero waiting owed ends o e (w, b) = omega arith
owes_nothing (suc c) waiting owed ends o e (inl b) = omega (arith, b.0)
owes_nothing (suc c) waiting owed ends o e (inr (n, w, p, m)) = omega arith

module _ {live : ℕ → Bool} {parent : ℕ → Option ℕ} {waiting : ℕ → ℕ} {next : ℕ} {T E : ℕ → ℕ}
    (g : IsGood none live parent waiting next T E) where
  parent_of_live : (c p : ℕ) → live c ≡ true → parent c ≡ some p → live p ≡ false → ⊥
  parent_of_live c p on up off =
      let kids =
        subst
          (λ o.
            children next parent live p
            ≡ one_if (is_parent p o) + children next parent (turn_off c live) p)
          up (children-turn_off next parent live p c (g.below c on) on) in
      omega (arith, g.dead p off, kids, is_parent_self p)

  dead_below : live 0 ≡ false → (n c : ℕ) → c < n → live c ≡ false
  dead_below h zero c lt = absurd (omega arith)
  dead_below h (suc n) zero lt = h
  dead_below h (suc n) (suc c) lt = elim (Bool-cases (live (suc c))) [
    | inr off ↦ off
    | inl on ↦
        let (p, up, below) = g.up (suc c) (omega arith) (g.below (suc c) on) in
        absurd (parent_of_live (suc c) p on up (dead_below h n p (omega arith)))
  ]

  pub root_dead : live 0 ≡ false → (a : ℕ) → (T a ≡ 0) × (E a ≡ 0)
  root_dead h a = let d = g.dead a (dead_below h (suc a) a (omega arith)) in (omega (arith, d), d.1)

  child_above : (c d : ℕ) → d < next → is_parent c (parent d) ≡ true → c < d
  child_above c zero lt is = absurd (false≢true (subst (λ o. is_parent c o ≡ true) g.root is))
  child_above c (suc d) lt is =
      let (p, up, below) = g.up (suc d) (omega arith) lt in
      omega (arith, is_parent-some c p (subst (λ o. is_parent c o ≡ true) up is))

  dead_above : ((a : ℕ) → (T a ≡ 0) × (E a ≡ 0)) → (k c : ℕ) → next < c + k → live c ≡ false
  dead_above h zero c lt = elim (Bool-cases (live c)) [
    | inr off ↦ off
    | inl on ↦ absurd (omega (arith, g.below c on))
  ]
  dead_above h (suc k) c lt = elim (Bool-cases (live c)) [
    | inr off ↦ off
    | inl on ↦
        let kids =
          childless next parent live c
            (λ d l is. dead_above h k d (omega (arith, child_above c d l is))) in
        absurd (owes_nothing c _ _ _ (omega (arith, (h c).0, kids)) (h c).1 (g.balanced c on refl))
  ]

  pub all_dead : ((a : ℕ) → (T a ≡ 0) × (E a ≡ 0)) → live 0 ≡ false
  all_dead h = dead_above h (suc next) 0 (omega arith)
