-- ===== src/Engine/Adopting.antt =====
-- A task that runs a node under `c` becomes a new context whose parent is `c`: what `c` is owed stays.
use rulego.Prelude.{
  ℕ, zero, suc, ◌+◌, ◌<◌, ◌≡◌, refl, sym, ◌∙◌, ◌≢◌, inl, inr, Bool, true, false, Option, none, some,
  arith, nat_eq, nat_eq_iff, Bool-cases,
}
use mathlib.Core.Path.{subst}
use mathlib.Core.Bool.{false≢true}
use rulego.Engine.Count.{one_if, is_parent, children, turn_on, children-turn_on}
use rulego.Engine.Balance.{IsBalanced, IsGood, reweigh}

turn_on_self : (n : ℕ) (live : ℕ → Bool) → turn_on n live n ≡ true
turn_on_self n live = ground arith

turn_on_ne : (n : ℕ) (live : ℕ → Bool) (a : ℕ) → a ≢ n → turn_on n live a ≡ live a
turn_on_ne n live a h = ground arith

turn_on_off :
    (n : ℕ) (live : ℕ → Bool) (a : ℕ) → turn_on n live a ≡ false → (a ≢ n) × (live a ≡ false)
turn_on_off n live a h = (ground arith, ground arith)

is_parent_comm : (a c : ℕ) → one_if (is_parent a (some c)) ≡ one_if (nat_eq c a)
is_parent_comm a c = ground arith

one_self : (c : ℕ) → one_if (nat_eq c c) ≡ 1
one_self c = ground arith

module _ {live : ℕ → Bool} {parent : ℕ → Option ℕ} {waiting : ℕ → ℕ} {next : ℕ} {T E : ℕ → ℕ}
    (parent' : ℕ → Option ℕ) (waiting' : ℕ → ℕ) (T' E' : ℕ → ℕ) (c : ℕ)
    (g : IsGood none live parent waiting next T E)
    (tells : (a : ℕ) → T a ≡ one_if (nat_eq c a) + T' a) (ends : (a : ℕ) → E' a ≡ E a)
    (parents : (a : ℕ) → a ≢ next → parent' a ≡ parent a) (own_parent : parent' next ≡ some c)
    (waits : (a : ℕ) → a ≢ next → waiting' a ≡ waiting a) where
  off_next : live next ≡ false
  off_next = elim (Bool-cases (live next)) [
    | inl on ↦ absurd (omega (arith, g.below next on))
    | inr off ↦ off
  ]

  pub adopter_live : live c ≡ true
  adopter_live = elim (Bool-cases (live c)) [
    | inl on ↦ on
    | inr off ↦ absurd (omega (arith, g.dead c off, tells c, one_self c))
  ]

  owed_same :
      (a : ℕ)
      → T' a + children (suc next) parent' (turn_on next live) a ≡ T a + children next parent live a
  owed_same a = omega (
    arith,
    tells a,
    is_parent_comm a c,
    subst
        (λ o.
          children (suc next) parent' (turn_on next live) a
          ≡ one_if (is_parent a o) + children next parent live a)
        own_parent (children-turn_on next parent parent' live a (λ b lt. parents b (omega arith))),
  )

  pub adopt_owes : T' next + children (suc next) parent' (turn_on next live) next ≡ 0
  adopt_owes = owed_same next ∙ (g.dead next off_next).0

  pub adopt_ends : E' next ≡ 0
  adopt_ends = ends next ∙ (g.dead next off_next).1

  adopt_up : (a : ℕ) → 0 < a → a < suc next → (p : ℕ) × (parent' a ≡ some p) × (p < a)
  adopt_up a pos lt = elim (Bool-cases (nat_eq a next)) [
    | inl same ↦
        let e : next ≡ a = sym ((nat_eq_iff a next).0 same) in
        subst (λ b. (p : ℕ) × (parent' b ≡ some p) × (p < b)) e
          (c, own_parent, g.below c adopter_live)
    | inr other ↦
        let ne : a ≢ next = λ e. false≢true (sym other ∙ (nat_eq_iff a next).1 e) in
        let (p, up, less) = g.up a pos (omega arith) in (p, parents a ne ∙ up, less)
  ]

  adopt_below : (a : ℕ) → turn_on next live a ≡ true → a < suc next
  adopt_below a on = elim (Bool-cases (nat_eq a next)) [
    | inl same ↦ omega (arith, (nat_eq_iff a next).0 same)
    | inr other ↦
        let ne : a ≢ next = λ e. false≢true (sym other ∙ (nat_eq_iff a next).1 e) in
        omega (arith, g.below a (sym (turn_on_ne next live a ne) ∙ on))
  ]

  pub adopt : IsGood (some next) (turn_on next live) parent' waiting' (suc next) T' E'
  adopt = record {
    inhabited = omega arith;
    root = parents 0 (omega (arith, g.inhabited)) ∙ g.root;
    up = adopt_up;
    below = adopt_below;
    dead = λ a off.
        let (ne, was) = turn_on_off next live a off in
        (owed_same a ∙ (g.dead a was).0, ends a ∙ (g.dead a was).1);
    balanced = λ a on away.
        let ne : a ≢ next = λ e. false≢true (sym away ∙ (nat_eq_iff next a).1 (sym e)) in
        subst (λ o. IsBalanced a (waiting' a) o (E' a)) (sym (owed_same a))
          (subst (λ e. IsBalanced a (waiting' a) (T a + children next parent live a) e)
            (sym (ends a))
            (subst (λ v. IsBalanced a v (T a + children next parent live a) (E a))
              (sym (waits a ne)) (g.balanced a (sym (turn_on_ne next live a ne) ∙ on) refl)));
  }

pub adopt_alive : (live : ℕ → Bool) (next : ℕ) → turn_on next live next ≡ true
adopt_alive live next = turn_on_self next live

other_weight : (c a : ℕ) → a ≢ c → one_if (nat_eq c a) ≡ 0
other_weight c a ne = ground arith

ended :
    (c waiting owed ends left : ℕ)
    → ends ≡ suc left
    → IsBalanced c waiting owed ends
    → (waiting ≡ 0) × (owed ≡ 0) × (left ≡ 0)
ended zero waiting owed ends left h (w, o) = (w, omega arith, omega arith)
ended (suc c) waiting owed ends left h (inl (e, w, o)) = (w, o, omega arith)
ended (suc c) waiting owed ends left h (inr (e, w, o, b)) = absurd (omega arith)

-- A task that ends the branch of `c`, or that the root waits for, is taken off the list.
module _ {live : ℕ → Bool} {parent : ℕ → Option ℕ} {waiting : ℕ → ℕ} {next : ℕ} {T E : ℕ → ℕ}
    (T' E' : ℕ → ℕ) (c : ℕ) (g : IsGood none live parent waiting next T E) where
  widen : IsGood (some c) live parent waiting next T E
  widen = record {
    inhabited = g.inhabited;
    root = g.root;
    up = g.up;
    below = g.below;
    dead = g.dead;
    balanced = λ a on away. g.balanced a on refl;
  }

  release_other :
      live c ≡ true
      → ((a : ℕ) → T a ≡ T' a)
      → ((a : ℕ) → E a ≡ one_if (nat_eq c a) + E' a)
      → IsGood (some c) live parent waiting next T' E'
  release_other l sameT lessE =
      reweigh c T' E' l (λ a ne. sym (sameT a))
        (λ a ne. omega (arith, lessE a, other_weight c a ne)) widen

  pub release_live : ((a : ℕ) → E a ≡ one_if (nat_eq c a) + E' a) → live c ≡ true
  release_live lessE = elim (Bool-cases (live c)) [
    | inl on ↦ on
    | inr off ↦ absurd (omega (arith, g.dead c off, lessE c, one_self c))
  ]

  pub release :
      ((a : ℕ) → T a ≡ T' a)
      → ((a : ℕ) → E a ≡ one_if (nat_eq c a) + E' a)
      → IsGood (some c) live parent waiting next T' E'
        × (waiting c ≡ 0)
        × (T' c + children next parent live c ≡ 0)
        × (E' c ≡ 0)
  release sameT lessE =
      let l = release_live lessE in
      let (w, o, e) =
        ended c (waiting c) (T c + children next parent live c) (E c) (E' c)
          (omega (arith, lessE c, one_self c)) (g.balanced c l refl) in
      (release_other l sameT lessE, w, omega (arith, o, sameT c), e)

module _ {live : ℕ → Bool} {parent : ℕ → Option ℕ} {waiting : ℕ → ℕ} {next : ℕ} {T E : ℕ → ℕ}
    (T' E' : ℕ → ℕ) (g : IsGood none live parent waiting next T E) where
  pub release_root :
      ((a : ℕ) → T a ≡ one_if (nat_eq 0 a) + T' a)
      → ((a : ℕ) → E a ≡ E' a)
      → IsGood (some 0) live parent waiting next T' E'
        × (live 0 ≡ true)
        × (waiting 0 ≡ 0)
        × (T' 0 + children next parent live 0 ≡ 0)
        × (E' 0 ≡ 0)
  release_root lessT sameE =
      let l : live 0 ≡ true = elim (Bool-cases (live 0)) [
        | inl on ↦ on
        | inr off ↦ absurd (omega (arith, g.dead 0 off, lessT 0))
      ] in
      let b = g.balanced 0 l refl in
      (
        reweigh 0 T' E' l (λ a ne. omega (arith, lessT a, other_weight 0 a ne))
            (λ a ne. sym (sameE a)) (widen T' E' 0 g),
        l,
        b.0,
        omega (arith, b.1, lessT 0, sameE 0),
        omega (arith, b.1, lessT 0, sameE 0),
      )

pub tells_live :
    {live : ℕ → Bool} {parent : ℕ → Option ℕ} {waiting : ℕ → ℕ} {next : ℕ} {T E : ℕ → ℕ} (c : ℕ)
    (left : ℕ)
    → IsGood none live parent waiting next T E
    → T c ≡ one_if (nat_eq c c) + left
    → live c ≡ true
tells_live {live} c left g more = elim (Bool-cases (live c)) [
  | inl on ↦ on
  | inr off ↦ absurd (omega (arith, g.dead c off, one_self c))
]
