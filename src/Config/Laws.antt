-- ===== src/Config/Laws.antt =====
-- The order of the aspects that api/types/config.go hands to an engine.
use rulego.Prelude.{
  ◌≤◌, ◌≡◌, sym, ap, ◌∙◌, inl, inr, Bool, false, List, [], ◌∷◌, arith, Bool-cases, filter, All,
}
use mathlib.Core.List.{Permᴰ}
use mathlib.Core.List.Permᴰ.{nil, cons, swap, trans, refl as perm_refl}
use rulego.Dsl.{ℤ, pos, negsuc}
use rulego.Config.{
  Aspect, AspectKind, around, before, after, start, end, completed, on_created, on_reload,
  on_destroy, Config, int_lt, less, get_node_aspects, get_chain_aspects, get_engine_aspects,
}

-- The order of the integers, written out by their signs.
abbrev pub IsAtMost : ℤ → ℤ → Type 0
IsAtMost (pos a) (pos b) = a ≤ b
IsAtMost (pos a) (negsuc b) = ⊥
IsAtMost (negsuc a) (pos b) = Unit
IsAtMost (negsuc a) (negsuc b) = b ≤ a

-- The orders never go down from left to right.
abbrev pub IsAscending : List Aspect → Type 0
IsAscending [] = Unit
IsAscending (a ∷ as') = All (λ b. IsAtMost a.order b.order) as' × IsAscending as'

-- No element stands before one that is less.
abbrev pub IsOrdered : List Aspect → Type 0
IsOrdered [] = Unit
IsOrdered (a ∷ as') = All (λ b. less b a ≡ false) as' × IsOrdered as'

int_lt-IsAtMost : (i j : ℤ) → int_lt j i ≡ false → IsAtMost i j
int_lt-IsAtMost (pos a) (pos b) h = ground arith
int_lt-IsAtMost (pos a) (negsuc b) h = cc
int_lt-IsAtMost (negsuc a) (pos b) h = tt
int_lt-IsAtMost (negsuc a) (negsuc b) h = ground arith

not_less :
    (a : Aspect) (as' : List Aspect)
    → All (λ b. less b a ≡ false) as'
    → All (λ b. IsAtMost a.order b.order) as'
not_less a [] h = tt
not_less a (b ∷ as') (h, hs) = (int_lt-IsAtMost a.order b.order h, not_less a as' hs)

IsOrdered-IsAscending : (as' : List Aspect) → IsOrdered as' → IsAscending as'
IsOrdered-IsAscending [] h = tt
IsOrdered-IsAscending (a ∷ as') (h, hs) = (not_less a as' h, IsOrdered-IsAscending as' hs)

-- What Go's documentation says of `sort.Slice`: the same elements in the order of `less`; equal
-- elements may change places.
abbrev pub Sorts : ((Aspect → Aspect → Bool) → List Aspect → List Aspect) → Type 0
Sorts sort = (as' : List Aspect) → Permᴰ (sort less as') as' × IsOrdered (sort less as')

filter-All :
    (P : Aspect → Type 0) (p : Aspect → Bool) (as' : List Aspect) → All P as' → All P (filter p as')
filter-All P p [] h = h
filter-All P p (a ∷ as') (h, hs) = elim (Bool-cases (p a)) [
  | inl e ↦ rw e (h, filter-All P p as' hs)
  | inr e ↦ rw e (filter-All P p as' hs)
]

filter-IsOrdered :
    (p : Aspect → Bool) (as' : List Aspect) → IsOrdered as' → IsOrdered (filter p as')
filter-IsOrdered p [] h = h
filter-IsOrdered p (a ∷ as') (h, hs) = elim (Bool-cases (p a)) [
  | inl e ↦ rw e (filter-All (λ b. less b a ≡ false) p as' h, filter-IsOrdered p as' hs)
  | inr e ↦ rw e (filter-IsOrdered p as' hs)
]

filter_swapped :
    (p : Aspect → Bool) {a b a' b' : Aspect} (l : List Aspect)
    → a ≡ b'
    → b ≡ a'
    → Permᴰ (filter p (a ∷ b ∷ l)) (filter p (a' ∷ b' ∷ l))
filter_swapped p {a} {b} l e e' = elim (Bool-cases (p a)) [
  | inl s ↦ elim (Bool-cases (p b)) [
    | inl t ↦ rw (s, t, sym (ap p e) ∙ s, sym (ap p e') ∙ t) (swap e e')
    | inr t ↦ rw (s, t, sym (ap p e) ∙ s, sym (ap p e') ∙ t) (cons e (perm_refl (filter p l)))
  ]
  | inr s ↦ elim (Bool-cases (p b)) [
    | inl t ↦ rw (s, t, sym (ap p e) ∙ s, sym (ap p e') ∙ t) (cons e' (perm_refl (filter p l)))
    | inr t ↦ rw (s, t, sym (ap p e) ∙ s, sym (ap p e') ∙ t) (perm_refl (filter p l))
  ]
]

filter-Permᴰ :
    (p : Aspect → Bool) {xs ys : List Aspect} → Permᴰ xs ys → Permᴰ (filter p xs) (filter p ys)
filter-Permᴰ p nil = nil
filter-Permᴰ p (cons {a} {b} e q) = elim (Bool-cases (p a)) [
  | inl t ↦ rw (t, sym (ap p e) ∙ t) (cons e (filter-Permᴰ p q))
  | inr f ↦ rw (f, sym (ap p e) ∙ f) (filter-Permᴰ p q)
]
filter-Permᴰ p (swap {a} {b} {a'} {b'} {l} e e') = filter_swapped p l e e'
filter-Permᴰ p (trans q r) = trans (filter-Permᴰ p q) (filter-Permᴰ p r)

-- The aspects of a kind, each as often as it is configured, from the smallest order to the largest.
abbrev pub IsSelection : AspectKind → Config → List Aspect → Type 0
IsSelection kind c selected =
    Permᴰ selected (filter (λ a. a.implements kind) c.aspects) × IsAscending selected

sort-IsSelection :
    (sort : (Aspect → Aspect → Bool) → List Aspect → List Aspect) (c : Config) (kind : AspectKind)
    → Sorts sort
    → IsSelection kind c (filter (λ a. a.implements kind) (sort less c.aspects))
sort-IsSelection sort c kind h = (
  filter-Permᴰ (λ a. a.implements kind) (h c.aspects).0,
  IsOrdered-IsAscending (filter (λ a. a.implements kind) (sort less c.aspects))
      (filter-IsOrdered (λ a. a.implements kind) (sort less c.aspects) (h c.aspects).1),
)

-- With a sort as Go documents it, each of the nine lists of aspects that the three getters return
-- holds exactly the configured aspects of its kind, each as often as it is configured, from the
-- smallest order to the largest; and a getter leaves the configuration with the same aspects, in
-- another order at most.
pub getters-AreSelected :
    (sort : (Aspect → Aspect → Bool) → List Aspect → List Aspect) (c : Config)
    → Sorts sort
    → let (c1, n1, n2, n3) = get_node_aspects sort c in
      let (c2, l1, l2, l3) = get_chain_aspects sort c in
      let (c3, e1, e2, e3) = get_engine_aspects sort c in
      (IsSelection around c n1 × IsSelection before c n2 × IsSelection after c n3)
      × (IsSelection start c l1 × IsSelection end c l2 × IsSelection completed c l3)
      × (IsSelection on_created c e1 × IsSelection on_reload c e2 × IsSelection on_destroy c e3)
      × (Permᴰ c1.aspects c.aspects × Permᴰ c2.aspects c.aspects × Permᴰ c3.aspects c.aspects)
unfolding get_node_aspects get_chain_aspects get_engine_aspects
getters-AreSelected sort c h =
    let found = λ (kind : AspectKind). sort-IsSelection sort c kind h in
    let same = (h c.aspects).0 in
    (
      (found around, found before, found after),
      (found start, found end, found completed),
      (found on_created, found on_reload, found on_destroy),
      (same, same, same),
    )
