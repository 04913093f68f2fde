-- ===== src/Config/Tests.antt =====
-- Examples of configurations.
use rulego.Prelude.{
  ◌≡◌, refl, inl, inr, Bool, true, false, some, List, [], ◌∷◌, arith, if◌then◌else◌, string_eq,
  nat_key, Bool-cases, All,
}
use rulego.Prelude.Dict.{put}
use mathlib.Core.List.{Permᴰ}
use mathlib.Core.List.Permᴰ.{nil, cons, swap, trans, refl as perm_refl}
use rulego.Dsl.{ℤ, pos, negsuc}
use rulego.Config.{
  Aspect, AspectKind, around, before, after, start, end, completed, on_created, on_reload,
  on_destroy, Config, int_lt, less, new_config, with_aspects, with_parser, engine_new_config,
  register_udf, script, get_node_aspects, get_chain_aspects, get_engine_aspects,
}
use rulego.Config.Laws.{IsOrdered, Sorts, IsSelection, getters-AreSelected}

abbrev insert_aspect : (Aspect → Aspect → Bool) → Aspect → List Aspect → List Aspect
insert_aspect lt a [] = a ∷ []
insert_aspect lt a (b ∷ bs) =
    let rest = insert_aspect lt a bs in if lt b a then b ∷ rest else a ∷ b ∷ bs

abbrev insertion_sort : (Aspect → Aspect → Bool) → List Aspect → List Aspect
insertion_sort lt [] = []
insertion_sort lt (a ∷ as') = insert_aspect lt a (insertion_sort lt as')

insert-Permᴰ : (a : Aspect) (as' : List Aspect) → Permᴰ (insert_aspect less a as') (a ∷ as')
insert-Permᴰ a [] = perm_refl (a ∷ [])
insert-Permᴰ a (b ∷ bs) = elim (Bool-cases (less b a)) [
  | inl e ↦ rw e (trans (cons refl (insert-Permᴰ a bs)) (swap refl refl))
  | inr e ↦ rw e (perm_refl (a ∷ b ∷ bs))
]

int_lt_trans : (x y z : ℤ) → int_lt y x ≡ false → int_lt z y ≡ false → int_lt z x ≡ false
int_lt_trans (pos a) (pos b) (pos c) h k = ground arith
int_lt_trans (pos a) (pos b) (negsuc c) h k = ground arith
int_lt_trans (pos a) (negsuc b) z h k = ground arith
int_lt_trans (negsuc a) (pos b) (pos c) h k = ground arith
int_lt_trans (negsuc a) (pos b) (negsuc c) h k = ground arith
int_lt_trans (negsuc a) (negsuc b) (pos c) h k = ground arith
int_lt_trans (negsuc a) (negsuc b) (negsuc c) h k = ground arith

int_lt_asym : (x y : ℤ) → int_lt y x ≡ true → int_lt x y ≡ false
int_lt_asym (pos a) (pos b) h = ground arith
int_lt_asym (pos a) (negsuc b) h = ground arith
int_lt_asym (negsuc a) (pos b) h = ground arith
int_lt_asym (negsuc a) (negsuc b) h = ground arith

less_trans : (a b c : Aspect) → less b a ≡ false → less c b ≡ false → less c a ≡ false
less_trans a b c = int_lt_trans a.order b.order c.order

insert-All :
    (c a : Aspect) (as' : List Aspect)
    → less a c ≡ false
    → All (λ b. less b c ≡ false) as'
    → All (λ b. less b c ≡ false) (insert_aspect less a as')
insert-All c a [] h hs = (h, tt)
insert-All c a (b ∷ bs) h (k, ks) = elim (Bool-cases (less b a)) [
  | inl e ↦ rw e (k, insert-All c a bs h ks)
  | inr e ↦ rw e (h, (k, ks))
]

less_asym : (a b : Aspect) → less b a ≡ true → less a b ≡ false
less_asym a b = int_lt_asym a.order b.order

weaken :
    (a b : Aspect) (bs : List Aspect)
    → less b a ≡ false
    → All (λ c. less c b ≡ false) bs
    → All (λ c. less c a ≡ false) bs
weaken a b [] h hs = tt
weaken a b (c ∷ cs) h (k, ks) = (less_trans a b c h k, weaken a b cs h ks)

insert-IsOrdered :
    (a : Aspect) (as' : List Aspect) → IsOrdered as' → IsOrdered (insert_aspect less a as')
insert-IsOrdered a [] h = (tt, tt)
insert-IsOrdered a (b ∷ bs) (h, hs) = elim (Bool-cases (less b a)) [
  | inl e ↦ rw e (insert-All b a bs (less_asym a b e) h, insert-IsOrdered a bs hs)
  | inr e ↦ rw e ((e, weaken a b bs e h), (h, hs))
]

insertion_sort-Sorts : Sorts insertion_sort
insertion_sort-Sorts [] = (nil, tt)
insertion_sort-Sorts (a ∷ as') =
    let (same, ordered) = insertion_sort-Sorts as' in
    (
      trans (insert-Permᴰ a (insertion_sort less as')) (cons refl same),
      insert-IsOrdered a (insertion_sort less as') ordered,
    )

abbrev only : AspectKind → AspectKind → Bool
only around around = true
only start start = true
only on_created on_created = true
only _ _ = false

abbrev late : Aspect
late = record { name = "late"; order = pos 900; implements = only around }

abbrev early : Aspect
early = record { name = "early"; order = negsuc 4; implements = only around }

abbrev config : Config
config = new_config 1 (with_aspects (late ∷ early ∷ []) ∷ with_parser 5 ∷ [])

ordered : (get_node_aspects insertion_sort config).1 ≡ early ∷ late ∷ []
unfolding get_node_aspects new_config with_aspects with_parser
ordered = refl

parser_kept : (engine_new_config 1 2 3 (with_parser 5 ∷ [])).parser ≡ some 5
unfolding engine_new_config new_config with_parser
parser_kept = refl

registered : (register_udf config "f" (script "Js" "x")).udf ≡ ("Js#f", script "Js" "x") ∷ []
unfolding register_udf new_config with_aspects with_parser put
registered = refl

getters-AreSelected_example :
    let (c1, n1, n2, n3) = get_node_aspects insertion_sort config in
    let (c2, l1, l2, l3) = get_chain_aspects insertion_sort config in
    let (c3, e1, e2, e3) = get_engine_aspects insertion_sort config in
    (IsSelection around config n1 × IsSelection before config n2 × IsSelection after config n3)
    × (IsSelection start config l1 × IsSelection end config l2 × IsSelection completed config l3)
    × (IsSelection on_created config e1
        × IsSelection on_reload config e2
        × IsSelection on_destroy config e3)
    × (Permᴰ c1.aspects config.aspects
        × Permᴰ c2.aspects config.aspects
        × Permᴰ c3.aspects config.aspects)
getters-AreSelected_example = getters-AreSelected insertion_sort config insertion_sort-Sorts
