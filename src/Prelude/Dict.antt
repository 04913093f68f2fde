-- ===== src/Prelude/Dict.antt =====
-- A Go map (and a `sync.Map`) as an association list: a key stands in it at most once as long as
-- the map is made by `put` and `remove`. A loop over the map goes through the list from its head.
use Prim.Native.Nat.{suc, ◌≤◌}
use mathlib.Core.Path.{◌≡◌, refl, sym, ap, ◌∙◌}
use mathlib.Core.Logic.{inl, inr}
use mathlib.Core.Bool.{Bool, true, false, false≢true}
use mathlib.Core.List.{List, [], ◌∷◌}
use mathlib.Core.Option.{Option, none, some}
use native.Mathlib.Omega.{arith}
use rulego.Prelude.Tests.{Eq, ◌==◌, if◌then◌else◌, is_some, Bool-cases, Option-cases}
use rulego.Prelude.Lists.{length}

abbrev pub Map {ℓ κ} : Type ℓ → Type κ → Type (ℓ ⊔ κ)
Map K V = List (K × V)

pub eq_self {ℓ} : {K : Type ℓ} ⦃e : Eq K⦄ (k : K) → (k == k) ≡ true
eq_self ⦃e⦄ k = (e.beq_iff k k).1 refl

module _ {ℓ κ} {K : Type ℓ} {V : Type κ} ⦃e : Eq K⦄ where
  -- m[k], with the second result of `v, ok := m[k]`
  unfoldable pub get : K → Map K V → Option V
  get k [] = none
  get k ((j, v) ∷ m) = if j == k then some v else get k m

  -- m[k] = v
  unfoldable pub put : K → V → Map K V → Map K V
  put k v [] = (k, v) ∷ []
  put k v ((j, w) ∷ m) = if j == k then (j, v) ∷ m else (j, w) ∷ put k v m

  -- delete(m, k)
  unfoldable pub remove : K → Map K V → Map K V
  remove k [] = []
  remove k ((j, w) ∷ m) = let rest = remove k m in if j == k then rest else (j, w) ∷ rest

  abbrev pub has : K → Map K V → Bool
  has k m = is_some (get k m)

  pub get-put :
      (k j : K) (v : V) (m : Map K V) → get j (put k v m) ≡ (if k == j then some v else get j m)
  unfolding get put
  get-put k j v [] = refl
  get-put k j v ((i, w) ∷ m) =
      ground (arith, e.beq_iff k j, e.beq_iff i k, e.beq_iff i j, get-put k j v m)

  pub get-remove : (k j : K) (m : Map K V) → get j (remove k m) ≡ (if k == j then none else get j m)
  unfolding get remove
  get-remove k j [] = ground arith
  get-remove k j ((i, w) ∷ m) =
      ground (arith, e.beq_iff k j, e.beq_iff i k, e.beq_iff i j, get-remove k j m)

  pub get-put_self : (k : K) (v : V) (m : Map K V) → get k (put k v m) ≡ some v
  get-put_self k v m = simp (get-put, eq_self)

  pub get-remove_self : (k : K) (m : Map K V) → get k (remove k m) ≡ none
  get-remove_self k m = simp (get-remove, eq_self)

  -- len(m) after a write: one more if the key is new.
  pub length-put :
      (k : K) (v : V) (m : Map K V)
      → length (put k v m) ≡ (if has k m then length m else suc (length m))
  unfolding get put
  length-put k v [] = refl
  length-put k v ((i, w) ∷ m) = ground (arith, length-put k v m)

  pub length-remove_le : (k : K) (m : Map K V) → length (remove k m) ≤ length m
  unfolding remove
  length-remove_le k [] = omega arith
  length-remove_le k ((i, w) ∷ m) = ground (arith, length-remove_le k m)

module _ {ℓ κ} {K : Type ℓ} {V : Type κ} ⦃e : Eq K⦄ where
  -- No key twice: what a Go map is.
  abbrev pub IsMap : Map K V → Type κ
  IsMap [] = Unit
  IsMap ((k, v) ∷ m) = (get k m ≡ none) × IsMap m

  -- for k, v := range m { acc[k] = v }
  unfoldable pub put_all : Map K V → Map K V → Map K V
  put_all acc [] = acc
  put_all acc ((k, v) ∷ m) = put_all (put k v acc) m

  -- A key that was not there is gone again.
  pub get-remove-put :
      (k j : K) (v : V) (m : Map K V) → has k m ≡ false → get j (remove k (put k v m)) ≡ get j m
  get-remove-put k j v m h = elim (Option-cases (get k m)) [
    | inl free ↦ elim (Bool-cases (k == j)) [
      | inl same ↦
          get-remove k j (put k v m)
          ∙ rw same refl
          ∙ sym (ap (λ i. get i m) (sym ((e.beq_iff k j).0 same)) ∙ free)
      | inr other ↦ get-remove k j (put k v m) ∙ rw other (get-put k j v m ∙ rw other refl)
    ]
    | inr (w, found) ↦ elim (false≢true (sym h ∙ ap is_some found)) [ ]
  ]

  pub put-IsMap : (k : K) (v : V) (m : Map K V) → IsMap m → IsMap (put k v m)
  unfolding put get
  put-IsMap k v [] h = (refl, tt)
  put-IsMap k v ((i, w) ∷ m) h = elim (Bool-cases (i == k)) [
    | inl same ↦ rw same h
    | inr other ↦
        rw other
          (rw (get-put k i v m) (ground (arith, e.beq_iff k i, e.beq_iff i k)), put-IsMap k v m h.1)
  ]

  pub remove-IsMap : (k : K) (m : Map K V) → IsMap m → IsMap (remove k m)
  unfolding remove get
  remove-IsMap k [] h = tt
  remove-IsMap k ((i, w) ∷ m) h = elim (Bool-cases (i == k)) [
    | inl same ↦ rw same (remove-IsMap k m h.1)
    | inr other ↦ rw other (ground (arith, get-remove k i m), remove-IsMap k m h.1)
  ]

  -- The keys of the second map win; the others keep what they had.
  pub get-put_all :
      (j : K) (acc m : Map K V)
      → IsMap m
      → get j (put_all acc m) ≡ (if has j m then get j m else get j acc)
  unfolding put_all get
  get-put_all j acc [] h = refl
  get-put_all j acc ((k, v) ∷ m) h =
      ground (arith, get-put_all j (put k v acc) m h.1, get-put k j v acc, e.beq_iff k j)

  pub put_all-IsMap : (acc m : Map K V) → IsMap acc → IsMap (put_all acc m)
  unfolding put_all
  put_all-IsMap acc [] h = h
  put_all-IsMap acc ((k, v) ∷ m) h = put_all-IsMap (put k v acc) m (put-IsMap k v acc h)
