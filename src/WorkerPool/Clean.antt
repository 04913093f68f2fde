-- ===== src/WorkerPool/Clean.antt =====
-- The binary search of `clean` finds the workers that have been idle for too long.
use rulego.Prelude.{
  ℕ, zero, suc, ◌+◌, ◌-◌, ◌/◌, ◌≤◌, ◌<◌, ◌≡◌, refl, inl, inr, true, false, List, arith, ltb,
  Bool-cases, length, take, drop,
}
use rulego.WorkerPool.{WorkerChan, WorkerPool, time_at, search, clean}

-- The workers stand in the order of their release.
abbrev pub IsSorted : List WorkerChan → Type 0
IsSorted ready = (i j : ℕ) → i ≤ j → j < length ready → time_at ready i ≤ time_at ready j

-- The first `c` workers are older than the critical time, and the others are not.
abbrev pub IsSplit : ℕ → List WorkerChan → ℕ → Type 0
IsSplit critical_time ready c =
    (c ≤ length ready)
    × ((i : ℕ) → i < c → time_at ready i < critical_time)
    × ((i : ℕ) → c ≤ i → i < length ready → critical_time ≤ time_at ready i)

ltb_lt : (a b : ℕ) → ltb a b ≡ true → a < b
ltb_lt a b h = ground arith

ltb_ge : (a b : ℕ) → ltb a b ≡ false → b ≤ a
ltb_ge a b h = ground arith

middle : (l r : ℕ) → ltb l r ≡ true → (l ≤ (l + r - 1) / 2) × ((l + r - 1) / 2 < r)
middle l r h = let lt = ltb_lt l r h in (omega arith, omega arith)

search_splits :
    (fuel critical_time : ℕ) (ready : List WorkerChan) (l r : ℕ)
    → IsSorted ready
    → l ≤ r
    → r ≤ length ready
    → r < l + fuel
    → ((i : ℕ) → i < l → time_at ready i < critical_time)
    → ((i : ℕ) → r ≤ i → i < length ready → critical_time ≤ time_at ready i)
    → IsSplit critical_time ready (search fuel critical_time ready l r)
unfolding search
search_splits zero critical_time ready l r sorted le top enough old young = absurd (omega arith)
search_splits (suc fuel) critical_time ready l r sorted le top enough old young =
    elim (Bool-cases (ltb l r)) [
      | inr done ↦ rw (done, search) (top, (λ i lt. old i (ground arith)), young)
      | inl more ↦
          let mid = (l + r - 1) / 2 in
          let inside : (l ≤ mid) × (mid < r) = middle l r more in
          elim (Bool-cases (ltb (time_at ready mid) critical_time)) [
            | inl older ↦
                rw (more, older, search)
                  (search_splits fuel critical_time ready (mid + 1) r sorted (omega arith) top
                    (omega arith)
                    (λ i lt. omega (
                      arith,
                      sorted i mid (omega arith) (omega arith),
                      ltb_lt (time_at ready mid) critical_time older,
                    ))
                    young)
            | inr younger ↦
                rw (more, younger, search)
                  (search_splits fuel critical_time ready l mid sorted (omega arith) (omega arith)
                    (omega arith) old
                    (λ i ge lt. omega (
                      arith,
                      sorted mid i ge lt,
                      ltb_ge (time_at ready mid) critical_time younger,
                    )))
          ]
    ]

-- In a pool whose workers stand in the order of their release, `clean` stops the workers that were last
-- used before the critical time, and keeps the others, in their order.
pub clean-IsSplit :
    (critical_time : ℕ) (wp : WorkerPool)
    → IsSorted wp.ready
    → (c : ℕ) × IsSplit critical_time wp.ready c
      × ((clean critical_time wp).1 ≡ take c wp.ready)
      × ((clean critical_time wp).0.ready ≡ drop c wp.ready)
unfolding clean
clean-IsSplit critical_time wp sorted =
    let n = length wp.ready in
    (
      search (n + 1) critical_time wp.ready 0 n,
      search_splits (n + 1) critical_time wp.ready 0 n sorted (omega arith) (omega arith)
          (omega arith) (λ i lt. absurd (omega arith)) (λ i ge lt. absurd (omega arith)),
      refl,
      refl,
    )
