-- ===== src/WorkerPool/Tests.antt =====
-- Examples of the pool of workers.
use rulego.Prelude.{ℕ, zero, suc, ◌≡◌, refl, false, some, List, [], ◌∷◌, arith, take, drop}
use rulego.WorkerPool.{WorkerChan, WorkerPool, clean, submit}
use rulego.WorkerPool.Laws.{
  System, Event, submitted, finished, cleaned, left, happen_all, IsAccounted,
  happen_all-IsAccounted,
}
use rulego.WorkerPool.Clean.{IsSorted, IsSplit, clean-IsSplit}

abbrev worker : ℕ → ℕ → WorkerChan
worker t w = record { last_use_time = t; ch = w }

abbrev pool : WorkerPool
pool = record {
  max_workers_count = 3;
  workers_count = 2;
  must_stop = false;
  ready = worker 100 0 ∷ worker 200 1 ∷ [];
  next = 2;
}

latest_first_test : (submit pool).1 ≡ some 1
unfolding submit
latest_first_test = refl

clean_test : (clean 150 pool).1 ≡ worker 100 0 ∷ []
unfolding clean
clean_test = refl

sorted : IsSorted pool.ready
sorted zero zero le lt = omega arith
sorted zero (suc zero) le lt = omega arith
sorted (suc zero) (suc zero) le lt = omega arith
sorted (suc i) zero le lt = absurd (omega arith)
sorted (suc (suc i)) (suc zero) le lt = absurd (omega arith)
sorted i (suc (suc j)) le lt = absurd (omega arith)

clean-IsSplit_example :
    (c : ℕ) × IsSplit 150 pool.ready c
    × ((clean 150 pool).1 ≡ take c pool.ready)
    × ((clean 150 pool).0.ready ≡ drop c pool.ready)
clean-IsSplit_example = clean-IsSplit 150 pool sorted

abbrev system : System
system = record { pool = pool; busy = 0; stopping = 0 }

system-IsAccounted : IsAccounted system
system-IsAccounted = record { counted = refl; within = omega arith }

abbrev events : List Event
events = submitted ∷ submitted ∷ submitted ∷ submitted ∷ finished 300 1 ∷ cleaned 400 ∷ left 1 ∷ []

happen_all-IsAccounted_example : IsAccounted (happen_all system events)
happen_all-IsAccounted_example = happen_all-IsAccounted system events system-IsAccounted
