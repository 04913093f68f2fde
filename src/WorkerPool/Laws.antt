-- ===== src/WorkerPool/Laws.antt =====
-- How many workers there are, over every sequence of submissions, ends of functions, cleanings and
-- stops.
use rulego.Prelude.{
  ℕ, zero, suc, ◌+◌, ◌≤◌, ◌≡◌, refl, ◌⊎◌, inl, inr, Option, none, some, List, [], ◌∷◌, arith, ltb,
  Bool-cases, length, take, drop, length-append,
}
use rulego.WorkerPool.{
  WorkerChan, WorkerPool, function, stop, pop_last, submit, worker_round, stop_pool, clean, search,
}

-- A pool with the workers that run a function and those that were sent nil.
pub record System : Type 0 where
  pub pool : WorkerPool
  pub busy : ℕ
  pub stopping : ℕ

-- What happens next. An end of a function, or of a worker, where there is none changes nothing.
pub data Event : Type 0 where
  submitted : Event
  finished : (now worker : ℕ) → Event
  cleaned : (critical_time : ℕ) → Event
  stopped : Event
  left : (worker : ℕ) → Event

abbrev start_busy : ℕ → ℕ → WorkerPool × Option ℕ → System
start_busy busy stopping (wp, none) = record { pool = wp; busy = busy; stopping = stopping }
start_busy busy stopping (wp, some w) = record { pool = wp; busy = busy + 1; stopping = stopping }

abbrev send_stop : ℕ → ℕ → WorkerPool × List WorkerChan → System
send_stop busy stopping (wp, gone) = record {
  pool = wp;
  busy = busy;
  stopping = stopping + length gone;
}

abbrev end_function : WorkerPool → ℕ → ℕ → ℕ → ℕ → System
unfolding worker_round
end_function wp zero stopping now w = record { pool = wp; busy = zero; stopping = stopping }
end_function wp (suc busy) stopping now w = record {
  pool = worker_round now wp w (function 0);
  busy = busy;
  stopping = stopping;
}

abbrev end_worker : WorkerPool → ℕ → ℕ → ℕ → System
unfolding worker_round
end_worker wp busy zero w = record { pool = wp; busy = busy; stopping = zero }
end_worker wp busy (suc stopping) w = record {
  pool = worker_round 0 wp w stop;
  busy = busy;
  stopping = stopping;
}

unfoldable pub happen : System → Event → System
unfolding worker_round submit clean stop_pool
happen s submitted = start_busy s.busy s.stopping (submit s.pool)
happen s (finished now w) = end_function s.pool s.busy s.stopping now w
happen s (cleaned critical_time) = send_stop s.busy s.stopping (clean critical_time s.pool)
happen s stopped = send_stop s.busy s.stopping (stop_pool s.pool)
happen s (left w) = end_worker s.pool s.busy s.stopping w

unfoldable pub happen_all : System → List Event → System
unfolding happen
happen_all s [] = s
happen_all s (e ∷ es) = happen_all (happen s e) es

-- The counter is the number of workers that are ready, busy or told to stop, and within the limit.
pub record IsAccounted (s : System) : Type 0 where
  pub counted : s.pool.workers_count ≡ length s.pool.ready + s.busy + s.stopping
  pub within : s.pool.workers_count ≤ s.pool.max_workers_count

length-pop_last :
    (ready : List WorkerChan)
    → ((pop_last ready ≡ none) × (length ready ≡ 0))
      ⊎ ((rest : List WorkerChan) × (w : WorkerChan) × (pop_last ready ≡ some (rest, w))
          × (length ready ≡ suc (length rest)))
unfolding pop_last
length-pop_last [] = inl (refl, refl)
length-pop_last (x ∷ xs) = elim (length-pop_last xs) [
  | inl (none_left, empty) ↦ inr ([], x, rw (none_left, pop_last) refl, omega arith)
  | inr (rest, w, popped, count) ↦ inr (x ∷ rest, w, rw (popped, pop_last) refl, omega arith)
]

submit-IsAccounted :
    (s : System) → IsAccounted s → IsAccounted (start_busy s.busy s.stopping (submit s.pool))
unfolding submit
submit-IsAccounted s h = elim (length-pop_last s.pool.ready) [
  | inl (empty, no_ready) ↦ elim (Bool-cases (ltb s.pool.workers_count s.pool.max_workers_count)) [
    | inl room ↦
        rw (empty, room, submit)
          (record { counted = omega (arith, h.counted); within = ground (arith, room) })
    | inr full ↦ rw (empty, full, submit) h
  ]
  | inr (rest, w, popped, count) ↦
      rw (popped, submit) (record { counted = omega (arith, h.counted); within = h.within })
]

split_length : (c : ℕ) (ws : List WorkerChan) → length (take c ws) + length (drop c ws) ≡ length ws
split_length zero ws = omega arith
split_length (suc c) [] = refl
split_length (suc c) (w ∷ ws) = omega (arith, split_length c ws)

clean-IsAccounted :
    (critical_time : ℕ) (s : System)
    → IsAccounted s
    → IsAccounted (send_stop s.busy s.stopping (clean critical_time s.pool))
unfolding clean
clean-IsAccounted critical_time s h = record {
  counted = omega (
    arith,
    h.counted,
    split_length
        (search (length s.pool.ready + 1) critical_time s.pool.ready 0 (length s.pool.ready))
        s.pool.ready,
  );
  within = h.within;
}

function-IsAccounted :
    (wp : WorkerPool) (busy stopping now w : ℕ)
    → IsAccounted (record { pool = wp; busy = busy; stopping = stopping })
    → IsAccounted (end_function wp busy stopping now w)
unfolding worker_round
function-IsAccounted wp zero stopping now w h = h
function-IsAccounted wp (suc busy) stopping now w h = elim (Bool-cases wp.must_stop) [
  | inl stops ↦
      rw (stops, worker_round)
        (record { counted = omega (arith, h.counted); within = omega (arith, h.within) })
  | inr goes_on ↦
      rw (goes_on, worker_round)
        (record {
          counted = omega (
            arith,
            h.counted,
            length-append wp.ready (record { last_use_time = now; ch = w } ∷ []),
          );
          within = h.within;
        })
]

worker-IsAccounted :
    (wp : WorkerPool) (busy stopping w : ℕ)
    → IsAccounted (record { pool = wp; busy = busy; stopping = stopping })
    → IsAccounted (end_worker wp busy stopping w)
unfolding worker_round
worker-IsAccounted wp busy zero w h = h
worker-IsAccounted wp busy (suc stopping) w h = record {
  counted = omega (arith, h.counted);
  within = omega (arith, h.within);
}

happen-IsAccounted : (s : System) (e : Event) → IsAccounted s → IsAccounted (happen s e)
unfolding happen
happen-IsAccounted s submitted h = submit-IsAccounted s h
happen-IsAccounted s (finished now w) h = function-IsAccounted s.pool s.busy s.stopping now w h
happen-IsAccounted s (cleaned critical_time) h = clean-IsAccounted critical_time s h
happen-IsAccounted s stopped h = record { counted = omega (arith, h.counted); within = h.within }
happen-IsAccounted s (left w) h = worker-IsAccounted s.pool s.busy s.stopping w h

-- Whatever happens to a pool whose counter is right, in whatever order, its counter stays the number
-- of the workers that are ready, busy or told to stop, and there are never more than the limit.
pub happen_all-IsAccounted :
    (s : System) (es : List Event) → IsAccounted s → IsAccounted (happen_all s es)
unfolding happen_all
happen_all-IsAccounted s [] h = h
happen_all-IsAccounted s (e ∷ es) h =
    happen_all-IsAccounted (happen s e) es (happen-IsAccounted s e h)
