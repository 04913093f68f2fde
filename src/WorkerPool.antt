-- ===== src/WorkerPool.antt =====
-- pool/workerpool.go: the pool of workers. A worker is a number; the functions that are submitted are
-- numbers too. A section under the lock is one step, and so is what a worker does between two
-- sections. Times are natural numbers.
pub mod Laws
pub mod Clean
mod Tests
use rulego.Prelude.{
  ℕ, zero, suc, ◌+◌, ◌-◌, ◌/◌, Bool, true, false, Option, none, some, List, [], ◌∷◌, ◌++◌, ltb,
  if◌then◌else◌, length, get_elem?, take, drop,
}

pub record WorkerChan : Type 0 where
  pub last_use_time : ℕ
  pub ch : ℕ  -- the worker that reads this channel

pub record WorkerPool : Type 0 where
  pub max_workers_count : ℕ
  pub workers_count : ℕ
  pub must_stop : Bool
  pub ready : List WorkerChan  -- the worker that was released last stands last
  pub next : ℕ  -- the name of the next worker that is made

-- What a worker receives: a function, or the nil that stops it.
pub data Received : Type 0 where
  function : ℕ → Received
  stop : Received

-- The last worker of the list, and the list without it.
unfoldable pub pop_last : List WorkerChan → Option (List WorkerChan × WorkerChan)
pop_last [] = none
pop_last (w ∷ ws) = elim (pop_last ws) [
  | none ↦ some ([], w)
  | some (rest, last) ↦ some (w ∷ rest, last)
]

abbrev pub take_worker : WorkerPool → Option (List WorkerChan × WorkerChan) → WorkerPool × Option ℕ
take_worker wp (some (rest, last)) = (record wp { ready = rest }, some last.ch)
take_worker wp none =
    if ltb wp.workers_count wp.max_workers_count
    then (record wp { workers_count = wp.workers_count + 1; next = wp.next + 1 }, some wp.next)
    else (wp, none)

-- `getCh`: a ready worker, or a new one as long as there are less than the limit.
unfoldable pub get_ch : WorkerPool → WorkerPool × Option ℕ
unfolding pop_last
get_ch wp = take_worker wp (pop_last wp.ready)

-- `Submit`: the pool, with the worker that gets the function, or with the error.
unfoldable pub submit : WorkerPool → WorkerPool × Option ℕ
unfolding get_ch
submit wp = get_ch wp

unfoldable pub release : ℕ → WorkerPool → ℕ → WorkerPool × Bool
release now wp w =
    if wp.must_stop
    then (wp, false)
    else (record wp { ready = wp.ready ++ record { last_use_time = now; ch = w } ∷ [] }, true)

abbrev pub leave : WorkerPool → WorkerPool
leave wp = record wp { workers_count = wp.workers_count - 1 }

abbrev pub after_release : WorkerPool × Bool → WorkerPool
after_release (wp, true) = wp
after_release (wp, false) = leave wp

-- One round of the loop of `workerFunc`, once the function has returned: nil ends the loop, and so
-- does a refused release; the worker is then counted out.
unfoldable pub worker_round : ℕ → WorkerPool → ℕ → Received → WorkerPool
unfolding release
worker_round now wp w stop = leave wp
worker_round now wp w (function f) = after_release (release now wp w)

-- `Stop` of a pool that was started, with the workers that are sent nil.
unfoldable pub stop_pool : WorkerPool → WorkerPool × List WorkerChan
stop_pool wp = (record wp { ready = []; must_stop = true }, wp.ready)

-- The time of a worker; the search does not leave the list.
abbrev pub time_at : List WorkerChan → ℕ → ℕ
time_at ready i = elim (get_elem? ready i) [ none ↦ 0 | some w ↦ w.last_use_time ]

-- The binary search of `clean`, with `r + 1` for `r`: how many workers it finds to be too old.
unfoldable pub search : ℕ → (critical_time : ℕ) → List WorkerChan → ℕ → ℕ → ℕ
search zero critical_time ready l r = r
search (suc fuel) critical_time ready l r =
    let mid = (l + r - 1) / 2 in
    let right = search fuel critical_time ready (mid + 1) r in
    let left = search fuel critical_time ready l mid in
    if ltb l r then (if ltb (time_at ready mid) critical_time then right else left) else r

-- `clean`, with the workers that are sent nil.
unfoldable pub clean : ℕ → WorkerPool → WorkerPool × List WorkerChan
unfolding search
clean critical_time wp =
    let n = length wp.ready in
    let count = search (n + 1) critical_time wp.ready 0 n in
    (record wp { ready = drop count wp.ready }, take count wp.ready)
