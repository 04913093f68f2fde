-- ===== src/Endpoint/Schedule/Laws.antt =====
-- The routers of the endpoint for timed tasks (endpoint/schedule/schedule.go).
use rulego.Prelude.{
  ℕ, String, ◌≡◌, refl, sym, ap, ◌∙◌, inl, inr, Option, none, some, nat_eq_iff, if◌then◌else◌, ◌==◌,
  string_eq, nat_key, Bool-cases,
}
use rulego.Result.{ok}
use rulego.Endpoint.{From}
use rulego.Endpoint.Schedule.{
  ScheduleRouter, CronOps, Numbers, cron_of, add_from, remove_parsed, add_router, remove_router,
  added,
}

-- What the package `cron` documents of its entries: one that was added is there under a new
-- identifier, one that was removed is gone, and the others stay.
pub record CronLaws {Cron R : Type 0} (ops : CronOps Cron R) : Type 0 where
  pub add_entry :
      (c c' : Cron) (spec : String) (r : R) (id : ℕ)
      → ops.add_func c spec r ≡ (c', ok id)
      → (ops.entry c id ≡ none)
        × ((i : ℕ) → ops.entry c' i ≡ (if id == i then some r else ops.entry c i))
  pub remove_entry :
      (c : Cron) (id i : ℕ)
      → ops.entry (ops.remove c id) i ≡ (if id == i then none else ops.entry c i)

-- `strconv.Atoi` reads what `strconv.Itoa` writes.
pub record NumberLaws (numbers : Numbers) : Type 0 where
  pub round_trip : (n : ℕ) → numbers.atoi (numbers.itoa n) ≡ ok n

back :
    {R : Type 0} (id i : ℕ) (entry : ℕ → Option R) (r : R)
    → entry id ≡ none
    → (if id == i then none else if id == i then some r else entry i) ≡ entry i
back id i entry r fresh = elim (Bool-cases (id == i)) [
  | inl same ↦ rw same (sym fresh ∙ ap entry ((nat_eq_iff id i).0 same))
  | inr other ↦ rw other refl
]

module _ {Node Cron : Type 0} (cron : CronOps Cron (ScheduleRouter Node)) (numbers : Numbers)
    (laws : CronLaws cron) (reads : NumberLaws numbers) where
  add_router-accepted :
      (c : Option Cron) (c' : Cron) (router : ScheduleRouter Node) (f : From _ _ Node) (id : ℕ)
      → router.from ≡ some f
      → cron.add_func (cron_of cron numbers c) f.from router ≡ (c', ok id)
      → add_router cron numbers c (some router) ≡ (some c', numbers.itoa id, none)
  unfolding add_router
  add_router-accepted c c' router f id has_from accepted =
      ap (add_from cron numbers c router) has_from ∙ ap (added cron numbers) accepted

  remove_router-itoa :
      (c : Cron) (id : ℕ)
      → remove_router cron numbers (some c) (numbers.itoa id) ≡ (some (cron.remove c id), none)
  unfolding remove_router
  remove_router-itoa c id =
      ap (remove_parsed cron numbers (some c) (numbers.itoa id)) (reads.round_trip id)

  -- A router whose schedule the package `cron` accepts: `AddRouter` gives no error, and a text by
  -- which `RemoveRouter` finds the entry again. Between the two calls the entry calls this router and
  -- the others are as before; after both, every entry is as it was at first.
  pub add_router-remove_router :
      (c : Option Cron) (c' : Cron) (router : ScheduleRouter Node) (f : From _ _ Node) (id : ℕ)
      → router.from ≡ some f
      → cron.add_func (cron_of cron numbers c) f.from router ≡ (c', ok id)
      → let (with_router, route_id, error) = add_router cron numbers c (some router) in
        (error ≡ none)
        × (with_router ≡ some c')
        × ((i : ℕ)
            → cron.entry c' i
              ≡ (if id == i then some router else cron.entry (cron_of cron numbers c) i))
        × (remove_router cron numbers with_router route_id ≡ (some (cron.remove c' id), none))
        × ((i : ℕ) → cron.entry (cron.remove c' id) i ≡ cron.entry (cron_of cron numbers c) i)
  add_router-remove_router c c' router f id has_from accepted =
      let (fresh, entries) = laws.add_entry (cron_of cron numbers c) c' f.from router id accepted in
      rw (add_router-accepted c c' router f id has_from accepted) (
        refl,
        refl,
        entries,
        remove_router-itoa c' id,
        λ i.
            laws.remove_entry c' id i
            ∙ ap (λ o. if id == i then none else o) (entries i)
            ∙ back id i (cron.entry (cron_of cron numbers c)) router fresh,
      )
