-- ===== src/Endpoint/Schedule/Tests.antt =====
-- Examples of the endpoint for timed tasks, over entries that are numbered in turn, and numbers that
-- are written in strokes.
use rulego.Prelude.{
  ℕ, zero, suc, String, ◌≡◌, refl, sym, ap, ◌∙◌, false, Option, none, some, [], arith, ltb,
  if◌then◌else◌, ◌==◌, string_eq, nat_key,
}
use Prim.Native.String.{[] as end_of_text, ◌∷◌ as ◌then◌}
use mathlib.Core.Path.{subst}
use rulego.Result.{Result, ok, err, ok-injective}
use rulego.Endpoint.{From}
use rulego.Endpoint.Schedule.{
  ScheduleRouter, CronOps, Numbers, RequestMessage, ResponseMessage, add_router, remove_router,
}
use rulego.Endpoint.Schedule.Laws.{CronLaws, NumberLaws, add_router-remove_router}

abbrev strokes : ℕ → String
strokes zero = ""
strokes (suc n) = "|" then strokes n

abbrev count_strokes : String → Result ℕ
count_strokes end_of_text = ok 0
count_strokes (c then s) = elim (count_strokes s) [ ok n ↦ ok (suc n) | err e ↦ err e ]

abbrev numbers : Numbers
numbers = record { atoi = count_strokes; itoa = strokes }

count_strokes-strokes : (n : ℕ) → count_strokes (strokes n) ≡ ok n
count_strokes-strokes zero = refl
count_strokes-strokes (suc n) = rw (count_strokes-strokes n) refl

number_laws : NumberLaws numbers
number_laws = record { round_trip = count_strokes-strokes }

-- The number of the next entry, and the entries.
abbrev Cron : Type 0
Cron = ℕ × (ℕ → Option (ScheduleRouter ℕ))

abbrev cron : CronOps Cron (ScheduleRouter ℕ)
cron = record {
  new = (0, λ i. none);
  add_func = λ c spec r. ((suc c.0, λ i. if c.0 == i then some r else c.1 i), ok c.0);
  remove = λ c id. (c.0, λ i. if id == i then none else c.1 i);
  entry = λ c i. if ltb i c.0 then c.1 i else none;
}

entry_added :
    (c c' : Cron) (spec : String) (r : ScheduleRouter ℕ) (id : ℕ)
    → cron.add_func c spec r ≡ (c', ok id)
    → (cron.entry c id ≡ none)
      × ((i : ℕ) → cron.entry c' i ≡ (if id == i then some r else cron.entry c i))
entry_added c c' spec r id e =
    let same : c.0 ≡ id = ok-injective (ap (λ p. p.1) e) in
    (
      subst (λ n. cron.entry c n ≡ none) same (ground arith),
      λ i.
          ap (λ d. cron.entry d i) (sym (ap (λ p. p.0) e))
          ∙ subst
              (λ n.
                cron.entry (suc c.0, λ j. if c.0 == j then some r else c.1 j) i
                ≡ (if n == i then some r else cron.entry c i))
              same (ground arith),
    )

cron_laws : CronLaws cron
cron_laws = record { add_entry = entry_added; remove_entry = λ c id i. ground arith }

abbrev from : From RequestMessage ResponseMessage ℕ
from = record { config = []; from = "*/1 * * * * *"; process_list = []; to = none }

abbrev router : ScheduleRouter ℕ
router = record { from = some from; rule_go = λ id. none; disable = false }

abbrev with_entry : Cron
with_entry = (1, λ i. if 0 == i then some router else none)

add_router-remove_router_example :
    let (with_router, route_id, error) = add_router cron numbers none (some router) in
    (error ≡ none)
    × (with_router ≡ some with_entry)
    × ((i : ℕ) → cron.entry with_entry i ≡ (if 0 == i then some router else cron.entry cron.new i))
    × (remove_router cron numbers with_router route_id ≡ (some (cron.remove with_entry 0), none))
    × ((i : ℕ) → cron.entry (cron.remove with_entry 0) i ≡ cron.entry cron.new i)
add_router-remove_router_example =
    add_router-remove_router cron numbers cron_laws number_laws none with_entry router from 0 refl
      refl
