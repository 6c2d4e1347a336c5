-- ===== src/Tests/Schedules.antt =====
-- A window that opens every day at midnight for an hour, seen at half past midnight.
use tuppr.Prelude.{
  ℕ, ◌+◌, ◌*◌, ◌/◌, ◌%◌, ◌≤◌, ◌<◌, ◌≡◌, refl, ◌↔◌, true, false, some, none, Option, List, [], ◌∷◌,
  All, arith,
}
use tuppr.Api.Talos.{Time, WindowSpec}
use tuppr.Maintenance.{
  hour, week, requeue_cap, WindowResult, Calendar, Checked, last_fire_time, check_schedule,
  check_window, requeue_after,
}
use tuppr.Maintenance.LastFire.{IsNext, IsLastFire, last_fire_time-IsLastFire, last_fire_time_never}
use tuppr.Maintenance.Window.{
  IsOpen, ClosedUntil, IsStart, check_schedule_iff, check_window_closed, windows_of,
  requeue_after_bounds,
}

abbrev day : ℕ
day = 86400000000000

abbrev midnight : Time → Time
midnight t = (t / day + 1) * day

abbrev Fire : Time → Type 0
Fire f = (0 < f) × (f % day ≡ 0)

midnight-IsNext : IsNext Fire midnight
midnight-IsNext = record {
  fires = λ t. (omega arith, omega arith);
  later = λ t. omega arith;
  first = λ t f fire after. omega arith;
  positive = λ f fire. fire.0;
}

abbrev half_past : Time
half_past = 864001800000000000

abbrev noon : Time
noon = 864043200000000000

apart : (f : Time) → Fire f → f + day ≤ midnight f
apart f fire = omega arith

last_fire_time-IsLastFire_example :
    (t : Time) × (last_fire_time midnight 9 half_past ≡ some t) × IsLastFire Fire half_past t
last_fire_time-IsLastFire_example =
    last_fire_time-IsLastFire Fire midnight midnight-IsNext day 8 half_past apart (omega arith)

-- A cron expression that never matches a date.
abbrev never : Time → Time
never t = 0

never_zero : (t : Time) → never t ≡ 0
never_zero t = refl

last_fire_time_never_example : last_fire_time never 1000 noon ≡ none
last_fire_time_never_example = last_fire_time_never never never_zero 1000 noon

short : hour ≤ week
short = omega arith

check_schedule_iff_example :
    (r : WindowResult) × (check_schedule midnight 9 hour half_past ≡ some r)
    × ((r.allowed ≡ true) ↔ IsOpen Fire hour half_past)
    × (r.allowed ≡ false → r.next_window_start ≡ some (midnight half_past))
check_schedule_iff_example =
    check_schedule_iff Fire midnight midnight-IsNext day 8 hour half_past short apart (omega arith)

abbrev calendar : Calendar
calendar = record { schedule = λ w. some midnight; rounds = 20 }

abbrev nightly : Option (List WindowSpec)
nightly = some (record { start = "0 0 * * *"; duration = hour; timezone = "UTC" } ∷ [])

abbrev closed : WindowResult
closed = record {
  allowed = false;
  next_window_start = some 864086400000000000;
  current_window_end = none;
}

refused : check_window calendar nightly noon ≡ Checked.result closed
unfolding check_window
refused = refl

check_window_closed_example :
    (t : Time) × (closed.next_window_start ≡ some t)
    × IsStart calendar noon t (windows_of nightly)
    × All (ClosedUntil calendar noon t) (windows_of nightly)
check_window_closed_example = check_window_closed calendar nightly noon closed refused refl

requeue_after_bounds_example :
    (requeue_after closed noon ≤ requeue_cap)
    × ((start : Time)
        → closed.allowed ≡ false
        → closed.next_window_start ≡ some start
        → noon ≤ start
        → start ≤ noon + requeue_cap
        → noon + requeue_after closed noon ≡ start)
requeue_after_bounds_example = requeue_after_bounds closed noon
