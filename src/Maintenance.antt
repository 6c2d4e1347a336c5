-- ===== src/Maintenance.antt =====
-- internal/controller/maintenance/window.go: when a maintenance window is open. Times are
-- nanoseconds since Go's zero time, so that `IsZero` is `== 0`. The cron parser, the time zone
-- database and the schedule that they give are parameters: `next` is `Schedule.Next`.
pub mod LastFire
pub mod Window
use tuppr.Prelude.{
  ℕ, zero, suc, ◌+◌, ◌-◌, ◌*◌, String, Bool, true, false, Option, none, some, List, [], ◌∷◌, ltb,
  leb, ◌==◌, if◌then◌else◌,
}
use tuppr.Api.Talos.{Time, Duration, WindowSpec}

abbrev pub second : Duration
second = 1_000_000_000

abbrev pub minute : Duration
minute = 60 * second

abbrev pub hour : Duration
hour = 60 * minute

abbrev pub week : Duration
week = 7 * 24 * hour

-- RequeueCap
abbrev pub requeue_cap : Duration
requeue_cap = 5 * minute

pub record WindowResult : Type 0 where
  pub allowed : Bool
  pub next_window_start : Option Time
  pub current_window_end : Option Time

-- WindowResult.RequeueAfter. `Sub` is negative where the start has passed, and controller-runtime
-- takes a negative delay as none; the truncated `-` gives 0 there.
unfoldable pub requeue_after : WindowResult → Time → Duration
requeue_after r now = if r.allowed then 0 else elim r.next_window_start [
  | none ↦ 0
  | some start ↦ if ltb requeue_cap (start - now) then requeue_cap else start - now
]

-- The loop of lastFireTime: `cursor` and the last fire so far; `none` when the rounds run out.
last_fire_loop : (Time → Time) → ℕ → Time → Time → Time → Option Time
last_fire_loop next zero now cursor last = none
last_fire_loop next (suc rounds) now cursor last =
    let rest = last_fire_loop next rounds now (next cursor) cursor in
    if leb cursor now then rest else some last

-- lastFireTime. A time before Go's zero time plus a week does not occur.
unfoldable pub last_fire_time : (Time → Time) → ℕ → Time → Option Time
unfolding last_fire_loop
last_fire_time next rounds now = last_fire_loop next rounds now (next (now - week)) 0

-- The two results of checkSingleWindow, by the last fire time.
window_answer : (Time → Time) → Duration → Time → Time → WindowResult
window_answer next duration now last =
    if (if last == 0 then false else ltb now (last + duration))
    then record {
      allowed = true;
      next_window_start = none;
      current_window_end = some (last + duration);
    }
    else record { allowed = false; next_window_start = some (next now); current_window_end = none }

-- checkSingleWindow after both parses: `next` is the schedule of the window.
unfoldable pub check_schedule : (Time → Time) → ℕ → Duration → Time → Option WindowResult
unfolding last_fire_time window_answer
check_schedule next rounds duration now = elim (last_fire_time next rounds now) [
  | none ↦ none
  | some last ↦ some (window_answer next duration now last)
]

-- What CheckWindow returns: a result, the error of a bad time zone or cron expression, or no answer
-- since the loop did not end within the rounds.
pub data Checked : Type 0 where
  result : WindowResult → Checked
  bad_window : Checked
  no_answer : Checked

pub record Calendar : Type 0 where
  -- LoadLocation and Parse: the schedule of a window, in its time zone, or an error.
  pub schedule : WindowSpec → Option (Time → Time)
  -- Rounds that the loop over fire times is given.
  pub rounds : ℕ

check_parsed : Option (Time → Time) → ℕ → Duration → Time → Checked
unfolding check_schedule
check_parsed none rounds duration now = Checked.bad_window
check_parsed (some next) rounds duration now = elim (check_schedule next rounds duration now) [
  | none ↦ Checked.no_answer
  | some r ↦ Checked.result r
]

-- checkSingleWindow
pub check_single_window : Calendar → WindowSpec → Time → Checked
unfolding check_parsed
check_single_window c w now = check_parsed (c.schedule w) c.rounds w.duration now

-- `result.NextWindowStart != nil && (earliestNext == nil || ....Before(*earliestNext))`
abbrev pub earlier : Option Time → Option Time → Option Time
earlier none best = best
earlier (some t) none = some t
earlier (some t) (some b) = if ltb t b then some t else some b

-- The loop of CheckWindow, with `earliestNext` so far.
check_windows : Calendar → List WindowSpec → Option Time → Time → Checked
unfolding check_single_window
check_windows c [] best now =
    Checked.result (record { allowed = false; next_window_start = best; current_window_end = none })
check_windows c (w ∷ rest) best now = elim (check_single_window c w now) [
  | Checked.bad_window ↦ Checked.bad_window
  | Checked.no_answer ↦ Checked.no_answer
  | Checked.result r ↦
      if r.allowed
      then Checked.result r
      else check_windows c rest (earlier r.next_window_start best) now
]

abbrev open_always : WindowResult
open_always = record { allowed = true; next_window_start = none; current_window_end = none }

-- CheckWindow
unfoldable pub check_window : Calendar → Option (List WindowSpec) → Time → Checked
unfolding check_windows
check_window c none now = Checked.result open_always
check_window c (some []) now = Checked.result open_always
check_window c (some (w ∷ ws)) now = check_windows c (w ∷ ws) none now
