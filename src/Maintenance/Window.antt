-- ===== src/Maintenance/Window.antt =====
-- CheckWindow: a window is open exactly while a run of it is, and a closed answer names the next
-- start.
use mathlib.Core.Path.{}
use tuppr.Prelude.{
  ℕ, ◌+◌, ◌≤◌, ◌<◌, ◌≡◌, refl, ap, ◌↔◌, ◌⊎◌, Memᴰ, ◌*◌, suc, inl, inr, true, false, Option, none,
  some, List, [], ◌∷◌, arith, ltb, ◌==◌, Bool-cases, All, if◌then◌else◌,
}
use tuppr.Api.Talos.{Time, Duration, WindowSpec}
use tuppr.Maintenance.{
  week, requeue_cap, WindowResult, Calendar, Checked, window_answer, check_schedule, check_parsed,
  check_single_window, check_windows, check_window, requeue_after,
}
use tuppr.Maintenance.LastFire.{IsNext, IsLastFire, last_fire_time-IsLastFire}

-- Some fire time is at most `now`, and the window that it opened has not run out.
abbrev pub IsOpen : (Time → Type 0) → Duration → Time → Type 0
IsOpen Fire duration now = (f : Time) × Fire f × (f ≤ now) × (now < f + duration)

module _ (Fire : Time → Type 0) (next : Time → Time) (contract : IsNext Fire next) where
  open contract use {positive}

  IsOpen-IsOpen :
      (duration now last : Time)
      → IsLastFire Fire now last
      → (if last == 0 then false else ltb now (last + duration)) ≡ true
      → IsOpen Fire duration now
  IsOpen-IsOpen duration now last h e = elim h.fired [
    | inl none_fired ↦ absurd (ground arith)
    | inr (fire, recent, past) ↦ (last, fire, past, ground arith)
  ]

  IsOpen-open :
      (duration now last : Time)
      → duration ≤ week
      → IsLastFire Fire now last
      → IsOpen Fire duration now
      → (if last == 0 then false else ltb now (last + duration)) ≡ true
  IsOpen-open duration now last short h (f, fire, past, running) =
      let after = positive f fire in let newest = h.latest f fire (omega arith) past in ground arith

  Answers : Duration → Time → WindowResult → Type 0
  Answers duration now r =
      ((r.allowed ≡ true) ↔ IsOpen Fire duration now)
      × (r.allowed ≡ false → r.next_window_start ≡ some (next now))

  window_answer-Answers :
      (duration now last : Time)
      → duration ≤ week
      → IsLastFire Fire now last
      → Answers duration now (window_answer next duration now last)
  unfolding Answers window_answer
  window_answer-Answers duration now last short h =
      elim (Bool-cases (if last == 0 then false else ltb now (last + duration))) [
        | inl yes_open ↦
            rw yes_open
              (((λ _. IsOpen-IsOpen duration now last h yes_open), (λ _. refl)), λ f. cc f)
        | inr closed ↦
            rw closed (
              ((λ t. cc t), (λ o. cc (closed, IsOpen-open duration now last short h o))),
              λ _. refl,
            )
      ]

  -- For a window of at most a week whose fire times are at least `gap` apart, with `rounds` gaps
  -- longer than a week: within `rounds + 1` rounds checkSingleWindow answers, "allowed" exactly while
  -- the window opened by some fire time is running; a refusal names the first start after now.
  pub check_schedule_iff :
      (gap rounds : ℕ) (duration now : Time)
      → duration ≤ week
      → ((f : Time) → Fire f → f + gap ≤ next f)
      → week < rounds * gap
      → (r : WindowResult) × (check_schedule next (suc rounds) duration now ≡ some r)
        × ((r.allowed ≡ true) ↔ IsOpen Fire duration now)
        × (r.allowed ≡ false → r.next_window_start ≡ some (next now))
  unfolding check_schedule Answers
  check_schedule_iff gap rounds duration now short apart enough =
      let (last, found, is_last) =
        last_fire_time-IsLastFire Fire next contract gap rounds now apart enough in
      let (exact, start) = window_answer-Answers duration now last short is_last in
      (
        window_answer next duration now last,
        ap
            (λ (o : Option Time). elim o as (λ x. Option WindowResult) [
              | none ↦ none
              | some t ↦ some (window_answer next duration now t)
            ])
            found,
        exact,
        start,
      )

-- The window is closed, and opens next at `u`, which is not before `t`.
abbrev pub ClosedUntil : Calendar → Time → Time → WindowSpec → Type 0
ClosedUntil c now t w =
    (r : WindowResult) × (u : Time) × (check_single_window c w now ≡ Checked.result r)
    × (r.allowed ≡ false)
    × (r.next_window_start ≡ some u)
    × (t ≤ u)

check_parsed-next :
    (o : Option (Time → Time)) (rounds : ℕ) (duration now : Time) (r : WindowResult)
    → check_parsed o rounds duration now ≡ Checked.result r
    → r.allowed ≡ false
    → (u : Time) × (r.next_window_start ≡ some u)
unfolding check_parsed
check_parsed-next none rounds duration now r e closed = cc
check_parsed-next (some next) rounds duration now r e closed = (next now, ground arith)

-- `t` is the start that one of the windows opens at next.
abbrev pub IsStart : Calendar → Time → Time → List WindowSpec → Type 0
IsStart c now t ws =
    (w : WindowSpec) × Memᴰ w ws
    × ((r : WindowResult) × (check_single_window c w now ≡ Checked.result r)
        × (r.next_window_start ≡ some t))

IsStart-later :
    (c : Calendar) (now t : Time) (w : WindowSpec) (ws : List WindowSpec)
    → IsStart c now t ws
    → IsStart c now t (w ∷ ws)
IsStart-later c now t w ws (x, m, h) = (x, Memᴰ.tail m, h)

Best : Calendar → Time → List WindowSpec → Time → WindowResult → Type 0
Best c now ws b r =
    (t : Time) × (r.next_window_start ≡ some t)
    × (t ≤ b)
    × ((t ≡ b) ⊎ IsStart c now t ws)
    × All (ClosedUntil c now t) ws

-- The best start is that of the window just read, or of a later one.
first-IsStart :
    (c : Calendar) (w : WindowSpec) (ws : List WindowSpec) (now t u : Time) (s : WindowResult)
    → check_single_window c w now ≡ Checked.result s
    → s.next_window_start ≡ some u
    → (t ≡ u) ⊎ IsStart c now t ws
    → IsStart c now t (w ∷ ws)
first-IsStart c w ws now t u s q starts (inl e) = (w, Memᴰ.head refl, (s, q, rw e starts))
first-IsStart c w ws now t u s q starts (inr h) = IsStart-later c now t w ws h

kept-IsStart :
    (c : Calendar) (w : WindowSpec) (ws : List WindowSpec) (now t b : Time)
    → (t ≡ b) ⊎ IsStart c now t ws
    → (t ≡ b) ⊎ IsStart c now t (w ∷ ws)
kept-IsStart c w ws now t b (inl e) = inl e
kept-IsStart c w ws now t b (inr h) = inr (IsStart-later c now t w ws h)

-- The first window answered `a`, the others are read with the best start so far.
next_window :
    (c : Calendar) (w : WindowSpec) (ws : List WindowSpec) (b now : Time) (r : WindowResult)
    → ((b' : Time) → check_windows c ws (some b') now ≡ Checked.result r → Best c now ws b' r)
    → (a : Checked) → check_single_window c w now ≡ a
    → check_windows c (w ∷ ws) (some b) now ≡ Checked.result r
    → r.allowed ≡ false
    → Best c now (w ∷ ws) b r
unfolding check_windows Best check_single_window
next_window c w ws b now r ih Checked.bad_window q e closed = cc (rw (q, check_windows) at e)
next_window c w ws b now r ih Checked.no_answer q e closed = cc (rw (q, check_windows) at e)
next_window c w ws b now r ih (Checked.result s) q e closed = elim (Bool-cases s.allowed) [
  | inl opened ↦ cc (rw (opened, check_windows) at (rw (q, check_windows) at e), closed, opened)
  | inr shut ↦
      let (u, starts) = check_parsed-next (c.schedule w) c.rounds w.duration now s q shut in
      let rest : check_windows c ws (if ltb u b then some u else some b) now ≡ Checked.result r =
        rw (starts, check_windows) at (rw (shut, check_windows) at (rw (q, check_windows) at e)) in
      elim (Bool-cases (ltb u b)) [
        | inl before ↦
            let (t, n, le, from, all) = ih u (rw before at rest) in
            (
              t,
              n,
              ground arith,
              inr (first-IsStart c w ws now t u s q starts from),
              ((s, u, q, shut, starts, le), all),
            )
        | inr after ↦
            let (t, n, le, from, all) = ih b (rw after at rest) in
            (
              t,
              n,
              le,
              kept-IsStart c w ws now t b from,
              ((s, u, q, shut, starts, ground arith), all),
            )
      ]
]

check_windows-next :
    (c : Calendar) (ws : List WindowSpec) (b now : Time) (r : WindowResult)
    → check_windows c ws (some b) now ≡ Checked.result r
    → r.allowed ≡ false
    → Best c now ws b r
unfolding check_windows Best
check_windows-next c [] b now r e closed = (b, ground arith, omega arith, inl refl, tt)
check_windows-next c (w ∷ ws) b now r e closed =
    next_window c w ws b now r (λ b' e'. check_windows-next c ws b' now r e' closed)
      (check_single_window c w now) refl e closed

first_window :
    (c : Calendar) (w : WindowSpec) (ws : List WindowSpec) (now : Time) (r : WindowResult)
    → (a : Checked) → check_single_window c w now ≡ a
    → check_windows c (w ∷ ws) none now ≡ Checked.result r
    → r.allowed ≡ false
    → (t : Time) × (r.next_window_start ≡ some t)
      × IsStart c now t (w ∷ ws)
      × All (ClosedUntil c now t) (w ∷ ws)
unfolding check_windows Best check_single_window
first_window c w ws now r Checked.bad_window q e closed = cc (rw (q, check_windows) at e)
first_window c w ws now r Checked.no_answer q e closed = cc (rw (q, check_windows) at e)
first_window c w ws now r (Checked.result s) q e closed = elim (Bool-cases s.allowed) [
  | inl opened ↦ cc (rw (opened, check_windows) at (rw (q, check_windows) at e), closed, opened)
  | inr shut ↦
      let (u, starts) = check_parsed-next (c.schedule w) c.rounds w.duration now s q shut in
      let rest : check_windows c ws (some u) now ≡ Checked.result r =
        rw (starts, check_windows) at (rw (shut, check_windows) at (rw (q, check_windows) at e)) in
      let (t, n, le, from, all) = check_windows-next c ws u now r rest closed in
      (t, n, first-IsStart c w ws now t u s q starts from, ((s, u, q, shut, starts, le), all))
]

-- The windows of a spec; a nil spec has none.
abbrev pub windows_of : Option (List WindowSpec) → List WindowSpec
windows_of none = []
windows_of (some ws) = ws

-- When CheckWindow refuses, it names a next start, so that the callers that dereference the pointer
-- never meet nil; every window is closed then, one of them opens next at that start, and none before it.
pub check_window_closed :
    (c : Calendar) (spec : Option (List WindowSpec)) (now : Time) (r : WindowResult)
    → check_window c spec now ≡ Checked.result r
    → r.allowed ≡ false
    → (t : Time) × (r.next_window_start ≡ some t)
      × IsStart c now t (windows_of spec)
      × All (ClosedUntil c now t) (windows_of spec)
unfolding check_window
check_window_closed c none now r e closed = cc
check_window_closed c (some []) now r e closed = cc
check_window_closed c (some (w ∷ ws)) now r e closed =
    first_window c w ws now r (check_single_window c w now) refl e closed

-- The delay until the next look at a closed window is at most five minutes, and reaches exactly to
-- the next start where that is nearer.
pub requeue_after_bounds :
    (r : WindowResult) (now : Time)
    → (requeue_after r now ≤ requeue_cap)
      × ((start : Time)
          → r.allowed ≡ false
          → r.next_window_start ≡ some start
          → now ≤ start
          → start ≤ now + requeue_cap
          → now + requeue_after r now ≡ start)
unfolding requeue_after
requeue_after_bounds r now = (ground arith, λ start closed e h k. ground arith)
