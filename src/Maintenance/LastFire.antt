-- ===== src/Maintenance/LastFire.antt =====
-- lastFireTime against the fire times of a schedule: what the loop returns, when it ends, and when
-- it does not.
use mathlib.Core.Path.{subst}
use native.Mathlib.Decide.{dec_lt}
use tuppr.Prelude.{
  ℕ, zero, suc, ◌+◌, ◌-◌, ◌*◌, ◌≤◌, ◌<◌, ◌≡◌, refl, ◌⊎◌, inl, inr, none, some, arith, leb, leb→le,
  Bool-cases,
}
use tuppr.Maintenance.{week, last_fire_loop, last_fire_time}
use tuppr.Api.Talos.{Time}

-- The documented contract of `Schedule.Next`: the first fire time after the one given.
pub record IsNext (Fire : Time → Type 0) (next : Time → Time) : Type 0 where
  pub fires : (t : Time) → Fire (next t)
  pub later : (t : Time) → t < next t
  pub first : (t f : Time) → Fire f → t < f → next t ≤ f
  pub positive : (f : Time) → Fire f → 0 < f

-- `last` is the latest fire time up to `now` of those in the past week, or 0 where there is none.
pub record IsLastFire (Fire : Time → Type 0) (now last : Time) : Type 0 where
  pub fired : (last ≡ 0) ⊎ (Fire last × (now - week < last) × (last ≤ now))
  pub latest : (f : Time) → Fire f → now - week < f → f ≤ now → f ≤ last

module _ (Fire : Time → Type 0) (next : Time → Time) (contract : IsNext Fire next) where
  open contract use {fires, later, first, positive}

  -- With at least `gap` between fire times, one round more than covers the time left is enough.
  last_fire_loop-ends :
      (gap : ℕ)
      → ((f : Time) → Fire f → f + gap ≤ next f)
      → (rounds : ℕ) (now cursor last : Time) → Fire cursor
      → now < cursor + rounds * gap
      → (t : Time) × (last_fire_loop next (suc rounds) now cursor last ≡ some t)
  unfolding last_fire_loop
  last_fire_loop-ends gap apart zero now cursor last fire h = (last, ground arith)
  last_fire_loop-ends gap apart (suc rounds) now cursor last fire h =
      elim (Bool-cases (leb cursor now)) [
        | inl more ↦ rw more (
            last_fire_loop-ends gap apart rounds now (next cursor) cursor (fires cursor)
              (grind (arith, apart cursor fire)))
        | inr done ↦ (last, rw done)
      ]

  -- Where fire times are at least `gap` apart, lastFireTime returns after at most `rounds + 1` rounds,
  -- where `rounds` gaps are longer than a week.
  last_fire_time-ends :
      (gap rounds : ℕ) (now : Time)
      → ((f : Time) → Fire f → f + gap ≤ next f)
      → week < rounds * gap
      → (t : Time) × (last_fire_time next (suc rounds) now ≡ some t)
  unfolding last_fire_time
  last_fire_time-ends gap rounds now apart enough =
      last_fire_loop-ends gap apart rounds now (next (now - week)) 0 (fires (now - week))
        (omega (arith, later (now - week)))

  last_fire_loop-IsLastFire :
      (rounds : ℕ) (now cursor last : Time) {t : Time}
      → Fire cursor
      → now - week < cursor
      → (last ≡ 0) ⊎ (Fire last × (now - week < last) × (last ≤ now))
      → ((f : Time) → Fire f → now - week < f → f < cursor → f ≤ last)
      → last_fire_loop next rounds now cursor last ≡ some t
      → IsLastFire Fire now t
  unfolding last_fire_loop
  last_fire_loop-IsLastFire zero now cursor last fire after fired seen e = cc
  last_fire_loop-IsLastFire (suc rounds) now cursor last {t} fire after fired seen e =
      elim (Bool-cases (leb cursor now)) [
        | inl more ↦
            last_fire_loop-IsLastFire rounds now (next cursor) cursor (fires cursor)
              (omega (arith, later cursor))
              (inr (fire, after, omega (arith, leb→le cursor now more)))
              (λ f is_fire recent below. elim (dec_lt cursor f) [
                | yes p ↦ absurd (omega (arith, first cursor f is_fire p))
                | no p ↦ omega arith
              ])
              (rw more at e)
        | inr done ↦
            let same : last ≡ t = ground arith in
            subst (IsLastFire Fire now) same (record {
              fired = fired;
              latest = λ f is_fire recent past. seen f is_fire recent (ground arith);
            })
      ]

  -- Where fire times are at least `gap` apart and `rounds` gaps are longer than a week, lastFireTime
  -- returns within `rounds + 1` rounds, and what it returns is the last fire time of the past week,
  -- or 0 if there is none.
  pub last_fire_time-IsLastFire :
      (gap rounds : ℕ) (now : Time)
      → ((f : Time) → Fire f → f + gap ≤ next f)
      → week < rounds * gap
      → (t : Time) × (last_fire_time next (suc rounds) now ≡ some t) × IsLastFire Fire now t
  unfolding last_fire_time
  last_fire_time-IsLastFire gap rounds now apart enough =
      let (t, found) = last_fire_time-ends gap rounds now apart enough in
      (
        t,
        found,
        last_fire_loop-IsLastFire (suc rounds) now (next (now - week)) 0 (fires (now - week))
            (later (now - week)) (inl refl)
            (λ f is_fire recent below. absurd (omega (arith, first (now - week) f is_fire recent)))
            found,
      )

last_fire_loop_never :
    (next : Time → Time)
    → ((t : Time) → next t ≡ 0)
    → (rounds : ℕ) (now last : Time) → last_fire_loop next rounds now 0 last ≡ none
unfolding last_fire_loop
last_fire_loop_never next never zero now last = refl
last_fire_loop_never next never (suc rounds) now last =
    let ih = last_fire_loop_never next never rounds now 0 in
    let ih' : last_fire_loop next rounds now (next 0) 0 ≡ none = rw (never 0) ih in ground arith

-- For a schedule that never fires, whose Next is documented to return the zero time, lastFireTime
-- does not return within any number of rounds.
pub last_fire_time_never :
    (next : Time → Time)
    → ((t : Time) → next t ≡ 0)
    → (rounds : ℕ) (now : Time) → last_fire_time next rounds now ≡ none
unfolding last_fire_time
last_fire_time_never next never rounds now =
    rw (never (now - week)) (last_fire_loop_never next never rounds now 0)
