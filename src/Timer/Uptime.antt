-- ===== src/Timer/Uptime.antt =====
-- The uptime in days, hours, minutes, seconds and milliseconds, and back.
use vsop.Base.{ℕ, ◌+◌, ◌*◌, ◌^◌, ◌≤◌, ◌<◌, arith}
use vsop.Timer.{Time, ticks_to_time, time_to_ticks, timer_uptime}

-- Every field is in its range.
pub record IsTime (t : Time) : Type 0 where
  pub milisec : t.milisec < 1000
  pub sec : t.sec < 60
  pub minutes : t.minutes < 60
  pub hours : t.hours < 24

-- The uptime is in range, no field is cut off as it is stored, and to the millisecond it is the
-- number of ticks: 1024 thousandths of the time are at most the thousand ticks, and less than one
-- tick's step below.
pub timer_uptime_lem :
    (ticks : ℕ)
    → ticks < 2 ^ 32
    → let t = timer_uptime ticks in
      let ms = t.milisec + 1000 * (t.sec + 60 * (t.minutes + 60 * (t.hours + 24 * t.days))) in
      IsTime t × (1024 * ms ≤ 1000 * ticks) × (1000 * ticks < 1024 * (ms + 1))
unfolding timer_uptime
timer_uptime_lem ticks h = omega arith

-- The way back from ticks through a time loses two ticks at most.
pub time_to_ticks-ticks_to_time :
    (ticks : ℕ)
    → ticks < 2 ^ 32
    → (time_to_ticks (ticks_to_time ticks) ≤ ticks)
      × (ticks ≤ time_to_ticks (ticks_to_time ticks) + 2)
unfolding ticks_to_time time_to_ticks
time_to_ticks-ticks_to_time ticks h = omega arith
