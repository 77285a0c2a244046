-- ===== src/Timer/Tests.antt =====
-- Concrete times, and the theorems at them.
use vsop.Base.{◌+◌, ◌*◌, ◌≤◌, ◌<◌, ◌≡◌, refl, some, arith}
use vsop.Timer.{ticks_to_time, timer_uptime, timer_active_wait}
use vsop.Timer.Uptime.{IsTime, timer_uptime_lem}
use vsop.Timer.Waiting.{timer_active_wait_lem, timer_active_wait-wraps}

one_day_on :
    ticks_to_time (88473600 + 3686400 + 1536)
    ≡ record { milisec = 500; sec = 1; minutes = 0; hours = 1; days = 1 }
unfolding ticks_to_time
one_day_on = refl

timer_uptime_lem_example :
    let t = timer_uptime 92161536 in
    let ms = t.milisec + 1000 * (t.sec + 60 * (t.minutes + 60 * (t.hours + 24 * t.days))) in
    IsTime t × (1024 * ms ≤ 1000 * 92161536) × (1000 * 92161536 < 1024 * (ms + 1))
timer_uptime_lem_example = timer_uptime_lem 92161536 (omega arith)

timer_active_wait_lem_example : timer_active_wait 10 100 3 ≡ some 3
timer_active_wait_lem_example = timer_active_wait_lem 100 3 10 (omega arith) (omega arith)

timer_active_wait-wraps_example : timer_active_wait 1 4294967290 20 ≡ some 0
timer_active_wait-wraps_example =
    timer_active_wait-wraps 4294967290 20 0 (omega arith) (omega arith) (omega arith)
