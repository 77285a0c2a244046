-- ===== src/Timer.antt =====
-- kernel/timer.c: a counter that the real-time clock's interrupt raises 1024 times a second.
-- `uint64` is `unsigned long` in kernel/config.h, which has 32 bits for the target (`-m32`).
pub mod Uptime
pub mod Waiting
mod Tests
use mathlib.Core.Option
use vsop.Base.{
  ℕ, zero, suc, ◌+◌, ◌*◌, ◌/◌, ◌%◌, ◌^◌, Bool, true, false, Option, none, some, ltb, if◌then◌else◌,
}

abbrev pub timer_hz : ℕ
timer_hz = 1024

abbrev pub min_to_sec : ℕ
min_to_sec = 60

abbrev pub h_to_min : ℕ
h_to_min = 60

abbrev pub day_to_h : ℕ
day_to_h = 24

abbrev pub sec_to_ms : ℕ
sec_to_ms = 1000

-- `struct time_t`: `milisec` has 16 bits, `days` 32, and the others 8.
pub record Time : Type 0 where
  pub milisec : ℕ
  pub sec : ℕ
  pub minutes : ℕ
  pub hours : ℕ
  pub days : ℕ

abbrev pub u8 : ℕ → ℕ
u8 n = n % 2 ^ 8

abbrev pub u16 : ℕ → ℕ
u16 n = n % 2 ^ 16

abbrev pub u32 : ℕ → ℕ
u32 n = n % 2 ^ 32

-- `_tick`: the count after an interrupt.
unfoldable pub tick : ℕ → ℕ
tick ticks = u32 (ticks + 1)

-- `_ticks_to_time`, each quotient stored in its field.
unfoldable pub ticks_to_time : ℕ → Time
ticks_to_time cur =
    let in_day = cur % (timer_hz * min_to_sec * h_to_min * day_to_h) in
    let in_hour = in_day % (timer_hz * min_to_sec * h_to_min) in
    let in_minute = in_hour % (timer_hz * min_to_sec) in
    let in_sec = in_minute % timer_hz in
    record {
      days = u32 (cur / (timer_hz * min_to_sec * h_to_min * day_to_h));
      hours = u8 (in_day / (timer_hz * min_to_sec * h_to_min));
      minutes = u8 (in_hour / (timer_hz * min_to_sec));
      sec = u8 (in_minute / timer_hz);
      milisec = u16 (u32 (in_sec * sec_to_ms) / timer_hz);
    }

-- `_time_to_ticks`: the products are 32 bits wide, and so is the sum.
unfoldable pub time_to_ticks : Time → ℕ
time_to_ticks t =
    let ms = u32 (t.milisec * timer_hz) / sec_to_ms in
    let s = u32 (ms + u32 (t.sec * timer_hz)) in
    let m = u32 (s + u32 (t.minutes * timer_hz * min_to_sec)) in
    let h = u32 (m + u32 (t.hours * timer_hz * min_to_sec * h_to_min)) in
    u32 (h + u32 (t.days * timer_hz * min_to_sec * h_to_min * day_to_h))

unfoldable pub timer_uptime : ℕ → Time
unfolding ticks_to_time
timer_uptime ticks = ticks_to_time ticks

-- `wtime += ticks; while (ticks < wtime);` with an interrupt in each round of the loop: the rounds
-- made, or `none` if `fuel` rounds do not reach the end.
unfoldable pub wait_until : ℕ → ℕ → ℕ → Option ℕ
wait_until zero ticks wtime = none
wait_until (suc fuel) ticks wtime =
    let rest = wait_until fuel (tick ticks) wtime in
    if ltb ticks wtime then Option.map suc rest else some 0

unfoldable pub timer_active_wait : ℕ → ℕ → ℕ → Option ℕ
unfolding wait_until
timer_active_wait fuel ticks wtime = wait_until fuel ticks (u32 (wtime + ticks))

-- `thread_timer_event` for a thread whose `wait_timer` is given.
unfoldable pub thread_timer_event : ℕ → ℕ → Bool
thread_timer_event ticks wait_timer = ltb wait_timer ticks

-- What `sched_thread_sleep` of kernel/scheduler.c stores in `wait_timer`.
unfoldable pub sleep_until : ℕ → ℕ → ℕ
sleep_until ticks n = u32 (ticks + n)
