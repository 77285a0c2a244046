-- ===== src/Timer/Waiting.antt =====
-- Waiting by the tick counter: `timer_active_wait`, and the sleep that `thread_timer_event` ends.
use vsop.Base.{ℕ, zero, suc, ◌+◌, ◌^◌, ◌≤◌, ◌<◌, ◌≡◌, some, arith, ltb}
use vsop.Timer.{tick, wait_until, timer_active_wait, thread_timer_event, sleep_until}

wait_until-some :
    (n fuel ticks wtime : ℕ)
    → n < fuel
    → wtime < 2 ^ 32
    → ticks + n ≡ wtime
    → wait_until fuel ticks wtime ≡ some n
unfolding wait_until tick
wait_until-some n zero ticks wtime f h e = absurd (omega arith)
wait_until-some zero (suc fuel) ticks wtime f h e = ground arith
wait_until-some (suc n) (suc fuel) ticks wtime f h e =
    ground (arith, wait_until-some n fuel (tick ticks) wtime)

-- Where the counter does not reach its end, `timer_active_wait(wtime)` waits for `wtime` interrupts.
pub timer_active_wait_lem :
    (ticks wtime fuel : ℕ)
    → ticks + wtime < 2 ^ 32
    → wtime < fuel
    → timer_active_wait fuel ticks wtime ≡ some wtime
unfolding timer_active_wait
timer_active_wait_lem ticks wtime fuel h f =
    ground (arith, wait_until-some wtime fuel ticks (ticks + wtime))

-- Near the end of the counter the sum wraps, and the wait is over at once.
pub timer_active_wait-wraps :
    (ticks wtime fuel : ℕ)
    → ticks < 2 ^ 32
    → wtime < 2 ^ 32
    → 2 ^ 32 ≤ ticks + wtime
    → timer_active_wait (suc fuel) ticks wtime ≡ some 0
unfolding timer_active_wait wait_until
timer_active_wait-wraps ticks wtime fuel h k w = ground arith

-- `k` interrupts later.
abbrev pub ticks_after : ℕ → ℕ → ℕ
ticks_after zero ticks = ticks
ticks_after (suc k) ticks = tick (ticks_after k ticks)

ticks_after_lem : (k ticks : ℕ) → ticks + k < 2 ^ 32 → ticks_after k ticks ≡ ticks + k
unfolding tick
ticks_after_lem zero ticks h = omega arith
ticks_after_lem (suc k) ticks h = omega (arith, ticks_after_lem k ticks (omega arith))

-- A thread that sleeps for `n` ticks is woken by the interrupt after the `n`-th and by no earlier one,
-- where the counter does not reach its end.
pub thread_timer_event-sleep :
    (ticks n k : ℕ)
    → ticks + n < 2 ^ 32
    → ticks + k < 2 ^ 32
    → thread_timer_event (ticks_after k ticks) (sleep_until ticks n) ≡ ltb n k
unfolding thread_timer_event sleep_until
thread_timer_event-sleep ticks n k h m = ground (arith, ticks_after_lem k ticks m)
