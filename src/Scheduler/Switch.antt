-- ===== src/Scheduler/Switch.antt =====
-- A whole tick: the running thread goes back to its queue, the loop chooses, and the processor
-- switches to the thread that was chosen.
use vsop.Base.{
  ℕ, ◌<◌, ◌≡◌, ◌≢◌, ◌∙◌, sym, ap, List, [], ◌∷◌, ◌++◌, Bool, true, some, arith, length, ◌==◌,
  if◌then◌else◌,
}
use mathlib.Core.Path.{subst}
use vsop.LinkedList.{Ptr}
use vsop.LinkedList.Queue.{Holds, list_pop-nil}
use vsop.Scheduler.{
  Event, Scheduler, Threads, Cpu, clear_event, scheduler_put_back, wake_loop, scheduler_wake_all,
  tick_start, scheduler_switch, sched_tick, push_at,
}
use vsop.Scheduler.Queues.{HoldAll, AllEmpty, enqueue, put_back-HoldAll}
use vsop.Scheduler.Loop.{can_run, AllWait, Chosen}
use vsop.Scheduler.Tick.{tick_loop-Chosen}

-- No thread stands among the waiting ones, where the preemptible kernel puts none.
scheduler_wake_all-nil :
    (ths : Threads) (s : Scheduler) → Holds s.waiting_threads [] → scheduler_wake_all ths s ≡ s
unfolding scheduler_wake_all wake_loop
scheduler_wake_all-nil ths s h = rw (list_pop-nil h)

-- What a tick leaves on a processor where `t` is chosen.
pub record Switched (ths : Threads) (c d : Cpu) (t : Ptr) (qs : List (List Ptr)) : Type 0 where
  pub current : d.sched.current_thread ≡ t
  pub queues : HoldAll d.sched.prio_queues qs
  pub event : (u : Ptr) → d.event u ≡ clear_event c.event t u
  pub page_directory :
      d.cr3 ≡ (if ths.pdir c.sched.current_thread == ths.pdir t then c.cr3 else ths.pdir t)
  pub stack : d.esp0 ≡ (if c.sched.current_thread == t then c.esp0 else ths.kernel_stack t)

queues-scheduler_switch :
    (ths : Threads) (d : Cpu) → (scheduler_switch ths d).sched.prio_queues ≡ d.sched.prio_queues
unfolding scheduler_switch
queues-scheduler_switch ths d = ground arith

event-scheduler_switch : (ths : Threads) (d : Cpu) → (scheduler_switch ths d).event ≡ d.event
unfolding scheduler_switch
event-scheduler_switch ths d = ground arith

scheduler_switch-Switched :
    (ths : Threads) (c d : Cpu) (t : Ptr) (qs : List (List Ptr))
    → Chosen c d t qs
    → t ≢ 0
    → Switched ths c (scheduler_switch ths d) t qs
unfolding scheduler_switch
scheduler_switch-Switched ths c d t qs ch n = record {
  current = ground (arith, ch.next, ch.current);
  queues = subst (λ ls. HoldAll ls qs) (sym (queues-scheduler_switch ths d)) ch.queues;
  event = λ u. ap (λ e. e u) (event-scheduler_switch ths d) ∙ ch.event u;
  page_directory = ground (arith, ch.next, ch.current, ch.page_directory);
  stack = ground (arith, ch.next, ch.current, ch.stack);
}

-- `tick_start` puts the running thread back, and there is nothing to wake.
tick_start-HoldAll :
    (ths : Threads) (s : Scheduler) (qs : List (List Ptr))
    → s.current_thread ≢ 0
    → s.current_thread ≢ s.idle_thread
    → HoldAll s.prio_queues qs
    → Holds s.waiting_threads []
    → let p = ths.priority s.current_thread in
      (tick_start ths s ≡ record s { prio_queues = push_at s.prio_queues p s.current_thread })
      × HoldAll (tick_start ths s).prio_queues (enqueue qs p s.current_thread)
unfolding tick_start
tick_start-HoldAll ths s qs n i h w =
    let (back, queues) = put_back-HoldAll ths s s.current_thread qs n i h in
    let waits : Holds (scheduler_put_back ths s s.current_thread).waiting_threads [] = rw back w in
    rw (scheduler_wake_all-nil ths (scheduler_put_back ths s s.current_thread) waits) (back, queues)

-- A tick while a thread other than the idle one runs puts that thread behind the others of its
-- priority, passes over the threads at the head of the first queue that is not empty that wait in
-- the rounds that choose them, and switches to the first thread `t` there that may run in its
-- round: `t` runs and waits for nothing, its page directory is in use, and interrupts take its
-- kernel stack unless it ran before. The fuel must exceed the number of threads passed over, and no
-- thread waits in the list of the kernel that is not preemptible.
pub sched_tick_lem :
    (ths : Threads) (fires : ℕ → Event → Ptr → Bool) (fuel : ℕ) (c : Cpu)
    (rows es qs : List (List Ptr)) (pre post : List Ptr) (t : Ptr)
    → c.sched.current_thread ≢ 0
    → c.sched.current_thread ≢ c.sched.idle_thread
    → HoldAll c.sched.prio_queues rows
    → Holds c.sched.waiting_threads []
    → enqueue rows (ths.priority c.sched.current_thread) c.sched.current_thread
      ≡ es ++ (pre ++ t ∷ post) ∷ qs
    → AllEmpty es
    → AllWait ths fires c.event (length es) c.sched.idle_thread pre
    → can_run (fires (length pre)) c.event t ≡ true
    → t ≢ 0
    → length pre < fuel
    → (d : Cpu) × (sched_tick fuel ths fires c ≡ some d)
      × Switched ths c d t (es ++ (post ++ pre) ∷ qs)
unfolding sched_tick
sched_tick_lem ths fires fuel c rows es qs pre post t n i h w e a wait run nt f =
    let (start, queues) = tick_start-HoldAll ths c.sched rows n i h w in
    let c' = record c { sched = tick_start ths c.sched } in
    let queues' : HoldAll c'.sched.prio_queues (es ++ (pre ++ t ∷ post) ∷ qs) = rw (← e) queues in
    let (d, done, ch) =
      tick_loop-Chosen ths es qs fires pre post t fuel c' f a queues'
        (subst (λ k. AllWait ths fires c.event (length es) k pre)
          (sym (ap (λ s. s.idle_thread) start)) wait)
        run in
    let ch' : Chosen c d t (es ++ (post ++ pre) ∷ qs) = record {
      next = ch.next;
      queues = ch.queues;
      event = ch.event;
      idle = ch.idle ∙ ap (λ s. s.idle_thread) start;
      current = ch.current ∙ ap (λ s. s.current_thread) start;
      page_directory = ch.page_directory;
      stack = ch.stack;
    } in
    (scheduler_switch ths d, rw (done, sched_tick), scheduler_switch-Switched ths c d t _ ch' nt)
