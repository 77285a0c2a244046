-- ===== src/Scheduler.antt =====
-- kernel/scheduler.c: one scheduler for each processor, with a queue of ready threads for each
-- priority. What does not change during a tick (priorities, stacks, page directories) is a record of
-- functions of the thread's pointer. What the event functions answer in
-- each round of a tick's loop, where interrupts are enabled, is `fires`.
-- kernel/config.h defines CONF_PREEMPTIBLE, so a thread that cannot run goes back to its queue.
pub mod Queues
pub mod Loop
pub mod Tick
pub mod Switch
pub mod Balance
mod Tests
use vsop.Base.{
  ℕ, zero, suc, ◌+◌, ◌-◌, List, [], ◌∷◌, Bool, true, false, Option, none, some, set, get_or,
  replicate, ltb, ◌==◌, if◌then◌else◌, not, ◌&&◌,
}
use vsop.LinkedList.{Ptr, LinkedList, no_elems, list_push, list_pop}

abbrev pub max_priority : ℕ
max_priority = 5

-- The event that a thread waits for: a null pointer or one of the kernel's four event functions.
pub data Event : Type 0 where
  no_event timer_event select_event read_event write_event : Event

-- `struct scheduler`
pub record Scheduler : Type 0 where
  pub prio_queues : List LinkedList
  pub idle_thread : Ptr
  pub current_thread : Ptr
  pub next_thread : Ptr
  pub waiting_threads : LinkedList
  pub load : ℕ
  pub started : Bool

-- `priority`, `kernel_stack` and `parent->pdir` of a `struct thread`.
pub record Threads : Type 0 where
  pub priority : Ptr → ℕ
  pub kernel_stack : Ptr → ℕ
  pub pdir : Ptr → ℕ

-- A processor: its scheduler, the `event` fields of the threads, the page directory in use and the
-- stack that interrupts take.
pub record Cpu : Type 0 where
  pub sched : Scheduler
  pub event : Ptr → Event
  pub cr3 : ℕ
  pub esp0 : ℕ

abbrev pub queue_at : List LinkedList → ℕ → LinkedList
queue_at qs p = get_or qs p no_elems

-- `list_push(this->prio_queues + p, t)`
abbrev pub push_at : List LinkedList → ℕ → Ptr → List LinkedList
push_at qs p t = set qs p (list_push (queue_at qs p) t)

unfoldable pub scheduler_put_back : Threads → Scheduler → Ptr → Scheduler
scheduler_put_back ths s th =
    if th == 0
    then s
    else (if th == s.idle_thread
        then s
        else record s { prio_queues = push_at s.prio_queues (ths.priority th) th })

-- The loop of `scheduler_pick` over the queues that are left.
unfoldable pub pick_from : List LinkedList → Ptr × List LinkedList
pick_from [] = (0, [])
pick_from (q ∷ qs) =
    let (t, q') = list_pop q in
    let (r, qs') = pick_from qs in if t == 0 then (r, q' ∷ qs') else (t, q' ∷ qs)

unfoldable pub scheduler_pick : Scheduler → Ptr × Scheduler
unfolding pick_from
scheduler_pick s = let (t, qs) = pick_from s.prio_queues in (t, record s { prio_queues = qs })

-- The loop of `scheduler_wake_all`, on fuel.
unfoldable pub wake_loop : ℕ → Threads → Scheduler → Scheduler
wake_loop zero ths s = s
wake_loop (suc fuel) ths s =
    let (th, l) = list_pop s.waiting_threads in
    let s' = record s { waiting_threads = l } in
    let rest = wake_loop fuel ths (scheduler_put_back ths s' th) in if th == 0 then s' else rest

-- A pop for each thread that waits, and one that finds none.
unfoldable pub scheduler_wake_all : Threads → Scheduler → Scheduler
unfolding wake_loop
scheduler_wake_all ths s = wake_loop (suc s.waiting_threads.size) ths s

abbrev pub is_event : Event → Bool
is_event no_event = false
is_event _ = true

abbrev pub clear_event : (Ptr → Event) → Ptr → Ptr → Event
clear_event e t u = if t == u then no_event else e u

-- `sched_can_run`: whether the next thread can run, and the processor after the test.
unfoldable pub sched_can_run : (Event → Ptr → Bool) → Cpu → Bool × Cpu
sched_can_run fires c =
    let t = c.sched.next_thread in
    if not (is_event (c.event t))
    then (true, c)
    else (if fires (c.event t) t
        then (true, record c { event = clear_event c.event t })
        else (false, c))

-- `sched->next_thread = scheduler_pick(sched)`, or the idle thread if there is none.
unfoldable pub choose_next : Scheduler → Scheduler
unfolding scheduler_pick
choose_next s =
    let (t, s') = scheduler_pick s in
    record s' { next_thread = if t == 0 then s'.idle_thread else t }

-- What the event functions answer from the next round on.
abbrev pub later : (ℕ → Event → Ptr → Bool) → ℕ → Event → Ptr → Bool
later fires n = fires (suc n)

-- The loop of `sched_tick`, on fuel.
unfoldable pub tick_loop : ℕ → Threads → (ℕ → Event → Ptr → Bool) → Cpu → Option Cpu
tick_loop zero ths fires c = none
tick_loop (suc fuel) ths fires c =
    let (runs, c') = sched_can_run (fires 0) (record c { sched = choose_next c.sched }) in
    let s = scheduler_put_back ths c'.sched c'.sched.next_thread in
    let rest = tick_loop fuel ths (later fires) (record c' { sched = s }) in
    if runs then some c' else rest

-- `scheduler_switch`, but for the registers: page directory, stack for interrupts, current thread.
unfoldable pub scheduler_switch : Threads → Cpu → Cpu
scheduler_switch ths c =
    let from = c.sched.current_thread in
    let to = c.sched.next_thread in
    if to == 0
    then c
    else (if from == to then c else record c {
      cr3 = if ths.pdir from == ths.pdir to then c.cr3 else ths.pdir to;
      esp0 = ths.kernel_stack to;
      sched = record (c.sched) { current_thread = to; next_thread = 0 };
    })

-- `sched_tick` up to its loop.
unfoldable pub tick_start : Threads → Scheduler → Scheduler
unfolding scheduler_put_back scheduler_wake_all
tick_start ths s = scheduler_wake_all ths (scheduler_put_back ths s s.current_thread)

unfoldable pub sched_tick : ℕ → Threads → (ℕ → Event → Ptr → Bool) → Cpu → Option Cpu
unfolding tick_start tick_loop scheduler_switch
sched_tick fuel ths fires c =
    elim (tick_loop fuel ths fires (record c { sched = tick_start ths c.sched })) [
      | none ↦ none
      | some c' ↦ some (scheduler_switch ths c')
    ]

-- `scheduler_find`, over the schedulers from index `i` on: the best index and its load so far.
unfoldable pub find_from : List Scheduler → ℕ → ℕ → ℕ → ℕ
find_from [] i best lowest = best
find_from (s ∷ ss) i best lowest =
    let better = s.started && ltb s.load lowest in
    find_from ss (i + 1) (if better then i else best) (if better then s.load else lowest)

unfoldable pub scheduler_find : List Scheduler → ℕ
unfolding find_from
scheduler_find [] = 0
scheduler_find (s ∷ ss) = find_from ss 1 0 s.load

-- `sched_thread_ready` on the chosen scheduler.
unfoldable pub add_thread : Threads → Scheduler → Ptr → Scheduler
add_thread ths s t = record s {
  prio_queues = push_at s.prio_queues (ths.priority t) t;
  load = s.load + 1;
}

abbrev pub fresh_scheduler : Ptr → Scheduler
fresh_scheduler idle = record {
  prio_queues = replicate max_priority no_elems;
  idle_thread = idle;
  current_thread = idle;
  next_thread = 0;
  waiting_threads = no_elems;
  load = 0;
  started = false;
}

unfoldable pub sched_thread_ready : Threads → List Scheduler → Ptr → List Scheduler
unfolding scheduler_find add_thread
sched_thread_ready ths ss t =
    let i = scheduler_find ss in set ss i (add_thread ths (get_or ss i (fresh_scheduler 0)) t)
