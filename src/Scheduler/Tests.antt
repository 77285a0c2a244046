-- ===== src/Scheduler/Tests.antt =====
-- A processor with two ready threads, and the theorems at it.
use vsop.Base.{
  ℕ, ◌+◌, ◌≡◌, refl, ◌≢◌, List, [], ◌∷◌, ◌++◌, Bool, true, false, none, some, arith, get_or,
  if◌then◌else◌, ◌==◌,
}
use vsop.LinkedList.{Ptr, LinkedList, no_elems, list_push}
use vsop.LinkedList.Queue.{Holds, no_elems-Holds, list_push-Holds}
use vsop.Scheduler.{
  Event, no_event, timer_event, Scheduler, Threads, Cpu, tick_loop, sched_tick, scheduler_find,
  find_from, sched_thread_ready, fresh_scheduler,
}
use vsop.Scheduler.Queues.{HoldAll, enqueue}
use vsop.Scheduler.Tick.{tick_loop-starves}
use vsop.Scheduler.Switch.{Switched, sched_tick_lem}
use vsop.Scheduler.Balance.{LeastLoaded, sched_thread_ready_lem}

-- Threads 5 and 6 have priority 1, the idle thread 4 and the running thread 7 have priority 2.
abbrev threads : Threads
threads = record {
  priority = λ t. if t == 5 then 1 else (if t == 6 then 1 else 2);
  kernel_stack = λ t. 4096 + t;
  pdir = λ t. 8192 + t;
}

-- Only thread 5 waits, and its event has not come.
abbrev events : Ptr → Event
events t = if t == 5 then timer_event else no_event

abbrev none_fires : ℕ → Event → Ptr → Bool
none_fires n e t = false

abbrev two_ready : LinkedList
two_ready = list_push (list_push no_elems 5) 6

abbrev cpu : Cpu
cpu = record {
  sched = record {
    prio_queues = no_elems ∷ two_ready ∷ no_elems ∷ no_elems ∷ no_elems ∷ [];
    idle_thread = 4;
    current_thread = 7;
    next_thread = 0;
    waiting_threads = no_elems;
    load = 2;
    started = true;
  };
  event = events;
  cr3 = 8199;
  esp0 = 4103;
}

two_ready-Holds : Holds two_ready (5 ∷ 6 ∷ [])
two_ready-Holds = list_push-Holds 6 (list_push-Holds 5 no_elems-Holds (omega arith)) (omega arith)

abbrev rows : List (List Ptr)
rows = [] ∷ (5 ∷ 6 ∷ []) ∷ [] ∷ [] ∷ [] ∷ []

queues-HoldAll : HoldAll cpu.sched.prio_queues rows
queues-HoldAll =
    (no_elems-Holds, (two_ready-Holds, (no_elems-Holds, (no_elems-Holds, (no_elems-Holds, tt)))))

sched_tick_lem_example :
    (d : Cpu) × (sched_tick 2 threads none_fires cpu ≡ some d)
    × Switched threads cpu d 6 (([] ∷ []) ++ (5 ∷ []) ∷ (7 ∷ []) ∷ [] ∷ [] ∷ [])
sched_tick_lem_example =
    sched_tick_lem threads none_fires 2 cpu rows ([] ∷ []) ((7 ∷ []) ∷ [] ∷ [] ∷ []) (5 ∷ []) [] 6
      (omega arith) (omega arith) queues-HoldAll no_elems-Holds refl (refl, tt)
      (refl, refl, omega arith, tt) refl (omega arith) (omega arith)

abbrev all_wait : Ptr → Event
all_wait t = if t == 4 then no_event else timer_event

tick_loop-starves_example :
    tick_loop 1000 threads none_fires (record cpu { event = all_wait }) ≡ none
tick_loop-starves_example =
    tick_loop-starves threads ([] ∷ []) ([] ∷ [] ∷ [] ∷ []) none_fires 1000
      (record cpu { event = all_wait }) 5 (6 ∷ []) (refl, tt) queues-HoldAll
      ((λ n. refl), refl, omega arith, ((λ n. refl), refl, omega arith, tt))

-- Three processors: the second has not started, the third is idle.
abbrev others : List Scheduler
others = fresh_scheduler 8 ∷ (record (fresh_scheduler 9) { started = true }) ∷ []

abbrev all : List Scheduler
all = cpu.sched ∷ others

third_chosen : scheduler_find all ≡ 2
unfolding scheduler_find find_from
third_chosen = refl

third-HoldAll :
    HoldAll
      (get_or all (scheduler_find all) (fresh_scheduler 0)).prio_queues
      ([] ∷ [] ∷ [] ∷ [] ∷ [] ∷ [])
third-HoldAll =
    rw third_chosen
      (no_elems-Holds, (no_elems-Holds, (no_elems-Holds, (no_elems-Holds, (no_elems-Holds, tt)))))

sched_thread_ready_lem_example :
    let i = scheduler_find all in
    let after = get_or (sched_thread_ready threads all 6) i (fresh_scheduler 0) in
    LeastLoaded all (fresh_scheduler 0) i
    × HoldAll after.prio_queues (enqueue ([] ∷ [] ∷ [] ∷ [] ∷ [] ∷ []) (threads.priority 6) 6)
    × (after.load ≡ (get_or all i (fresh_scheduler 0)).load + 1)
    × ((j : ℕ)
        → i ≢ j
        → get_or (sched_thread_ready threads all 6) j (fresh_scheduler 0)
          ≡ get_or all j (fresh_scheduler 0))
sched_thread_ready_lem_example =
    sched_thread_ready_lem threads cpu.sched (fresh_scheduler 0) others 6
      ([] ∷ [] ∷ [] ∷ [] ∷ [] ∷ []) (omega arith) third-HoldAll
