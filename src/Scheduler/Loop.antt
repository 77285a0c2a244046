-- ===== src/Scheduler/Loop.antt =====
-- The loop of `sched_tick`: which thread it chooses, and how it leaves the queues.
use vsop.Base.{
  ℕ, zero, suc, ◌≡◌, refl, ◌≢◌, List, [], ◌∷◌, ◌++◌, Bool, true, false, ◌||◌, not, none, some,
  arith,
}
use vsop.LinkedList.{Ptr, LinkedList}
use vsop.Scheduler.{
  Event, Scheduler, Threads, Cpu, is_event, clear_event, sched_can_run, choose_next, later,
  tick_loop, scheduler_put_back, scheduler_pick, pick_from,
}
use vsop.Scheduler.Queues.{HoldAll, AllEmpty, pick_from-cons, pick_from-nil}

-- Whether a thread may run: it waits for no event, or its event has come.
abbrev pub can_run : (Event → Ptr → Bool) → (Ptr → Event) → Ptr → Bool
can_run fires e t = not (is_event (e t)) || fires (e t) t

-- The threads of a queue that are passed over: of the queue's priority, and none may run in the
-- round that chooses it.
abbrev pub AllWait :
    Threads → (ℕ → Event → Ptr → Bool) → (Ptr → Event) → ℕ → Ptr → List Ptr → Type 0
AllWait ths fires e p idle [] = Unit
AllWait ths fires e p idle (u ∷ us) =
    (can_run (fires 0) e u ≡ false)
    × (ths.priority u ≡ p)
    × (u ≢ idle)
    × AllWait ths (later fires) e p idle us

-- The threads of a queue that may run in no round.
abbrev pub StillWait :
    Threads → (ℕ → Event → Ptr → Bool) → (Ptr → Event) → ℕ → Ptr → List Ptr → Type 0
StillWait ths fires e p idle [] = Unit
StillWait ths fires e p idle (u ∷ us) =
    ((n : ℕ) → can_run (fires n) e u ≡ false)
    × (ths.priority u ≡ p)
    × (u ≢ idle)
    × StillWait ths fires e p idle us

-- What a tick's loop leaves: `t` is chosen and no longer waits, and `qs` are the queues.
pub record Chosen (c d : Cpu) (t : Ptr) (qs : List (List Ptr)) : Type 0 where
  pub next : d.sched.next_thread ≡ t
  pub queues : HoldAll d.sched.prio_queues qs
  pub event : (u : Ptr) → d.event u ≡ clear_event c.event t u
  pub idle : d.sched.idle_thread ≡ c.sched.idle_thread
  pub current : d.sched.current_thread ≡ c.sched.current_thread
  pub page_directory : d.cr3 ≡ c.cr3
  pub stack : d.esp0 ≡ c.esp0

pub sched_can_run-no :
    (fires : Event → Ptr → Bool) (c : Cpu)
    → can_run fires c.event c.sched.next_thread ≡ false
    → sched_can_run fires c ≡ (false, c)
unfolding sched_can_run
sched_can_run-no fires c h = ground arith

pub sched_can_run-yes :
    (fires : Event → Ptr → Bool) (c : Cpu)
    → can_run fires c.event c.sched.next_thread ≡ true
    → ((sched_can_run fires c).0 ≡ true)
      × ((sched_can_run fires c).1.sched ≡ c.sched)
      × ((sched_can_run fires c).1.cr3 ≡ c.cr3)
      × ((sched_can_run fires c).1.esp0 ≡ c.esp0)
      × ((u : Ptr) → (sched_can_run fires c).1.event u ≡ clear_event c.event c.sched.next_thread u)
unfolding sched_can_run
sched_can_run-yes fires c h =
    (ground arith, ground arith, ground arith, ground arith, λ u. ground arith)

pub tick_loop-zero :
    (ths : Threads) (fires : ℕ → Event → Ptr → Bool) (c : Cpu) → tick_loop zero ths fires c ≡ none
unfolding tick_loop
tick_loop-zero ths fires c = refl

pub tick_loop-stop :
    (fuel : ℕ) (ths : Threads) (fires : ℕ → Event → Ptr → Bool) (c : Cpu)
    → let c' = record c { sched = choose_next c.sched } in
      can_run (fires 0) c.event c'.sched.next_thread ≡ true
      → tick_loop (suc fuel) ths fires c ≡ some (sched_can_run (fires 0) c').1
unfolding tick_loop
tick_loop-stop fuel ths fires c h =
    rw ((sched_can_run-yes (fires 0) (record c { sched = choose_next c.sched }) h).0)

pub tick_loop-more :
    (fuel : ℕ) (ths : Threads) (fires : ℕ → Event → Ptr → Bool) (c : Cpu)
    → let s = choose_next c.sched in
      can_run (fires 0) c.event s.next_thread ≡ false
      → tick_loop (suc fuel) ths fires c
        ≡ tick_loop fuel ths
            (later fires)
            (record c { sched = scheduler_put_back ths s s.next_thread })
unfolding tick_loop
tick_loop-more fuel ths fires c h =
    rw (sched_can_run-no (fires 0) (record c { sched = choose_next c.sched }) h)

-- The first thread of the first queue that has one comes next.
pub choose_next-cons :
    (s : Scheduler) (es : List (List Ptr)) (t : Ptr) (q : List Ptr) (qs : List (List Ptr))
    → AllEmpty es
    → HoldAll s.prio_queues (es ++ (t ∷ q) ∷ qs)
    → t ≢ 0
    → (choose_next s ≡ record s { prio_queues = (pick_from s.prio_queues).1; next_thread = t })
      × HoldAll (pick_from s.prio_queues).1 (es ++ q ∷ qs)
unfolding choose_next scheduler_pick
choose_next-cons s es t q qs a h n =
    let (result, rest) = pick_from-cons es t q qs s.prio_queues a h in
    (ground (arith, result), rest)

pub HoldAll-nonnull :
    (ls : List LinkedList) (es : List (List Ptr)) (t : Ptr) (q : List Ptr) (qs : List (List Ptr))
    → HoldAll ls (es ++ (t ∷ q) ∷ qs)
    → t ≢ 0
HoldAll-nonnull [] [] t q qs h = absurd h
HoldAll-nonnull [] (e ∷ es) t q qs h = absurd h
HoldAll-nonnull (l ∷ ls) [] t q qs h = h.0.nonnull.0
HoldAll-nonnull (l ∷ ls) (e ∷ es) t q qs h = HoldAll-nonnull ls es t q qs h.1

-- With all queues empty the idle thread comes next.
pub choose_next-nil :
    (s : Scheduler) (qs : List (List Ptr))
    → AllEmpty qs
    → HoldAll s.prio_queues qs
    → choose_next s ≡ record s { next_thread = s.idle_thread }
unfolding choose_next scheduler_pick
choose_next-nil s qs a h = rw (pick_from-nil qs s.prio_queues a h)
