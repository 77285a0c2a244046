-- ===== src/Scheduler/Tick.antt =====
-- Which thread a tick's loop chooses, and when it finds none.
use vsop.Base.{
  ℕ, zero, suc, ◌<◌, ◌≡◌, ◌≢◌, ◌∙◌, sym, List, [], ◌∷◌, ◌++◌, Bool, true, false, none, some, arith,
  length, append_assoc, append-nil,
}
use mathlib.Core.Path.{subst}
use vsop.LinkedList.{Ptr}
use vsop.Scheduler.{
  Event, no_event, Scheduler, Threads, Cpu, choose_next, later, tick_loop, scheduler_put_back,
  sched_can_run, pick_from,
}
use vsop.Scheduler.Queues.{HoldAll, AllEmpty, put_back-HoldAll, enqueue-append}
use vsop.Scheduler.Loop.{
  can_run, AllWait, StillWait, Chosen, sched_can_run-yes, tick_loop-stop, tick_loop-more,
  choose_next-cons, HoldAll-nonnull, tick_loop-zero, choose_next-nil,
}

StillWait-append :
    (ths : Threads) (fires : ℕ → Event → Ptr → Bool) (e : Ptr → Event) (p : ℕ) (idle : Ptr)
    (us : List Ptr) (u : Ptr)
    → StillWait ths fires e p idle us
    → ((n : ℕ) → can_run (fires n) e u ≡ false)
    → ths.priority u ≡ p
    → u ≢ idle
    → StillWait ths fires e p idle (us ++ u ∷ [])
StillWait-append ths fires e p idle [] u w a b c = (a, b, c, tt)
StillWait-append ths fires e p idle (v ∷ us) u w a b c =
    (w.0, w.1, w.2, StillWait-append ths fires e p idle us u w.3 a b c)

StillWait-later :
    (ths : Threads) (fires : ℕ → Event → Ptr → Bool) (e : Ptr → Event) (p : ℕ) (idle : Ptr)
    (us : List Ptr)
    → StillWait ths fires e p idle us
    → StillWait ths (later fires) e p idle us
StillWait-later ths fires e p idle [] w = tt
StillWait-later ths fires e p idle (u ∷ us) w =
    (λ n. w.0 (suc n), w.1, w.2, StillWait-later ths fires e p idle us w.3)

module _ (ths : Threads) (es qs : List (List Ptr)) where
  -- A round that passes over `u` puts it behind the others of its queue.
  pass_over :
      (fires : ℕ → Event → Ptr → Bool) (c : Cpu) (u : Ptr) (q : List Ptr)
      → AllEmpty es
      → HoldAll c.sched.prio_queues (es ++ (u ∷ q) ∷ qs)
      → can_run (fires 0) c.event u ≡ false
      → ths.priority u ≡ length es
      → u ≢ c.sched.idle_thread
      → (s : Scheduler) × ((fuel : ℕ)
          → tick_loop (suc fuel) ths fires c
            ≡ tick_loop fuel ths (later fires) (record c { sched = s }))
        × HoldAll s.prio_queues (es ++ (q ++ u ∷ []) ∷ qs)
        × (s.idle_thread ≡ c.sched.idle_thread)
        × (s.current_thread ≡ c.sched.current_thread)
  pass_over fires c u q a h w p i =
      let n = HoldAll-nonnull c.sched.prio_queues es u q qs h in
      let (chosen, rest) = choose_next-cons c.sched es u q qs a h n in
      let s = record (c.sched) {
        prio_queues = (pick_from c.sched.prio_queues).1;
        next_thread = u;
      } in
      let (back, queues) = put_back-HoldAll ths s u (es ++ q ∷ qs) n i rest in
      (
        scheduler_put_back ths s u,
        λ fuel. tick_loop-more fuel ths fires c (rw chosen w) ∙ rw chosen,
        rw (← enqueue-append es q qs u, ← p) queues,
        rw back,
        rw back,
      )

  -- The loop ends at the first thread that may run of the first queue that is not empty, and puts
  -- those in front of it behind the others.
  pub tick_loop-Chosen :
      (fires : ℕ → Event → Ptr → Bool) (pre post : List Ptr) (t : Ptr) (fuel : ℕ) (c : Cpu)
      → length pre < fuel
      → AllEmpty es
      → HoldAll c.sched.prio_queues (es ++ (pre ++ t ∷ post) ∷ qs)
      → AllWait ths fires c.event (length es) c.sched.idle_thread pre
      → can_run (fires (length pre)) c.event t ≡ true
      → (d : Cpu) × (tick_loop fuel ths fires c ≡ some d) × Chosen c d t (es ++ (post ++ pre) ∷ qs)
  tick_loop-Chosen fires pre post t zero c f a h w r = absurd (omega arith)
  tick_loop-Chosen fires [] post t (suc fuel) c f a h w r =
      let n = HoldAll-nonnull c.sched.prio_queues es t post qs h in
      let (chosen, rest) = choose_next-cons c.sched es t post qs a h n in
      let c' = record c { sched = choose_next c.sched } in
      let next : c'.sched.next_thread ≡ t = rw chosen in
      let (_, sched, cr3, esp0, event) = sched_can_run-yes (fires 0) c' (rw chosen r) in
      (
        (sched_can_run (fires 0) c').1,
        tick_loop-stop fuel ths fires c (rw chosen r),
        record {
          next = rw sched next;
          queues = rw (sched, chosen, append-nil) rest;
          event = λ u. event u ∙ rw next;
          idle = rw (sched, chosen);
          current = rw (sched, chosen);
          page_directory = cr3;
          stack = esp0;
        },
      )
  tick_loop-Chosen fires (u ∷ pre) post t (suc fuel) c f a h w r =
      let (s, step, queues, idle, current) =
        pass_over fires c u (pre ++ t ∷ post) a h w.0 w.1 w.2 in
      let (d, done, ch) =
        tick_loop-Chosen (later fires) pre (post ++ u ∷ []) t fuel (record c { sched = s })
          (omega arith) a (rw (append_assoc pre (t ∷ post) (u ∷ [])) at queues) (rw idle w.3) r in
      (
        d,
        step fuel ∙ done,
        record {
          next = ch.next;
          queues = rw (append_assoc post (u ∷ []) pre) at ch.queues;
          event = ch.event;
          idle = ch.idle ∙ idle;
          current = ch.current ∙ current;
          page_directory = ch.page_directory;
          stack = ch.stack;
        },
      )

  -- While all threads of the first queue that is not empty wait, in every round, the loop makes
  -- round after round and chooses no thread, whatever the fuel.
  pub tick_loop-starves :
      (fires : ℕ → Event → Ptr → Bool) (fuel : ℕ) (c : Cpu) (u : Ptr) (q : List Ptr)
      → AllEmpty es
      → HoldAll c.sched.prio_queues (es ++ (u ∷ q) ∷ qs)
      → StillWait ths fires c.event (length es) c.sched.idle_thread (u ∷ q)
      → tick_loop fuel ths fires c ≡ none
  tick_loop-starves fires zero c u q a h w = tick_loop-zero ths fires c
  tick_loop-starves fires (suc fuel) c u [] a h w =
      let (s, step, queues, idle, _) = pass_over fires c u [] a h (w.0 0) w.1 w.2 in
      let waits = StillWait-later ths fires c.event (length es) c.sched.idle_thread (u ∷ []) w in
      step fuel
      ∙ tick_loop-starves (later fires) fuel (record c { sched = s }) u [] a queues (rw idle waits)
  tick_loop-starves fires (suc fuel) c u (v ∷ q) a h w =
      let (s, step, queues, idle, _) = pass_over fires c u (v ∷ q) a h (w.0 0) w.1 w.2 in
      let waits =
        StillWait-append ths fires c.event (length es) c.sched.idle_thread (v ∷ q) u w.3 w.0 w.1
          w.2 in
      step fuel
      ∙ tick_loop-starves (later fires) fuel (record c { sched = s }) v (q ++ u ∷ []) a queues
          (subst (λ i. StillWait ths (later fires) c.event (length es) i (v ∷ q ++ u ∷ []))
            (sym idle)
            (StillWait-later ths fires c.event (length es) c.sched.idle_thread (v ∷ q ++ u ∷ [])
              waits))

-- With all queues empty the idle thread, which waits for nothing, comes next.
pub tick_loop-idle :
    (ths : Threads) (fires : ℕ → Event → Ptr → Bool) (fuel : ℕ) (c : Cpu) (qs : List (List Ptr))
    → AllEmpty qs
    → HoldAll c.sched.prio_queues qs
    → c.event c.sched.idle_thread ≡ no_event
    → (d : Cpu) × (tick_loop (suc fuel) ths fires c ≡ some d) × Chosen c d c.sched.idle_thread qs
tick_loop-idle ths fires fuel c qs a h e =
    let chosen = choose_next-nil c.sched qs a h in
    let c' = record c { sched = choose_next c.sched } in
    let next : c'.sched.next_thread ≡ c.sched.idle_thread = rw chosen in
    let runs : can_run (fires 0) c.event c'.sched.next_thread ≡ true = rw (next, e) in
    let (_, sched, cr3, esp0, event) = sched_can_run-yes (fires 0) c' runs in
    (
      (sched_can_run (fires 0) c').1,
      tick_loop-stop fuel ths fires c runs,
      record {
        next = rw sched next;
        queues = rw (sched, chosen) h;
        event = λ u. event u ∙ rw next;
        idle = rw (sched, chosen);
        current = rw (sched, chosen);
        page_directory = cr3;
        stack = esp0;
      },
    )
