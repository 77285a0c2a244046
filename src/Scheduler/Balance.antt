-- ===== src/Scheduler/Balance.antt =====
-- How a thread that is ready is given to a processor.
use vsop.Base.{
  ℕ, zero, suc, ◌+◌, ◌≤◌, ◌<◌, ◌≡◌, refl, ◌≢◌, ◌⊎◌, inl, inr, List, [], ◌∷◌, true, false, arith,
  length, set, get_or, ltb, ◌&&◌, get_or-set_self, get_or-set_ne, ◌∙◌,
}
use vsop.LinkedList.{Ptr}
use vsop.Scheduler.{
  Scheduler, Threads, find_from, scheduler_find, add_thread, sched_thread_ready, fresh_scheduler,
}
use vsop.Scheduler.Queues.{HoldAll, enqueue, push_at-HoldAll}

-- No started scheduler of the list has a load below the bound.
abbrev pub NoLess : List Scheduler → ℕ → Type 0
NoLess ss bound =
    (j : ℕ) (d : Scheduler)
    → j < length ss
    → (get_or ss j d).started ≡ true
    → bound ≤ (get_or ss j d).load

-- Place `k` of the list has a started scheduler of a load below the bound, the lowest there.
record Lower (ss : List Scheduler) (bound k : ℕ) : Type 0 where
  inside : k < length ss
  started : (d : Scheduler) → (get_or ss k d).started ≡ true
  lower : (d : Scheduler) → (get_or ss k d).load < bound
  least : (d : Scheduler) → NoLess ss ((get_or ss k d).load)

NoLess-cons :
    (s : Scheduler) (ss : List Scheduler) (bound : ℕ)
    → (s.started ≡ true → bound ≤ s.load)
    → NoLess ss bound
    → NoLess (s ∷ ss) bound
NoLess-cons s ss bound first rest zero d p q = first q
NoLess-cons s ss bound first rest (suc j) d p q = rest j d (omega arith) q

NoLess-le : (ss : List Scheduler) (a b : ℕ) → a ≤ b → NoLess ss b → NoLess ss a
NoLess-le ss a b le all j d p q = omega (arith, le, all j d p q)

find_from-better :
    (s : Scheduler) (ss : List Scheduler) (i best lowest : ℕ)
    → s.started ≡ true
    → s.load < lowest
    → find_from (s ∷ ss) i best lowest ≡ find_from ss (i + 1) i s.load
unfolding find_from
find_from-better s ss i best lowest a b = ground arith

find_from-same :
    (s : Scheduler) (ss : List Scheduler) (i best lowest : ℕ)
    → (s.started && ltb s.load lowest) ≡ false
    → find_from (s ∷ ss) i best lowest ≡ find_from ss (i + 1) best lowest
unfolding find_from
find_from-same s ss i best lowest a = ground arith

find_from-nil : (i best lowest : ℕ) → find_from [] i best lowest ≡ best
unfolding find_from
find_from-nil i best lowest = refl

better-cases :
    (s : Scheduler) (lowest : ℕ)
    → ((s.started ≡ true) × (s.load < lowest))
      ⊎ (((s.started && ltb s.load lowest) ≡ false) × (s.started ≡ true → lowest ≤ s.load))
better-cases s lowest = ground arith

-- The loop keeps the best it has, or takes the first that is strictly lower than all others.
find_from-cases :
    (ss : List Scheduler) (i best lowest : ℕ)
    → ((find_from ss i best lowest ≡ best) × NoLess ss lowest)
      ⊎ ((k : ℕ) × (find_from ss i best lowest ≡ i + k) × Lower ss lowest k)
find_from-cases [] i best lowest =
    inl (find_from-nil i best lowest, λ j d p q. absurd (omega arith))
find_from-cases (s ∷ ss) i best lowest = elim (better-cases s lowest) [
  | inl b ↦ elim (find_from-cases ss (i + 1) i s.load) [
    | inl h ↦ inr (
      0,
      omega (arith, find_from-better s ss i best lowest b.0 b.1, h.0),
      record {
        inside = omega arith;
        started = λ d. b.0;
        lower = λ d. b.1;
        least = λ d. NoLess-cons s ss s.load (λ x. omega arith) h.1;
      },
    )
    | inr h ↦ inr (
      suc h.0,
      omega (arith, find_from-better s ss i best lowest b.0 b.1, h.1),
      record {
        inside = omega (arith, h.2.inside);
        started = h.2.started;
        lower = λ d. omega (arith, h.2.lower d, b.1);
        least = λ d.
            NoLess-cons s ss ((get_or ss h.0 d).load) (λ x. omega (arith, h.2.lower d))
              (h.2.least d);
      },
    )
  ]
  | inr b ↦ elim (find_from-cases ss (i + 1) best lowest) [
    | inl h ↦ inl (find_from-same s ss i best lowest b.0 ∙ h.0, NoLess-cons s ss lowest b.1 h.1)
    | inr h ↦ inr (
      suc h.0,
      omega (arith, find_from-same s ss i best lowest b.0, h.1),
      record {
        inside = omega (arith, h.2.inside);
        started = h.2.started;
        lower = h.2.lower;
        least = λ d.
            NoLess-cons s ss ((get_or ss h.0 d).load) (λ x. omega (arith, h.2.lower d, b.1 x))
              (h.2.least d);
      },
    )
  ]
]

-- The scheduler at place `i` is the first processor's or has started, and no such scheduler has a
-- lower load.
abbrev pub LeastLoaded : List Scheduler → Scheduler → ℕ → Type 0
LeastLoaded ss d i =
    (i < length ss)
    × (i ≢ 0 → (get_or ss i d).started ≡ true)
    × ((j : ℕ)
        → j < length ss
        → (j ≡ 0) ⊎ ((get_or ss j d).started ≡ true)
        → (get_or ss i d).load ≤ (get_or ss j d).load)

scheduler_find-cons :
    (s : Scheduler) (ss : List Scheduler) → scheduler_find (s ∷ ss) ≡ find_from ss 1 0 s.load
unfolding scheduler_find
scheduler_find-cons s ss = refl

found_first : (s d : Scheduler) (ss : List Scheduler) → NoLess ss s.load → LeastLoaded (s ∷ ss) d 0
found_first s d ss h = (omega arith, λ n. absurd (n refl), least)
  where
    least :
        (j : ℕ)
        → j < length (s ∷ ss)
        → (j ≡ 0) ⊎ ((get_or (s ∷ ss) j d).started ≡ true)
        → s.load ≤ (get_or (s ∷ ss) j d).load
    least zero p q = omega arith
    least (suc j) p (inl q) = absurd (omega arith)
    least (suc j) p (inr q) = h j d (omega arith) q

found_later :
    (s d : Scheduler) (ss : List Scheduler) (k : ℕ)
    → Lower ss s.load k
    → LeastLoaded (s ∷ ss) d (suc k)
found_later s d ss k h = (omega (arith, h.inside), λ n. h.started d, least)
  where
    least :
        (j : ℕ)
        → j < length (s ∷ ss)
        → (j ≡ 0) ⊎ ((get_or (s ∷ ss) j d).started ≡ true)
        → (get_or ss k d).load ≤ (get_or (s ∷ ss) j d).load
    least zero p q = omega (arith, h.lower d)
    least (suc j) p (inl q) = absurd (omega arith)
    least (suc j) p (inr q) = h.least d j d (omega arith) q

found_place : {r k : ℕ} → r ≡ 1 + k → r ≡ suc k
found_place e = omega (arith, e)

scheduler_find-LeastLoaded :
    (s d : Scheduler) (ss : List Scheduler) → LeastLoaded (s ∷ ss) d (scheduler_find (s ∷ ss))
scheduler_find-LeastLoaded s d ss = elim (find_from-cases ss 1 0 s.load) [
  | inl h ↦ rw (scheduler_find-cons s ss, h.0) (found_first s d ss h.1)
  | inr h ↦ rw (scheduler_find-cons s ss, found_place h.1) (found_later s d ss h.0 h.2)
]

sched_thread_ready-eq :
    (ths : Threads) (ss : List Scheduler) (t i : ℕ)
    → scheduler_find ss ≡ i
    → sched_thread_ready ths ss t ≡ set ss i (add_thread ths (get_or ss i (fresh_scheduler 0)) t)
unfolding sched_thread_ready
sched_thread_ready-eq ths ss t i e = rw e refl

get_or_default :
    (ss : List Scheduler) (i : ℕ) (d e : Scheduler) → i < length ss → get_or ss i d ≡ get_or ss i e
get_or_default [] i d e p = absurd (omega arith)
get_or_default (s ∷ ss) zero d e p = refl
get_or_default (s ∷ ss) (suc i) d e p = get_or_default ss i d e (omega arith)

add_thread-queues :
    (ths : Threads) (s : Scheduler) (t : Ptr) (rows : List (List Ptr))
    → t ≢ 0
    → HoldAll s.prio_queues rows
    → HoldAll (add_thread ths s t).prio_queues (enqueue rows (ths.priority t) t)
      × ((add_thread ths s t).load ≡ s.load + 1)
unfolding add_thread
add_thread-queues ths s t rows n h =
    (push_at-HoldAll s.prio_queues rows (ths.priority t) t h n, refl)

-- A thread that becomes ready goes behind the others of its priority on one scheduler, whose load
-- rises by one: the first processor's or a started one, such that no other of those has a lower
-- load. The other schedulers do not change.
pub sched_thread_ready_lem :
    (ths : Threads) (s d : Scheduler) (ss : List Scheduler) (t : Ptr) (rows : List (List Ptr))
    → t ≢ 0
    → HoldAll (get_or (s ∷ ss) (scheduler_find (s ∷ ss)) d).prio_queues rows
    → let i = scheduler_find (s ∷ ss) in
      let after = get_or (sched_thread_ready ths (s ∷ ss) t) i d in
      LeastLoaded (s ∷ ss) d i
      × HoldAll after.prio_queues (enqueue rows (ths.priority t) t)
      × (after.load ≡ (get_or (s ∷ ss) i d).load + 1)
      × ((j : ℕ) → i ≢ j → get_or (sched_thread_ready ths (s ∷ ss) t) j d ≡ get_or (s ∷ ss) j d)
sched_thread_ready_lem ths s d ss t rows n h =
    let i = scheduler_find (s ∷ ss) in
    let least = scheduler_find-LeastLoaded s d ss in
    let old = get_or (s ∷ ss) i d in
    let new = add_thread ths old t in
    let e : sched_thread_ready ths (s ∷ ss) t ≡ set (s ∷ ss) i new =
      rw (get_or_default (s ∷ ss) i d (fresh_scheduler 0) least.0)
        (sched_thread_ready-eq ths (s ∷ ss) t i refl) in
    let after : get_or (sched_thread_ready ths (s ∷ ss) t) i d ≡ new =
      rw e (get_or-set_self (s ∷ ss) i new d least.0) in
    let (queues, load) = add_thread-queues ths old t rows n h in
    (least, rw after queues, rw after load, λ j ne. rw e (get_or-set_ne (s ∷ ss) i j new d ne))
