-- ===== src/Scheduler/Queues.antt =====
-- The ready queues of a scheduler as lists of threads.
use vsop.Base.{ℕ, zero, suc, ◌≡◌, refl, ◌≢◌, ap, List, [], ◌∷◌, ◌++◌, arith, length}
use vsop.LinkedList.{Ptr, LinkedList, list_pop}
use vsop.LinkedList.Queue.{Holds, list_push-Holds, list_pop-nil, list_pop-cons}
use vsop.Scheduler.{Scheduler, Threads, push_at, scheduler_put_back, pick_from}

-- Each list holds the threads of the queue at its place.
abbrev pub HoldAll : List LinkedList → List (List Ptr) → Type 0
HoldAll [] [] = Unit
HoldAll [] (q ∷ qs) = ⊥
HoldAll (l ∷ ls) [] = ⊥
HoldAll (l ∷ ls) (q ∷ qs) = Holds l q × HoldAll ls qs

-- Thread `t` behind the others of queue `p`.
abbrev pub enqueue : List (List Ptr) → ℕ → Ptr → List (List Ptr)
enqueue [] p t = []
enqueue (q ∷ qs) zero t = (q ++ t ∷ []) ∷ qs
enqueue (q ∷ qs) (suc p) t = q ∷ enqueue qs p t

pub push_at-HoldAll :
    (ls : List LinkedList) (qs : List (List Ptr)) (p : ℕ) (t : Ptr)
    → HoldAll ls qs
    → t ≢ 0
    → HoldAll (push_at ls p t) (enqueue qs p t)
push_at-HoldAll [] [] p t h n = tt
push_at-HoldAll [] (q ∷ qs) p t h n = absurd h
push_at-HoldAll (l ∷ ls) [] p t h n = absurd h
push_at-HoldAll (l ∷ ls) (q ∷ qs) zero t h n = (list_push-Holds t h.0 n, h.1)
push_at-HoldAll (l ∷ ls) (q ∷ qs) (suc p) t h n = (h.0, push_at-HoldAll ls qs p t h.1 n)

-- The empty queues in front of the first that is not.
abbrev pub AllEmpty : List (List Ptr) → Type 0
AllEmpty [] = Unit
AllEmpty (q ∷ qs) = (q ≡ []) × AllEmpty qs

pick_from-some :
    (l : LinkedList) (ls : List LinkedList)
    → (list_pop l).0 ≢ 0
    → pick_from (l ∷ ls) ≡ ((list_pop l).0, (list_pop l).1 ∷ ls)
unfolding pick_from
pick_from-some l ls n = ground arith

-- `scheduler_pick` takes the first thread of the first queue that has one.
pub pick_from-cons :
    (es : List (List Ptr)) (t : Ptr) (q : List Ptr) (qs : List (List Ptr)) (ls : List LinkedList)
    → AllEmpty es
    → HoldAll ls (es ++ (t ∷ q) ∷ qs)
    → ((pick_from ls).0 ≡ t) × HoldAll (pick_from ls).1 (es ++ q ∷ qs)
unfolding pick_from
pick_from-cons [] t q qs [] a h = absurd h
pick_from-cons [] t q qs (l ∷ ls) a h =
    let (result, rest) = list_pop-cons h.0 in
    let found : (list_pop l).0 ≢ 0 = rw result (h.0.nonnull.0) in
    rw (pick_from-some l ls found) (result, (rest, h.1))
pick_from-cons (e ∷ es) t q qs [] a h = absurd h
pick_from-cons (e ∷ es) t q qs (l ∷ ls) a h =
    let empty : Holds l [] = rw a.0 at h.0 in
    let (result, rest) = pick_from-cons es t q qs ls a.1 h.1 in
    rw (list_pop-nil empty) (result, (h.0, rest))

-- With all queues empty it finds none and changes nothing.
pub pick_from-nil :
    (qs : List (List Ptr)) (ls : List LinkedList)
    → AllEmpty qs
    → HoldAll ls qs
    → pick_from ls ≡ (0, ls)
unfolding pick_from
pick_from-nil [] [] a h = refl
pick_from-nil [] (l ∷ ls) a h = absurd h
pick_from-nil (q ∷ qs) [] a h = absurd h
pick_from-nil (q ∷ qs) (l ∷ ls) a h =
    let empty : Holds l [] = rw a.0 at h.0 in rw (list_pop-nil empty, pick_from-nil qs ls a.1 h.1)

-- The thread that is put back is not the idle thread: it goes behind the others of its priority.
pub put_back-HoldAll :
    (ths : Threads) (s : Scheduler) (t : Ptr) (qs : List (List Ptr))
    → t ≢ 0
    → t ≢ s.idle_thread
    → HoldAll s.prio_queues qs
    → (scheduler_put_back ths s t
        ≡ record s { prio_queues = push_at s.prio_queues (ths.priority t) t })
      × HoldAll (scheduler_put_back ths s t).prio_queues (enqueue qs (ths.priority t) t)
unfolding scheduler_put_back
put_back-HoldAll ths s t qs n m h =
    let e : scheduler_put_back ths s t
        ≡ record s { prio_queues = push_at s.prio_queues (ths.priority t) t } =
      ground arith in
    (e, rw e (push_at-HoldAll s.prio_queues qs (ths.priority t) t h n))

-- A thread that goes behind the others of the first queue that is not empty.
pub enqueue-append :
    (es : List (List Ptr)) (q : List Ptr) (qs : List (List Ptr)) (t : Ptr)
    → enqueue (es ++ q ∷ qs) (length es) t ≡ es ++ (q ++ t ∷ []) ∷ qs
enqueue-append [] q qs t = refl
enqueue-append (e ∷ es) q qs t = ap (λ r. e ∷ r) (enqueue-append es q qs t)
