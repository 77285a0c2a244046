-- ===== src/LinkedList/Refine.antt =====
-- No sequence of calls tells a list from a queue of pointers.
use vsop.Base.{ℕ, zero, suc, ◌≡◌, refl, ◌≢◌, ap, ap₂, List, [], ◌∷◌, ◌++◌, arith}
use vsop.LinkedList.{
  Ptr, LinkedList, list_push, list_pop, list_prealloc, list_elem_delete, store, ListElem,
}
use vsop.LinkedList.Chain.{Cells, Chain-store, has-AreMade, AreMade-suc}
use vsop.LinkedList.Owns.{Owns, list_elem_delete-Owns}
use vsop.LinkedList.Queue.{Holds, list_push-Holds, list_pop-nil, list_pop-cons}

pub data Op : Type 0 where
  push : Ptr → Op
  pop : Op
  prealloc : ℕ → Op

-- What the pops of a run return.
unfoldable pub run : LinkedList → List Op → List Ptr
run l [] = []
run l (push t ∷ ops) = run (list_push l t) ops
run l (pop ∷ ops) = let (t, l') = list_pop l in t ∷ run l' ops
run l (prealloc n ∷ ops) = run (list_prealloc l n) ops

-- The same on a queue, where a pop of the empty queue returns null.
unfoldable pub run_queue : List Ptr → List Op → List Ptr
run_queue q [] = []
run_queue q (push t ∷ ops) = run_queue (q ++ t ∷ []) ops
run_queue [] (pop ∷ ops) = 0 ∷ run_queue [] ops
run_queue (t ∷ q) (pop ∷ ops) = t ∷ run_queue q ops
run_queue q (prealloc n ∷ ops) = run_queue q ops

-- The program pushes no null pointer.
abbrev pub PushesNoNull : List Op → Type 0
PushesNoNull [] = Unit
PushesNoNull (push t ∷ ops) = (t ≢ 0) × PushesNoNull ops
PushesNoNull (pop ∷ ops) = PushesNoNull ops
PushesNoNull (prealloc n ∷ ops) = PushesNoNull ops

-- A new element is in neither chain.
made-Owns :
    {l : LinkedList} {used unused : Cells} (e : ListElem)
    → Owns l used unused
    → Owns (record l { heap = store l.heap (suc l.made) e; made = suc l.made }) used unused
made-Owns {l} {used} {unused} e o =
    let out = has-AreMade l.made (suc l.made) in
    record {
      chain = Chain-store l.heap _ e l.head used (out used o.made (omega arith)) o.chain;
      spare = Chain-store l.heap _ e l.free unused (out unused o.spare_made (omega arith)) o.spare;
      distinct = o.distinct;
      spare_distinct = o.spare_distinct;
      apart = o.apart;
      made = AreMade-suc l.made used o.made;
      spare_made = AreMade-suc l.made unused o.spare_made;
      tail = o.tail;
    }

-- Elements made in advance change nothing that the list holds.
list_prealloc-Holds :
    (n : ℕ) {l : LinkedList} {ts : List Ptr} → Holds l ts → Holds (list_prealloc l n) ts
unfolding list_prealloc list_elem_delete
list_prealloc-Holds zero h = h
list_prealloc-Holds (suc n) {l} h =
    let out = has-AreMade l.made (suc l.made) in
    list_prealloc-Holds n (record {
      used = h.used;
      unused = (suc l.made, 0) ∷ h.unused;
      owns =
          list_elem_delete-Owns (suc l.made) (made-Owns (record { target = 0; next = 0 }) h.owns)
            (omega arith) (omega arith) (out h.used h.owns.made (omega arith))
            (out h.unused h.owns.spare_made (omega arith));
      content = h.content;
      size = h.size;
      nonnull = h.nonnull;
    })

-- A run of pushes, pops and preallocations returns what the queue of the list's pointers returns.
pub run_refines :
    (q : List Ptr) (ops : List Op) {l : LinkedList}
    → Holds l q
    → PushesNoNull ops
    → run l ops ≡ run_queue q ops
unfolding run run_queue
run_refines q [] h n = refl
run_refines q (push t ∷ ops) h n = run_refines (q ++ t ∷ []) ops (list_push-Holds t h n.0) n.1
run_refines [] (pop ∷ ops) h n = rw (list_pop-nil h) (ap (λ r. 0 ∷ r) (run_refines [] ops h n))
run_refines (t ∷ q) (pop ∷ ops) h n =
    let (result, rest) = list_pop-cons h in ap₂ ◌∷◌ result (run_refines q ops rest n)
run_refines q (prealloc k ∷ ops) h n = run_refines q ops (list_prealloc-Holds k h) n
