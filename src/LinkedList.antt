-- ===== src/LinkedList.antt =====
-- kernel/list.c: a singly linked list of pointers that keeps its used elements for later pushes.
-- The elements of a list never leave it, so each list has a heap of its own elements: element `p` is
-- the `p`-th that `NEW` has made for it, and 0 is the null pointer. The bodies stand here between
-- `list_lock` and `list_unlock`, as one step each.
pub mod Chain
pub mod Owns
pub mod Queue
pub mod Refine
mod Tests
use vsop.Base.{ℕ, zero, suc, ◌+◌, ◌-◌, ◌==◌, if◌then◌else◌}

abbrev pub Ptr : Type 0
Ptr = ℕ

-- `struct list_elem`
pub record ListElem : Type 0 where
  pub target : Ptr
  pub next : Ptr

-- `struct list`, with its elements and how many have been made.
pub record LinkedList : Type 0 where
  pub heap : Ptr → ListElem
  pub made : ℕ
  pub size : ℕ
  pub head : Ptr
  pub tail : Ptr
  pub free : Ptr

abbrev pub store : (Ptr → ListElem) → Ptr → ListElem → Ptr → ListElem
store h p e q = if p == q then e else h q

-- A list in zeroed memory.
abbrev pub no_elems : LinkedList
no_elems = record {
  heap = λ p. record { target = 0; next = 0 };
  made = 0;
  size = 0;
  head = 0;
  tail = 0;
  free = 0;
}

-- `list_elem_new`, in its two cases: a used element, or a new one.
unfoldable pub list_elem_new : LinkedList → Ptr → Ptr × LinkedList
list_elem_new l target =
    let e : ListElem = record { target = target; next = 0 } in
    if l.free == 0
    then (suc l.made, record l { heap = store l.heap (suc l.made) e; made = suc l.made })
    else (l.free, record l { heap = store l.heap l.free e; free = (l.heap l.free).next })

unfoldable pub list_elem_delete : LinkedList → Ptr → LinkedList
list_elem_delete l e = record l {
  heap = store l.heap e (record { target = 0; next = l.free });
  free = e;
}

-- `list_push` once it has its element.
unfoldable pub link_last : LinkedList → Ptr → LinkedList
link_last l elem =
    if l.tail == 0 then record l { head = elem; tail = elem; size = l.size + 1 } else record l {
      heap = store l.heap l.tail (record { target = (l.heap l.tail).target; next = elem });
      tail = elem;
      size = l.size + 1;
    }

unfoldable pub list_push : LinkedList → Ptr → LinkedList
unfolding list_elem_new link_last
list_push l target = let (elem, l') = list_elem_new l target in link_last l' elem

-- `list_pop` up to `if (elem)`: the first element is unlinked.
unfoldable pub unlink_first : LinkedList → LinkedList
unlink_first l =
    if l.head == l.tail
    then record l { head = 0; tail = 0 }
    else record l { head = (l.heap l.head).next }

-- `list_pop` from `if (elem)` on.
unfoldable pub take_target : LinkedList → Ptr → Ptr × LinkedList
unfolding list_elem_delete
take_target l elem =
    let result = (l.heap elem).target in
    let l' = list_elem_delete l elem in
    if elem == 0
    then (0, l)
    else (if result == 0 then (0, l') else (result, record l' { size = l'.size - 1 }))

unfoldable pub list_pop : LinkedList → Ptr × LinkedList
unfolding unlink_first take_target
list_pop l = if l.size == 0 then (0, l) else take_target (unlink_first l) l.head

-- `list_prealloc(this, count)`
unfoldable pub list_prealloc : LinkedList → ℕ → LinkedList
unfolding list_elem_delete
list_prealloc l zero = l
list_prealloc l (suc count) =
    let e : ListElem = record { target = 0; next = 0 } in
    let l' = record l { heap = store l.heap (suc l.made) e; made = suc l.made } in
    list_prealloc (list_elem_delete l' (suc l.made)) count
