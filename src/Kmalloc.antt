-- ===== src/Kmalloc.antt =====
-- kernel/kmalloc.c, with kbrk of kernel/memory.c: the buddy allocator of the kernel. Its nodes are an
-- array, node 0 is the null pointer, and list `n` holds the free blocks of 2 ^ (n + 3) bytes by
-- address; list 0 holds the nodes that are not in use.
pub mod Order
pub mod Weight
pub mod Chains
pub mod Shape
pub mod Moves
pub mod Removal
pub mod Nodes
pub mod Runs
pub mod Puts
pub mod Merges
pub mod Cleans
pub mod Ends
pub mod Covers
pub mod Takes
pub mod Levels
pub mod Manages
pub mod Gives
pub mod Calls
pub mod Heaps
pub mod Allocs
pub mod Start
pub mod Reach
pub mod Large
pub mod Break
mod Tests
use vsop.Base.{
  ℕ, zero, suc, ◌+◌, ◌-◌, ◌*◌, ◌/◌, ◌%◌, ◌^◌, Bool, true, false, not, ◌&&◌, Option, none, some,
  ◌==◌, ltb, leb, if◌then◌else◌,
}
use vsop.Palloc.{Palloc, Result, spins, runs_off, returns, mem_phys_alloc}
use vsop.Paging.{Machine, ◌>>=◌, page_present, page_writable, paging_is_mapped, paging_map}

-- ALOCATORS and NODES
abbrev pub alocators : ℕ
alocators = 16

abbrev pub node_count : ℕ
node_count = (0x8000 - 2 * alocators) / 8

-- `struct mem_allocator`, with the fields of its nodes.
pub record MemAllocator : Type 0 where
  pub heads : ℕ → ℕ
  pub addr : ℕ → ℕ
  pub next : ℕ → ℕ

abbrev pub write_at : (ℕ → ℕ) → ℕ → ℕ → ℕ → ℕ
write_at f i v j = if i == j then v else f j

-- In the 32 bits of the source the size is 0 from list 29 on.
abbrev pub list_size : ℕ → ℕ
list_size list = 2 ^ (list + 3) % 2 ^ 32

unfoldable pub mem_allocator_init : MemAllocator
mem_allocator_init = record {
  heads = λ i. if i == 0 then 1 else 0;
  addr = λ i. 0;
  next = λ i. if i == node_count - 1 then 0 else i + 1;
}

unfoldable pub node_new : MemAllocator → ℕ → ℕ × MemAllocator
node_new a addr =
    let res = a.heads 0 in
    (
      res,
      record a {
        heads = write_at a.heads 0 (a.next res);
        addr = write_at a.addr res addr;
        next = write_at a.next res 0;
      },
    )

unfoldable pub node_free : MemAllocator → ℕ → MemAllocator
node_free a node = record a {
  next = write_at a.next node (a.heads 0);
  addr = write_at a.addr node 0;
  heads = write_at a.heads 0 node;
}

-- The loop of `list_put`, on fuel: the nodes before and behind the place of the new one.
unfoldable pub place_from : ℕ → MemAllocator → ℕ → ℕ → ℕ → Option (ℕ × ℕ)
place_from zero a new_node prev cur = none
place_from (suc fuel) a new_node prev cur =
    let rest = place_from fuel a new_node cur (a.next cur) in
    if not (cur == 0) && ltb (a.addr cur) (a.addr new_node) then rest else some (prev, cur)

-- The end of `list_put`, and of a merge in `list_clean`: what `prev`, or the list, leads to.
abbrev pub link : MemAllocator → ℕ → ℕ → ℕ → MemAllocator
link a list prev node =
    if prev == 0
    then record a { heads = write_at a.heads list node }
    else record a { next = write_at a.next prev node }

abbrev pub put_between : MemAllocator → ℕ → ℕ → ℕ × ℕ → MemAllocator
put_between a list new_node place =
    link (record a { next = write_at a.next new_node place.1 }) list place.0 new_node

-- The test of `list_clean`: the block of `cur` is the lower half of one, and `next` the upper half.
abbrev pub is_buddy : MemAllocator → ℕ → ℕ → ℕ → Bool
is_buddy a list cur next =
    not (next == 0)
    && ((a.addr cur % list_size (list + 1) == 0)
        && ((a.addr cur + list_size list) % 2 ^ 32 == a.addr next))

-- `list_put`, and the loop of `list_clean` at `cur`, on fuel for the calls of one another.
unfoldable mutual
  unfolding place_from

  pub list_put : ℕ → MemAllocator → ℕ → ℕ → Option MemAllocator
  list_put zero a list new_node = none
  list_put (suc fuel) a list new_node = elim (place_from node_count a new_node 0 (a.heads list)) [
    | none ↦ none
    | some place ↦
        let a' = put_between a list new_node place in
        elim (ltb list (alocators - 1)) [
          | true ↦ clean_from fuel a' list 0 (a'.heads list)
          | false ↦ some a'
        ]
  ]

  pub clean_from : ℕ → MemAllocator → ℕ → ℕ → ℕ → Option MemAllocator
  clean_from zero a list prev cur = none
  clean_from (suc fuel) a list prev cur =
      let next = a.next cur in
      elim (cur == 0) [
        | true ↦ some a
        | false ↦ elim (is_buddy a list cur next) [
          | true ↦ elim (list_put fuel (link a list prev (a.next next)) (list + 1) cur) [
            | none ↦ none
            | some a' ↦ clean_from fuel (node_free a' next) list prev (a'.next next)
          ]
          | false ↦ clean_from fuel a list cur next
        ]
      ]

-- `list_get`, over the `levels` lists from `list` on, with the fuel of `list_put`.
unfoldable pub get_from : ℕ → ℕ → MemAllocator → ℕ → Option (ℕ × MemAllocator)
unfolding node_new node_free list_put
get_from fuel zero a list = some (0, a)
get_from fuel (suc levels) a list =
    let elem = a.heads list in
    elim (elem == 0) [
      | false ↦
          some
            (a.addr elem, node_free (record a { heads = write_at a.heads list (a.next elem) }) elem)
      | true ↦ elim (get_from fuel levels a (list + 1)) [
        | none ↦ none
        | some r ↦ elim (r.0 == 0) [
          | true ↦ some r
          | false ↦
              let new = node_new r.1 ((r.0 + list_size (list + 1) / 2) % 2 ^ 32) in
              elim (list_put fuel new.1 list new.0) [ none ↦ none | some a' ↦ some (r.0, a') ]
        ]
      ]
    ]

unfoldable pub list_get : ℕ → MemAllocator → ℕ → Option (ℕ × MemAllocator)
unfolding get_from
list_get fuel a list = get_from fuel (alocators - list) a list

-- The allocator, the kernel's break and the memory.
pub record Heap : Type 0 where
  pub allocator : MemAllocator
  pub heap : ℕ
  pub machine : Machine

-- `paging_map(heap, mem_phys_alloc(), ...)`
unfoldable pub map_page : Machine → ℕ → Option Machine
unfolding mem_phys_alloc paging_map
map_page m heap = elim (mem_phys_alloc m.palloc) [
  | spins ↦ none
  | runs_off ↦ none
  | returns page p ↦ paging_map (record m { palloc = p }) heap page (page_present + page_writable)
]

-- `kbrk`: the old break and the heap behind it.
unfoldable pub break_from : ℕ → Heap → Option Heap
unfolding paging_is_mapped map_page
break_from zero h = some h
break_from (suc pages) h = do
  mapped ← paging_is_mapped h.machine h.heap
  m ← if mapped then some h.machine else map_page h.machine h.heap
  break_from pages (record h { heap = (h.heap + 4096) % 2 ^ 32; machine = m })

unfoldable pub kbrk : ℕ → Heap → Option (ℕ × Heap)
unfolding break_from
kbrk pages h = do h' ← break_from pages h; some (h.heap, h')

-- The loop of `mem_alloc` from list `i` on, with its `block_size`, for `count` rounds.
unfoldable pub order_from : ℕ → ℕ → ℕ → ℕ → Option ℕ
order_from size i block_size zero = none
order_from size i block_size (suc count) =
    let rest = order_from size (i + 1) (block_size * 2 % 2 ^ 32) count in
    if leb size block_size then some i else rest

-- The list that `mem_alloc` takes a block from.
unfoldable pub alloc_order : ℕ → Option ℕ
unfolding order_from
alloc_order size = order_from size 1 (list_size 1) (node_count - 1)

-- What `mem_alloc` gets from its list, 0 where it has none.
unfoldable pub try_alloc : ℕ → MemAllocator → ℕ → Option (ℕ × MemAllocator)
unfolding alloc_order list_get
try_alloc fuel a size = elim (alloc_order size) [ none ↦ some (0, a) | some i ↦ list_get fuel a i ]

-- `mem_alloc`, which calls itself again behind a new page, on fuel.
unfoldable pub mem_alloc : ℕ → Heap → ℕ → Option (ℕ × Heap)
unfolding try_alloc kbrk node_new list_put
mem_alloc zero h size = none
mem_alloc (suc fuel) h size = do
  r ← try_alloc fuel h.allocator size
  let h' = record h { allocator = r.1 }
  elim (r.0 == 0) [
    | false ↦ some (r.0, h')
    | true ↦ do
      b ← kbrk 1 h'
      let new = node_new b.1.allocator b.0
      a ← list_put fuel new.1 9 new.0
      mem_alloc fuel (record b.1 { allocator = a }) size
  ]

-- The loop of `mem_free` from list `i` on, on fuel.
unfoldable pub free_from : ℕ → ℕ → ℕ → ℕ → Option ℕ
free_from zero size i block_size = none
free_from (suc fuel) size i block_size =
    let rest = free_from fuel size ((i + 1) % 2 ^ 8) (block_size * 2 % 2 ^ 32) in
    if ltb block_size size then rest else some i

-- The list that `mem_free` puts a block into.
unfoldable pub free_order : ℕ → ℕ → Option ℕ
unfolding free_from
free_order fuel size = free_from fuel size 1 (list_size 1)

unfoldable pub mem_free : ℕ → MemAllocator → ℕ → ℕ → Option MemAllocator
unfolding node_new free_order list_put
mem_free fuel a addr size = do
  let new = node_new a addr
  i ← free_order fuel size
  list_put fuel new.1 i new.0
