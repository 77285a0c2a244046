-- ===== src/Kmalloc/Tests.antt =====
-- The heap at its start, in a directory of the running kernel, and the theorems at it.
use vsop.Base.{ℕ, ◌<◌, ◌≤◌, ◌≡◌, refl, ◌∙◌, none, some, arith}
use vsop.Base.{◌+◌, ◌%◌, ◌^◌, [], ◌∷◌, length}
use vsop.Paging.Boot.{running, one_page, one_page-free, running-one_page}
use vsop.Paging.Lookup.{translate}
use vsop.Kmalloc.{MemAllocator, list_size, order_from, mem_free}
use vsop.Kmalloc.Weight.{Lists, total}
use vsop.Kmalloc.Covers.{cover, covers, cover-block, list_size-Bounds}
use vsop.Kmalloc.Manages.{held, Manages}
use vsop.Kmalloc.Gives.{mem_free_lem}
use vsop.Kmalloc.Calls.{Steady, page-Manages}
use vsop.Kmalloc.Allocs.{Serves, mem_alloc_lem}
use vsop.Kmalloc.Start.{start_lists, start-spare, start-Steady}
use vsop.Kmalloc.Reach.{
  Reach, begun, allocated, unused, unused-Steady, Reach-Steady, Reach-apart, Reach-within,
}
use vsop.Kmalloc.{Heap, mem_allocator_init, alloc_order, mem_alloc, kbrk, node_new, list_put}
use vsop.Kmalloc.Large.{mem_alloc-diverges}
use vsop.Paging.{◌>>=◌}
use vsop.Kmalloc.Break.{Grown, kbrk_lem}

abbrev heap : Heap
heap = record { allocator = mem_allocator_init; heap = 0xC3000000; machine = running one_page }

nothing_mapped : translate (running one_page) 0xC3000000 ≡ none
unfolding translate
nothing_mapped = refl

kbrk_lem_example : (g : Heap) × (kbrk 1 heap ≡ some (0xC3000000, g)) × Grown heap g
kbrk_lem_example =
    kbrk_lem heap 70 running-one_page (omega arith) refl nothing_mapped (omega arith) one_page-free

mem_alloc-diverges_example :
    (mem_alloc 6 heap 300000 ≡ (
      kbrk 1 heap >>= (λ b.
        let new = node_new b.1.allocator b.0 in
        list_put 5 new.1 9 new.0 >>= (λ a. mem_alloc 5 (record b.1 { allocator = a }) 300000))))
    × (mem_alloc 5 heap 300000 ≡ none)
mem_alloc-diverges_example = mem_alloc-diverges 5 heap 300000 (omega arith) (omega arith)

-- The heap at its start, and a call of mem_alloc on it.
heap-Steady : Steady heap start_lists [] 0xC3000000
heap-Steady = start-Steady heap refl refl (omega arith)

nodes_spare : 15 ≤ length (start_lists 0)
nodes_spare = omega (arith, start-spare)

nodes_unused : 15 ≤ unused heap.allocator
nodes_unused = omega (arith, unused-Steady heap start_lists [] 0xC3000000 heap-Steady, nodes_spare)

order_100 : alloc_order 100 ≡ some 4
unfolding alloc_order order_from
order_100 = refl

order_4096 : alloc_order 4096 ≡ some 9
unfolding alloc_order order_from
order_4096 = refl

first_call : Serves 100000 heap [] 0xC3000000 100 4
first_call =
    mem_alloc_lem 100000 heap start_lists [] 0xC3000000 100 4 70 (omega arith) heap-Steady
      nodes_spare (omega arith) order_100 running-one_page (omega arith) refl nothing_mapped
      (omega arith) one_page-free

first_byte : (k addr : ℕ) → 1 ≤ k → k < 16 → cover (addr % 2 ^ 32) k addr 0 ≡ 1
first_byte k addr low high =
    let size = list_size-Bounds k high in
    cover-block (addr % 2 ^ 32) k addr 0 low ∙ at_once (list_size k) size.0
  where
    at_once : (size : ℕ) → 1 ≤ size → covers (addr % 2 ^ 32) addr size ≡ 1
    at_once size h = ground arith

one_call : Reach heap first_call.1 ((first_call.0, 4) ∷ [])
one_call =
    allocated 100000 heap first_call.1 [] 100 4 first_call.0 begun (omega arith) nodes_unused
      (omega arith) (omega arith) order_100 first_call.3

mem_alloc_lem_example : Serves 100000 heap [] 0xC3000000 100 4
mem_alloc_lem_example =
    mem_alloc_lem 100000 heap start_lists [] 0xC3000000 100 4 70 (omega arith) heap-Steady
      nodes_spare (omega arith) order_100 running-one_page (omega arith) refl nothing_mapped
      (omega arith) one_page-free

mem_free_lem_example :
    (b : MemAllocator) × (ms : Lists) × (mem_free 100000 mem_allocator_init 0xC3000000 4096
      ≡ some b)
    × Manages b ms []
    × ((x : ℕ)
        → total (cover x) b.addr ms
          ≡ total (cover x) mem_allocator_init.addr start_lists + covers x 0xC3000000 (list_size 9))
mem_free_lem_example =
    mem_free_lem 100000 mem_allocator_init start_lists [] [] 0xC3000000 4096 9 (omega arith)
      (page-Manages heap start_lists [] 0xC3000000 heap-Steady (omega arith))
      (omega (arith, nodes_spare)) (omega arith) order_4096

Reach-Steady_example : (ls : Lists) × Steady first_call.1 ls ((first_call.0, 4) ∷ []) 0xC3000000
Reach-Steady_example =
    Reach-Steady heap first_call.1 ((first_call.0, 4) ∷ []) 0xC3000000 (start_lists, heap-Steady)
      one_call

Reach-apart_example : held (cover (first_call.0 % 2 ^ 32)) [] ≡ 0
Reach-apart_example =
    Reach-apart heap first_call.1 [] [] 4 first_call.0 (first_call.0 % 2 ^ 32) refl refl
      (omega arith) one_call (omega arith) (first_byte 4 first_call.0 (omega arith) (omega arith))

Reach-within_example :
    (0xC3000000 ≤ first_call.0 % 2 ^ 32) × (first_call.0 % 2 ^ 32 < first_call.1.heap)
Reach-within_example =
    Reach-within heap first_call.1 [] [] 4 first_call.0 (first_call.0 % 2 ^ 32) refl refl
      (omega arith) one_call (omega arith) (first_byte 4 first_call.0 (omega arith) (omega arith))
