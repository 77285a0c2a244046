-- ===== src/Kmalloc/Allocs.antt =====
-- mem_alloc of sizes up to a page, with at most one page more.
use vsop.Base.{
  ℕ, suc, ◌+◌, ◌-◌, ◌/◌, ◌^◌, ◌≤◌, ◌<◌, ◌≡◌, refl, ◌∙◌, sym, ap, ◌⊎◌, inl, inr, List, [], true,
  arith, length, Option, none, some, some_inj,
}
use mathlib.Core.Path.{subst}
use vsop.Palloc.{pages}
use vsop.Palloc.Bounds.{is_free}
use vsop.Paging.{is_present}
use vsop.Paging.Walk.{dir_entry}
use vsop.Paging.Lookup.{translate}
use vsop.Paging.Mapping.{IsOwned}
use vsop.Kmalloc.{Heap, node_new, list_put, alloc_order, try_alloc, mem_alloc, kbrk}
use vsop.Kmalloc.Weight.{Lists}
use vsop.Kmalloc.Manages.{Block, enough}
use vsop.Kmalloc.Gives.{list_put-Given, Manages-block}
use vsop.Kmalloc.Calls.{Steady, page-Manages, low_order, Lacks-Lands}
use vsop.Kmalloc.Heaps.{
  alloc-tried, mem_alloc-page, mem_alloc-stuck, page-Steady, kbrk-Moved, Served,
}
use vsop.Kmalloc.Order.{IsOrder, alloc_order-free_order}
use vsop.Kmalloc.Break.{kbrk_lem}

pub alloc_order-IsOrder : (size k : ℕ) → size ≤ 2 ^ 31 → alloc_order size ≡ some k → IsOrder size k
alloc_order-IsOrder size k h e =
    let (o, is, alloc, free) = alloc_order-free_order size h in
    subst (IsOrder size) (some_inj (sym alloc ∙ e)) is

-- What mem_alloc answers, with the heap that it leaves.
abbrev pub Serves : ℕ → Heap → List Block → ℕ → ℕ → ℕ → Type 0
Serves fuel h used start size k =
    (addr : ℕ) × (g : Heap) × (ms : Lists) × (mem_alloc fuel h size ≡ some (addr, g))
    × Served g ms used start k addr

module _ (fuel : ℕ) (h : Heap) (ls : Lists) (used : List Block) (start size k : ℕ)
    (enough_fuel : enough ≤ fuel) (s : Steady h ls used start) (spare : 15 ≤ length (ls 0))
    (small : size ≤ 4096) (order : alloc_order size ≡ some k) where
  is_order : IsOrder size k
  is_order = alloc_order-IsOrder size k (omega (arith, small)) order

  -- With the page of kbrk there is a block.
  page_serves :
      (g : Heap)
      → h.heap < 0xffc00000
      → try_alloc (suc fuel) h.allocator size ≡ some (0, h.allocator)
      → kbrk 1 h ≡ some (h.heap, g)
      → Serves (suc (suc fuel)) h used start size k
  page_serves g high missed grown =
      let (_, same, moved) = kbrk-Moved h g h.heap grown in
      let (multiple, positive) =
        Manages-block h.allocator ls [] used 9 h.heap (omega arith)
          (page-Manages h ls used start s high) in
      let (c, ms, put, given) =
        list_put-Given (suc fuel) h.allocator ls 9 h.heap s.manages.sound (omega (arith, spare))
          (omega arith) (omega arith) (omega (arith, enough_fuel)) multiple positive in
      let put' =
        subst (λ a. list_put (suc fuel) (node_new a h.heap).1 9 (node_new a h.heap).0 ≡ some c)
          (sym same) put in
      let t = page-Steady h g c ls ms used start s high same moved given in
      let again = mem_alloc-page (suc fuel) h g c size missed grown put' in
      elim (alloc-tried fuel (record g { allocator = c }) ms used start size k enough_fuel t
        (omega (arith, low_order size k small is_order)) is_order order
        (omega (arith, spare, given.spare))) [
          | inl (addr, g', ns, done, served) ↦ (addr, g', ns, again ∙ done, served)
          | inr (_, lacks) ↦
              absurd (Lacks-Lands ms k 9 (low_order size k small is_order) lacks given.lands)
        ]

  pub serves :
      (g : Heap)
      → h.heap < 0xffc00000
      → kbrk 1 h ≡ some (h.heap, g)
      → Serves (suc (suc fuel)) h used start size k
  serves g high grown =
      elim (alloc-tried (suc fuel) h ls used start size k (omega (arith, enough_fuel)) s
        (omega (arith, low_order size k small is_order)) is_order order (omega (arith, spare))) [
          | inl served ↦ served
          | inr (missed, _) ↦ page_serves g high missed grown
        ]

  -- Whatever mem_alloc answers is served.
  pub answer-Served :
      (addr : ℕ) (g : Heap)
      → h.heap < 0xffc00000
      → mem_alloc (suc (suc fuel)) h size ≡ some (addr, g)
      → (ms : Lists) × Served g ms used start k addr
  answer-Served addr g high e =
      elim (alloc-tried (suc fuel) h ls used start size k (omega (arith, enough_fuel)) s
        (omega (arith, low_order size k small is_order)) is_order order (omega (arith, spare))) [
          | inl served ↦ is_answer served
          | inr (missed, _) ↦ elim (break_cases (kbrk 1 h)) [
            | inl stuck ↦ absurd (no_answer missed stuck)
            | inr (p, g', grown) ↦
                let (same, _, _) = kbrk-Moved h g' p grown in
                is_answer (page_serves g' high missed (grown ∙ ap (λ q. some (q, g')) same))
          ]
        ]
    where
      is_answer :
          Serves (suc (suc fuel)) h used start size k → (ms : Lists) × Served g ms used start k addr
      is_answer (addr', g', ms, e', served) =
          let same = some_inj (sym e' ∙ e) in
          (ms, subst (λ (r : ℕ × Heap). Served r.1 ms used start k r.0) same served)

      break_cases :
          (o : Option (ℕ × Heap)) → (o ≡ none) ⊎ ((p : ℕ) × (g' : Heap) × (o ≡ some (p, g')))
      break_cases none = inl refl
      break_cases (some (p, g')) = inr (p, g', refl)

      no_answer :
          try_alloc (suc fuel) h.allocator size ≡ some (0, h.allocator) → kbrk 1 h ≡ none → ⊥
      no_answer missed stuck = let stays = mem_alloc-stuck (suc fuel) h size missed stuck in cc

-- On a heap whose blocks lie apart from each other between its start and the break, with 15 nodes to
-- spare, in an owned directory with the table of the break and no page at it, and with a page free,
-- mem_alloc of at most 4096 bytes returns: the answer is not null and a multiple of the size of its
-- list, and its block lies apart from all other blocks, free ones and those in use, within the heap
-- that mem_alloc leaves.
pub mem_alloc_lem :
    (fuel : ℕ) (h : Heap) (ls : Lists) (used : List Block) (start size k page : ℕ)
    → enough + 2 ≤ fuel
    → Steady h ls used start
    → 15 ≤ length (ls 0)
    → size ≤ 4096
    → alloc_order size ≡ some k
    → IsOwned h.machine
    → h.heap < 0xffc00000
    → is_present (dir_entry h.machine (h.heap / 2 ^ 22)) ≡ true
    → translate h.machine h.heap ≡ none
    → page < pages
    → is_free h.machine.palloc page ≡ 1
    → Serves fuel h used start size k
mem_alloc_lem fuel h ls used start size k page enough_fuel s spare small order owned high table
      absent inside free =
    let (g, grown, _) = kbrk_lem h page owned high table absent inside free in
    let same : suc (suc (fuel - 2)) ≡ fuel = omega arith in
    subst (λ n. Serves n h used start size k) same
      (serves (fuel - 2) h ls used start size k (omega arith) s spare small order g high grown)
