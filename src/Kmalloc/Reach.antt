-- ===== src/Kmalloc/Reach.antt =====
-- Runs of mem_alloc and mem_free, with the blocks that are in use.
use vsop.Base.{
  ℕ, zero, suc, ◌+◌, ◌-◌, ◌%◌, ◌^◌, ◌≤◌, ◌<◌, ◌≡◌, refl, ◌∙◌, sym, ap, ◌⊎◌, inl, inr, List, [], ◌∷◌,
  ◌++◌, ◌==◌, if◌then◌else◌, true, false, arith, length, some, some_inj,
}
use mathlib.Core.Path.{subst}
use vsop.Kmalloc.{
  MemAllocator, Heap, mem_allocator_init, node_count, alloc_order, mem_alloc, mem_free,
}
use vsop.Kmalloc.Weight.{Lists}
use vsop.Kmalloc.Chains.{Chain}
use vsop.Kmalloc.Puts.{length-le-total}
use vsop.Kmalloc.Covers.{cover, cover-block}
use vsop.Kmalloc.Manages.{Block, held, held-append, enough}
use vsop.Kmalloc.Gives.{mem_free_lem}
use vsop.Kmalloc.Calls.{Steady}
use vsop.Kmalloc.Allocs.{answer-Served, alloc_order-IsOrder}
use vsop.Kmalloc.Start.{start_lists, start-Steady}

-- How many nodes are not in use.
abbrev pub unused_from : ℕ → (ℕ → ℕ) → ℕ → ℕ
unused_from zero next n = 0
unused_from (suc fuel) next n =
    let rest = unused_from fuel next (next n) in if n == 0 then 0 else suc rest

abbrev pub unused : MemAllocator → ℕ
unused a = unused_from node_count a.next (a.heads 0)

-- The heaps and the blocks in use that calls reach from a heap, each call with 15 nodes to spare.
pub data Reach (first : Heap) : Heap → List Block → Type 0 where
  begun : Reach first first []
  allocated :
      (fuel : ℕ) (h g : Heap) (used : List Block) (size k addr : ℕ)
      → Reach first h used
      → enough + 2 ≤ fuel
      → 15 ≤ unused h.allocator
      → h.heap < 0xffc00000
      → size ≤ 4096
      → alloc_order size ≡ some k
      → mem_alloc fuel h size ≡ some (addr, g)
      → Reach first g ((addr, k) ∷ used)
  freed :
      (fuel : ℕ) (h : Heap) (a : MemAllocator) (front back : List Block) (size k addr : ℕ)
      → Reach first h (front ++ (addr, k) ∷ back)
      → enough ≤ fuel
      → 15 ≤ unused h.allocator
      → size ≤ 2 ^ 18
      → alloc_order size ≡ some k
      → mem_free fuel h.allocator addr size ≡ some a
      → Reach first (record h { allocator = a }) (front ++ back)

unused-length :
    (fuel : ℕ) (next : ℕ → ℕ) (n : ℕ) (ns : List ℕ)
    → Chain next n ns 0
    → length ns ≤ fuel
    → unused_from fuel next n ≡ length ns
unused-length zero next n [] s h = refl
unused-length zero next n (m ∷ ns) s h = absurd (omega arith)
unused-length (suc fuel) next n [] s h = let z : (n == 0) ≡ true = ground (arith, s) in rw z refl
unused-length (suc fuel) next n (m ∷ ns) (here, nonzero, rest) h =
    let z : (n == 0) ≡ false = ground (arith, here, nonzero) in
    let same = ap next here in
    let more =
      unused-length fuel next (next n) ns (subst (λ c. Chain next c ns 0) (sym same) rest)
        (omega arith) in
    rw z (omega (arith, more))

pub unused-Steady :
    (h : Heap) (ls : Lists) (used : List Block) (start : ℕ)
    → Steady h ls used start
    → unused h.allocator ≡ length (ls 0)
unused-Steady h ls used start s =
    let a = h.allocator in
    let sound = s.manages.sound in
    unused-length node_count a.next (a.heads 0) (ls 0) (sound.shape.chains 0 (omega arith))
      (omega (arith, length-le-total a.addr ls 0 (omega arith), sound.every))

-- What is free again was in use.
freed-Steady :
    (fuel : ℕ) (h : Heap) (a : MemAllocator) (ls : Lists) (front back : List Block)
    (start size k addr : ℕ)
    → Steady h ls (front ++ (addr, k) ∷ back) start
    → enough ≤ fuel
    → 15 ≤ length (ls 0)
    → size ≤ 2 ^ 18
    → alloc_order size ≡ some k
    → mem_free fuel h.allocator addr size ≡ some a
    → (ms : Lists) × Steady (record h { allocator = a }) ms (front ++ back) start
unfolding held
freed-Steady fuel h a ls front back start size k addr s f spare small order e =
    let is = alloc_order-IsOrder size k (omega (arith, small)) order in
    let (b, ms, done, m, free) =
      mem_free_lem fuel h.allocator ls front back addr size k f s.manages (omega (arith, spare))
        small order in
    let same = some_inj (sym done ∙ e) in
    let there : Steady (record h { allocator = b }) ms (front ++ back) start = record {
      manages = m;
      page = s.page;
      first = s.first;
      ordered = s.ordered;
      within = λ x bound out.
          let own = cover-block x k addr 0 is.first in
          omega (
            arith,
            free x,
            own,
            s.within x bound out,
            held-append (cover x) front ((addr, k) ∷ back),
            held-append (cover x) front back,
          );
    } in
    (ms, subst (λ c. Steady (record h { allocator = c }) ms (front ++ back) start) same there)

-- Whatever calls of mem_alloc, of at most 4096 bytes, and of mem_free for blocks in use have run, in
-- any order, each with 15 nodes to spare and each mem_alloc with the break below the windows of the
-- tables, from a heap with nothing in use whose free blocks lie apart: all blocks, the free ones and
-- those in use, still stand at multiples of their sizes within the heap, and no byte lies in two.
pub Reach-Steady :
    (first h : Heap) (used : List Block) (start : ℕ)
    → (ms : Lists) × Steady first ms [] start
    → Reach first h used
    → (ls : Lists) × Steady h ls used start
Reach-Steady first h used start s begun = s
Reach-Steady first g used start s
      (allocated fuel h g' used' size k addr r f spare high small order e) =
    let (ls, t) = Reach-Steady first h used' start s r in
    let same : suc (suc (fuel - 2)) ≡ fuel = omega arith in
    let (ms, served) =
      answer-Served (fuel - 2) h ls used' start size k (omega arith) t
        (omega (arith, spare, unused-Steady h ls used' start t)) small order addr g' high
        (ap (λ n. mem_alloc n h size) same ∙ e) in
    (ms, served.steady)
Reach-Steady first g used start s (freed fuel h a front back size k addr r f spare small order e) =
    let all = front ++ (addr, k) ∷ back in
    let (ls, t) = Reach-Steady first h all start s r in
    freed-Steady fuel h a ls front back start size k addr t f
      (omega (arith, spare, unused-Steady h ls all start t)) small order e

module _ (first h : Heap) (front back : List Block) (k addr x : ℕ)
    (fresh : first.allocator ≡ mem_allocator_init) (page : first.heap % 4096 ≡ 0)
    (low : 1 ≤ first.heap) (r : Reach first h (front ++ (addr, k) ∷ back)) (bound : x < 2 ^ 32)
    (here : cover x k addr 0 ≡ 1) where
  reached : (ls : Lists) × Steady h ls (front ++ (addr, k) ∷ back) first.heap
  reached =
      Reach-Steady first h (front ++ (addr, k) ∷ back) first.heap
        (start_lists, start-Steady first fresh page low) r

  -- From an allocator as mem_allocator_init leaves it, with the break at a page boundary that is not
  -- 0: whatever calls of Reach have run, a byte of a block in use is in no other block in use.
  pub Reach-apart : held (cover x) (front ++ back) ≡ 0
  unfolding held
  Reach-apart =
      let (ls, s) = reached in
      omega (
        arith,
        s.manages.once x bound,
        held-append (cover x) front ((addr, k) ∷ back),
        held-append (cover x) front back,
        here,
      )

  -- From an allocator as mem_allocator_init leaves it, with the break at a page boundary that is not
  -- 0: whatever calls of Reach have run, a byte of a block in use lies from the first break on and
  -- below the present one.
  pub Reach-within : (first.heap ≤ x) × (x < h.heap)
  unfolding held
  Reach-within =
      let (ls, s) = reached in
      let all = held-append (cover x) front ((addr, k) ∷ back) in
      elim (within_or_out first.heap h.heap x) [
        | inl inside ↦ inside
        | inr out ↦ absurd (omega (arith, s.within x bound out, all, here))
      ]
    where
      within_or_out : (low high y : ℕ) → ((low ≤ y) × (y < high)) ⊎ ((y < low) ⊎ (high ≤ y))
      within_or_out low high y = ground arith
