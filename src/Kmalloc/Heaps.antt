-- ===== src/Kmalloc/Heaps.antt =====
-- mem_alloc from the heap and the pages behind it.
use vsop.Base.{
  ℕ, suc, ◌+◌, ◌%◌, ◌^◌, ◌≤◌, ◌<◌, ◌≡◌, refl, ◌≢◌, ◌∙◌, sym, ap, ◌⊎◌, inl, inr, List, [], ◌∷◌, ◌==◌,
  Bool, true, false, if◌then◌else◌, arith, length, Option, none, some, some_inj,
}
use vsop.Paging.{Machine, ◌>>=◌, paging_is_mapped}
use vsop.Kmalloc.{
  MemAllocator, Heap, list_size, node_new, list_put, alloc_order, try_alloc, mem_alloc, kbrk,
  break_from, map_page,
}
use vsop.Kmalloc.Weight.{Lists, total}
use vsop.Kmalloc.Covers.{cover, cover-Fair, cover-block, cover-spare, covers}
use vsop.Kmalloc.Manages.{Block, held, Manages, enough}
use vsop.Kmalloc.Gives.{Given, Given-Manages}
use vsop.Kmalloc.Calls.{try_alloc-Tried, Steady, page-Manages, outside_page}
use vsop.Kmalloc.Order.{IsOrder}
use vsop.Kmalloc.Large.{mem_alloc-again}

nonzero_case :
    (addr : ℕ) (hit miss : Option (ℕ × Heap))
    → addr ≢ 0
    → (elim (addr == 0) [ false ↦ hit | true ↦ miss ]) ≡ hit
nonzero_case addr hit miss n = let z : (addr == 0) ≡ false = ground (arith, n) in rw z refl

mem_alloc-hit :
    (fuel : ℕ) (h : Heap) (b : MemAllocator) (size addr : ℕ)
    → try_alloc fuel h.allocator size ≡ some (addr, b)
    → addr ≢ 0
    → mem_alloc (suc fuel) h size ≡ some (addr, record h { allocator = b })
unfolding mem_alloc
mem_alloc-hit fuel h b size addr e n =
    rw (e, mem_alloc) (nonzero_case addr (some (addr, record h { allocator = b })) _ n)

pub mem_alloc-page :
    (fuel : ℕ) (h g : Heap) (c : MemAllocator) (size : ℕ)
    → try_alloc fuel h.allocator size ≡ some (0, h.allocator)
    → kbrk 1 h ≡ some (h.heap, g)
    → list_put fuel (node_new g.allocator h.heap).1 9 (node_new g.allocator h.heap).0 ≡ some c
    → mem_alloc (suc fuel) h size ≡ mem_alloc fuel (record g { allocator = c }) size
mem_alloc-page fuel h g c size e k p =
    mem_alloc-again fuel h size e
    ∙ ap
        (λ r. r >>= (λ b.
          let new = node_new b.1.allocator b.0 in
          list_put fuel new.1 9 new.0
          >>= (λ a. mem_alloc fuel (record b.1 { allocator = a }) size)))
        k
    ∙ ap (λ r. r >>= (λ a. mem_alloc fuel (record g { allocator = a }) size)) p

pub mem_alloc-stuck :
    (fuel : ℕ) (h : Heap) (size : ℕ)
    → try_alloc fuel h.allocator size ≡ some (0, h.allocator)
    → kbrk 1 h ≡ none
    → mem_alloc (suc fuel) h size ≡ none
mem_alloc-stuck fuel h size e k =
    mem_alloc-again fuel h size e
    ∙ ap
        (λ r. r >>= (λ b.
          let new = node_new b.1.allocator b.0 in
          list_put fuel new.1 9 new.0
          >>= (λ a. mem_alloc fuel (record b.1 { allocator = a }) size)))
        k

moved_on : Heap → Machine → Heap
moved_on h m = record h { heap = (h.heap + 4096) % 2 ^ 32; machine = m }

Moved : Heap → Heap → Type 0
Moved h g = (g.allocator ≡ h.allocator) × (g.heap ≡ (h.heap + 4096) % 2 ^ 32)

Moved-last :
    (h g : Heap) (m : Option Machine) → (m >>= (λ n. some (moved_on h n))) ≡ some g → Moved h g
unfolding Moved moved_on
Moved-last h g none e = absurd (cc)
Moved-last h g (some n) e =
    let same = some_inj e in (ap (λ r. r.allocator) (sym same), ap (λ r. r.heap) (sym same))

Moved-from :
    (h g : Heap) (mapped : Option Bool) (map : Bool → Option Machine)
    → (mapped >>= (λ b. map b >>= (λ m. some (moved_on h m)))) ≡ some g
    → Moved h g
Moved-from h g none map e = absurd (cc)
Moved-from h g (some b) map e = Moved-last h g (map b) e

answered : ℕ → Heap → Option (ℕ × Heap)
answered p g = some (p, g)

kbrk_last :
    (h g r : Heap) (p : ℕ) (o : Option Heap)
    → (o >>= answered h.heap) ≡ some (p, r)
    → (p ≡ h.heap) × (o ≡ some r)
unfolding answered
kbrk_last h g r p none e = absurd (cc)
kbrk_last h g r p (some x) e =
    let same = some_inj e in (sym (ap (λ q. q.0) same), ap (λ q. some q.1) same)

-- kbrk of a page answers the break and moves it, whatever the page leads to.
pub kbrk-Moved :
    (h g : Heap) (p : ℕ)
    → kbrk 1 h ≡ some (p, g)
    → (p ≡ h.heap) × (g.allocator ≡ h.allocator) × (g.heap ≡ (h.heap + 4096) % 2 ^ 32)
unfolding kbrk break_from Moved moved_on answered
kbrk-Moved h g p e =
    let (same, run) = kbrk_last h h g p (break_from 1 h) e in
    let (allocator, heap) =
      Moved-from h g (paging_is_mapped h.machine h.heap)
        (λ mapped. if mapped then some h.machine else map_page h.machine h.heap) run in
    (same, allocator, heap)

-- A block from the lists, with no new page.
Tried-Steady :
    (h : Heap) (b : MemAllocator) (ls ms : Lists) (used : List Block) (start k addr : ℕ)
    → 1 ≤ k
    → Steady h ls used start
    → Manages b ms ((addr, k) ∷ used)
    → ((x : ℕ)
        → total (cover x) h.allocator.addr ls
          ≡ total (cover x) b.addr ms + covers x addr (list_size k))
    → Steady (record h { allocator = b }) ms ((addr, k) ∷ used) start
unfolding held
Tried-Steady h b ls ms used start k addr low s m free = record {
  manages = m;
  page = s.page;
  first = s.first;
  ordered = s.ordered;
  within = λ x bound out.
      let own = cover-block x k addr 0 low in omega (arith, s.within x bound out, free x, own);
}

-- A page more, with its block in the lists.
pub page-Steady :
    (h g : Heap) (b : MemAllocator) (ls ms : Lists) (used : List Block) (start : ℕ)
    → Steady h ls used start
    → h.heap < 0xffc00000
    → g.allocator ≡ h.allocator
    → g.heap ≡ (h.heap + 4096) % 2 ^ 32
    → Given h.allocator b ls ms 9 h.heap
    → Steady (record g { allocator = b }) ms used start
page-Steady h g b ls ms used start s high same moved given =
    let page = s.page in
    let next : g.heap ≡ h.heap + 4096 = omega (arith, moved) in
    record {
      manages =
          Given-Manages h.allocator b ls ms [] used 9 h.heap (omega arith)
            (page-Manages h ls used start s high) given;
      page = omega (arith, next, page);
      first = s.first;
      ordered = omega (arith, next, s.ordered);
      within = λ x bound out.
          let own = cover-block x 9 h.heap given.node (omega arith) in
          let (far, near) = beyond x (omega (arith, bound)) (rw next at out) in
          omega (
            arith,
            given.sum (cover x) (cover-Fair x),
            cover-spare x given.node,
            own,
            outside_page x h.heap high far,
            s.within x bound near,
          );
    }
  where
    beyond :
        (x : ℕ)
        → x < 2 ^ 32
        → (x < start) ⊎ (h.heap + 4096 ≤ x)
        → ((x < h.heap) ⊎ ((h.heap + 4096 ≤ x) × (x < 2 ^ 32))) × ((x < start) ⊎ (h.heap ≤ x))
    beyond x bound (inl l) = (inl (omega (arith, l, s.ordered)), inl l)
    beyond x bound (inr l) = (inr (l, bound), inr (omega arith))

-- What an answer of mem_alloc is: a block of list `k` at a multiple of its size, in use.
pub record Served (g : Heap) (ms : Lists) (used : List Block) (start k addr : ℕ) : Type 0 where
  pub nonzero : addr ≢ 0
  pub multiple : addr % list_size k ≡ 0
  pub steady : Steady g ms ((addr, k) ∷ used) start

module _ (fuel : ℕ) (h : Heap) (ls : Lists) (used : List Block) (start size k : ℕ)
    (enough_fuel : enough ≤ fuel) (s : Steady h ls used start) (high : k < 16) (is : IsOrder size k)
    (order : alloc_order size ≡ some k) where
  -- Without a page, the answer of the lists is that of mem_alloc.
  pub alloc-tried :
      14 ≤ length (ls 0)
      → ((addr : ℕ) × (g : Heap) × (ms : Lists) × (mem_alloc (suc fuel) h size ≡ some (addr, g))
          × Served g ms used start k addr)
        ⊎ ((try_alloc fuel h.allocator size ≡ some (0, h.allocator))
            × ((j : ℕ) → k ≤ j → j < 16 → ls j ≡ []))
  alloc-tried spare =
      let (addr, b, done, tried) =
        try_alloc-Tried fuel h.allocator ls used size k enough_fuel s.manages spare high is order in
      elim tried [
        | inl (zero_addr, same, lacks) ↦
            inr (done ∙ ap (λ r. some (r, b)) zero_addr ∙ ap (λ c. some (0, c)) same, lacks)
        | inr (ms, nonzero, multiple, m, free, left) ↦ inl (
          addr,
          record h { allocator = b },
          ms,
          mem_alloc-hit fuel h b size addr done nonzero,
          record {
            nonzero = nonzero;
            multiple = multiple;
            steady = Tried-Steady h b ls ms used start k addr is.first s m free;
          },
        )
      ]
