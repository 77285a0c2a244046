-- ===== src/Kmalloc/Large.antt =====
-- Sizes that no list has blocks for.
use vsop.Base.{
  ℕ, zero, suc, ◌+◌, ◌-◌, ◌^◌, ◌≤◌, ◌<◌, ◌≡◌, refl, ◌∙◌, ap, ◌⊎◌, inl, inr, Option, none, some,
  arith,
}
use native.Mathlib.Nat.{pow-le-pow_right}
use vsop.Paging.{◌>>=◌}
use vsop.Kmalloc.{
  MemAllocator, Heap, node_new, list_put, list_get, get_from, kbrk, alloc_order, try_alloc,
  mem_alloc, alocators,
}
use vsop.Kmalloc.Order.{IsOrder, alloc_order-free_order}

bind-none {ℓ} :
    {A B : Type ℓ} (o : Option A) (f : A → Option B) → ((a : A) → f a ≡ none) → (o >>= f) ≡ none
bind-none none f h = refl
bind-none (some a) f h = h a

-- A size above 2 ^ 18 belongs to a list that there is not.
large-order : (size o : ℕ) → 2 ^ 18 < size → IsOrder size o → alocators ≤ o
large-order size o h is = elim (below_or_above o) [
  | inl low ↦
      let bound : 2 ^ (o + 3) ≤ 2 ^ 18 =
        pow-le-pow_right {n = 2} (omega arith) {i = o + 3} {j = 18} (omega arith) in
      absurd (omega (arith, is.fits, bound, h))
  | inr high ↦ high
]
  where
    below_or_above : (n : ℕ) → (n ≤ 15) ⊎ (16 ≤ n)
    below_or_above n = ground arith

list_get-large :
    (fuel : ℕ) (a : MemAllocator) (o : ℕ) → alocators ≤ o → list_get fuel a o ≡ some (0, a)
unfolding list_get get_from
list_get-large fuel a o h =
    let e : alocators - o ≡ 0 = omega arith in ap (λ n. get_from fuel n a o) e

pub try_alloc-order :
    (fuel : ℕ) (a : MemAllocator) (size o : ℕ)
    → alloc_order size ≡ some o
    → try_alloc fuel a size ≡ list_get fuel a o
unfolding try_alloc
try_alloc-order fuel a size o h = rw (h, try_alloc) refl

try_alloc-large :
    (fuel : ℕ) (a : MemAllocator) (size : ℕ)
    → 2 ^ 18 < size
    → size ≤ 2 ^ 31
    → try_alloc fuel a size ≡ some (0, a)
try_alloc-large fuel a size h k =
    let (o, is, e, free) = alloc_order-free_order size k in
    try_alloc-order fuel a size o e ∙ list_get-large fuel a o (large-order size o h is)

pub mem_alloc-again :
    (fuel : ℕ) (h : Heap) (size : ℕ)
    → try_alloc fuel h.allocator size ≡ some (0, h.allocator)
    → mem_alloc (suc fuel) h size ≡ (
        kbrk 1 h >>= (λ b.
          let new = node_new b.1.allocator b.0 in
          list_put fuel new.1 9 new.0
          >>= (λ a. mem_alloc fuel (record b.1 { allocator = a }) size)))
unfolding mem_alloc
mem_alloc-again fuel h size e = rw (e, mem_alloc) refl

mem_alloc-none :
    (fuel : ℕ) (h : Heap) (size : ℕ) → 2 ^ 18 < size → size ≤ 2 ^ 31 → mem_alloc fuel h size ≡ none
unfolding mem_alloc
mem_alloc-none zero h size low high = refl
mem_alloc-none (suc fuel) h size low high =
    mem_alloc-again fuel h size (try_alloc-large fuel h.allocator size low high)
    ∙ bind-none (kbrk 1 h) _ (λ b.
      bind-none (list_put fuel (node_new b.1.allocator b.0).1 9 (node_new b.1.allocator b.0).0) _
        (λ a. mem_alloc-none fuel (record b.1 { allocator = a }) size low high))

-- For a size above 2 ^ 18 up to 2 ^ 31 mem_alloc finds no block, adds one page to the heap, puts it
-- in list 9 and calls itself again; it does not return, whatever the fuel.
pub mem_alloc-diverges :
    (fuel : ℕ) (h : Heap) (size : ℕ)
    → 2 ^ 18 < size
    → size ≤ 2 ^ 31
    → (mem_alloc (suc fuel) h size ≡ (
        kbrk 1 h >>= (λ b.
          let new = node_new b.1.allocator b.0 in
          list_put fuel new.1 9 new.0
          >>= (λ a. mem_alloc fuel (record b.1 { allocator = a }) size))))
      × (mem_alloc fuel h size ≡ none)
mem_alloc-diverges fuel h size low high = (
  mem_alloc-again fuel h size (try_alloc-large fuel h.allocator size low high),
  mem_alloc-none fuel h size low high,
)
