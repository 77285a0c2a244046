-- ===== src/Kmalloc/Calls.antt =====
-- mem_alloc, with the page that it asks for where no block is left, and runs of calls.
use vsop.Base.{
  ℕ, ◌+◌, ◌%◌, ◌^◌, ◌≤◌, ◌<◌, ◌≡◌, ◌≢◌, ◌∙◌, ap, ◌⊎◌, inl, inr, List, ◌∷◌, arith, length, some,
}
use vsop.Kmalloc.{MemAllocator, Heap, list_size, alloc_order, try_alloc}
use vsop.Kmalloc.Weight.{Lists, total}
use vsop.Kmalloc.Puts.{Lands}
use native.Mathlib.Nat.{pow-le-pow_right}
use vsop.Kmalloc.Covers.{misaligned-zero, cover, cover-Fair, cover-block, cover-spare, covers}
use vsop.Kmalloc.Takes.{Lacks}
use vsop.Kmalloc.Manages.{Block, held, Manages, enough, Got-Manages, list_get-Takes}
use vsop.Kmalloc.Order.{IsOrder}
use vsop.Kmalloc.Large.{try_alloc-order}

-- Either no list from the one of the size on has a block, and nothing changes, or the answer is a
-- block that holds the size, and comes into use.
abbrev pub Tried : (a b : MemAllocator) (ls : Lists) (used : List Block) (size k addr : ℕ) → Type 0
Tried a b ls used size k addr =
    ((addr ≡ 0) × (b ≡ a) × Lacks ls k)
    ⊎ ((ms : Lists) × (addr ≢ 0)
        × (addr % list_size k ≡ 0)
        × Manages b ms ((addr, k) ∷ used)
        × ((x : ℕ)
            → total (cover x) a.addr ls ≡ total (cover x) b.addr ms + covers x addr (list_size k))
        × (length (ls 0) ≤ length (ms 0) + 14))

pub try_alloc-Tried :
    (fuel : ℕ) (a : MemAllocator) (ls : Lists) (used : List Block) (size k : ℕ)
    → enough ≤ fuel
    → Manages a ls used
    → 14 ≤ length (ls 0)
    → k < 16
    → IsOrder size k
    → alloc_order size ≡ some k
    → (addr : ℕ) × (b : MemAllocator) × (try_alloc fuel a size ≡ some (addr, b))
      × Tried a b ls used size k addr
try_alloc-Tried fuel a ls used size k h m spare high is e =
    let s = m.sound in
    let (addr, b, done, takes) =
      list_get-Takes fuel k a ls is.first high h s (omega (arith, spare)) in
    (
      addr,
      b,
      try_alloc-order fuel a size k e ∙ done,
      elim takes [
        | inl nothing ↦ inl nothing
        | inr (ms, got, some_level, left) ↦ inr (
          ms,
          got.nonzero,
          got.multiple,
          Got-Manages a b ls ms used k addr is.first m got,
          (λ x.
              let own = cover-block x k addr got.node is.first in
              omega (arith, got.sum (cover x) (cover-Fair x), own, cover-spare x got.node)),
          omega (arith, left, is.first),
        )
      ],
    )

-- The heap from `start` to the break: every byte of a block lies there.
pub record Steady (h : Heap) (ls : Lists) (used : List Block) (start : ℕ) : Type 0 where
  pub manages : Manages h.allocator ls used
  pub page : h.heap % 4096 ≡ 0
  pub first : 1 ≤ start
  pub ordered : start ≤ h.heap
  pub within :
      (x : ℕ)
      → x < 2 ^ 32
      → (x < start) ⊎ (h.heap ≤ x)
      → total (cover x) h.allocator.addr ls + held (cover x) used ≡ 0

pub outside_page :
    (x addr : ℕ)
    → addr < 0xffc00000
    → (x < addr) ⊎ ((addr + 4096 ≤ x) × (x < 2 ^ 32))
    → covers x addr 4096 ≡ 0
outside_page x addr h (inl l) = ground arith
outside_page x addr h (inr l) = ground arith

-- The page at the break, as a block in use, is apart from all others.
pub page-Manages :
    (h : Heap) (ls : Lists) (used : List Block) (start : ℕ)
    → Steady h ls used start
    → h.heap < 0xffc00000
    → Manages h.allocator ls ((h.heap, 9) ∷ used)
unfolding held
page-Manages h ls used start s high =
    let m = s.manages in
    record {
      sound = m.sound;
      multiples =
          let own = (misaligned-zero 9 h.heap 0 (omega arith)).1 s.page in
          omega (arith, own, m.multiples);
      positive =
          let own = cover-block 0 9 h.heap 0 (omega arith) in
          let apart = outside_page 0 h.heap high (inl (omega (arith, s.first, s.ordered))) in
          omega (arith, own, apart, m.positive);
      once = λ x bound.
          let own = cover-block x 9 h.heap 0 (omega arith) in
          elim (below_or_above h.heap x) [
            | inl below ↦ omega (arith, own, outside_page x h.heap high (inl below), m.once x bound)
            | inr above ↦ omega (arith, own, covers-one x h.heap 4096, s.within x bound (inr above))
          ];
    }
  where
    covers-one : (x addr size : ℕ) → covers x addr size ≤ 1
    covers-one x addr size = ground arith

    below_or_above : (addr x : ℕ) → (x < addr) ⊎ (addr ≤ x)
    below_or_above addr x = ground arith

pub low_order : (size k : ℕ) → size ≤ 4096 → IsOrder size k → k ≤ 9
low_order size k h is = elim (low_or_high k) [
  | inl low ↦ low
  | inr high ↦ elim is.least [
    | inl e ↦ omega (arith, e)
    | inr more ↦
        let bound : 2 ^ 12 ≤ 2 ^ (k + 2) =
          pow-le-pow_right {n = 2} (omega arith) {i = 12} {j = k + 2} (omega arith) in
        absurd (omega (arith, more, bound, h))
  ]
]
  where
    low_or_high : (n : ℕ) → (n ≤ 9) ⊎ (10 ≤ n)
    low_or_high n = ground arith

pub Lacks-Lands : (ls : Lists) (k l : ℕ) → k ≤ l → Lacks ls k → Lands ls l → ⊥
Lacks-Lands ls k l h lacks (j, ge, lt, block) =
    let empty = ap length (lacks j (omega arith) lt) in omega (arith, empty, block)
