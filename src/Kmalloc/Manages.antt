-- ===== src/Kmalloc/Manages.antt =====
-- The allocator between its calls: the lists of its free blocks and the blocks in use.
use vsop.Base.{
  ℕ, zero, suc, ◌+◌, ◌-◌, ◌^◌, ◌≤◌, ◌<◌, ◌≡◌, ◌∙◌, sym, ◌⊎◌, inl, inr, List, [], ◌∷◌, ◌++◌, arith,
  length, some,
}
use native.Mathlib.Nat.{pow-le-pow_right}
use vsop.Kmalloc.{MemAllocator, alocators, node_count, list_get}
use vsop.Kmalloc.Weight.{Weight, Lists, total}
use vsop.Kmalloc.Puts.{Puts}
use vsop.Kmalloc.Ends.{put_fuel, list_put-Puts}
use vsop.Kmalloc.Covers.{cover, cover-Fair, cover-block, cover-spare, misaligned, misaligned-zero}
use vsop.Kmalloc.Takes.{Sound, Got}
use vsop.Kmalloc.Levels.{Takes, get_from-Takes, Puts-more}
use vsop.Kmalloc.Order.{IsOrder}

-- A block in use: its address and its list.
abbrev pub Block : Type 0
Block = ℕ × ℕ

unfoldable pub held : Weight → List Block → ℕ
held f [] = 0
held f (b ∷ bs) = f b.1 b.0 0 + held f bs

pub held-append : (f : Weight) (bs cs : List Block) → held f (bs ++ cs) ≡ held f bs + held f cs
unfolding held
held-append f [] cs = omega arith
held-append f (b ∷ bs) cs = omega (arith, held-append f bs cs)

-- No byte lies in two blocks, whether they are free or in use, all blocks stand at multiples of
-- their sizes, and byte 0 is in none.
pub record Manages (a : MemAllocator) (ls : Lists) (used : List Block) : Type 0 where
  pub sound : Sound a ls
  pub multiples : held misaligned used ≡ 0
  pub positive : held (cover 0) used ≡ 0
  pub once : (x : ℕ) → x < 2 ^ 32 → total (cover x) a.addr ls + held (cover x) used ≤ 1

-- The fuel that all lists need, with all nodes.
abbrev pub enough : ℕ
enough = put_fuel (node_count - 1) 15

put_fuel-le : (most levels all : ℕ) → levels ≤ all → put_fuel most levels ≤ put_fuel most all
put_fuel-le most zero zero h = omega arith
put_fuel-le most zero (suc all) h = omega (arith, put_fuel-le most zero all (omega arith))
put_fuel-le most (suc levels) zero h = absurd (omega arith)
put_fuel-le most (suc levels) (suc all) h = omega (arith, put_fuel-le most levels all (omega arith))

pub enough-Puts : (k fuel : ℕ) → 1 ≤ k → k < 16 → enough ≤ fuel → Puts k fuel (node_count - 1)
enough-Puts k fuel low high h =
    Puts-more k (put_fuel (node_count - 1) (15 - k)) fuel (node_count - 1)
      (omega (arith, put_fuel-le (node_count - 1) (15 - k) 15 (omega arith), h))
      (list_put-Puts (node_count - 1) (15 - k) k (omega arith) low (omega arith))

-- A size up to 2 ^ 18 has a list.
pub order_low : (size o : ℕ) → size ≤ 2 ^ 18 → IsOrder size o → o < 16
order_low size o h is = elim (low_or_high o) [
  | inl low ↦ low
  | inr high ↦ elim is.least [
    | inl e ↦ omega (arith, e)
    | inr more ↦
        let bound : 2 ^ 18 ≤ 2 ^ (o + 2) =
          pow-le-pow_right {n = 2} (omega arith) {i = 18} {j = o + 2} (omega arith) in
        absurd (omega (arith, more, bound, h))
  ]
]
  where
    low_or_high : (n : ℕ) → (n < 16) ⊎ (16 ≤ n)
    low_or_high n = ground arith

-- A block that is taken out of the lists comes into use.
pub Got-Manages :
    (a b : MemAllocator) (ls ms : Lists) (used : List Block) (k addr : ℕ)
    → 1 ≤ k
    → Manages a ls used
    → Got a b ls ms k addr
    → Manages b ms ((addr, k) ∷ used)
unfolding held
Got-Manages a b ls ms used k addr low m got = record {
  sound = got.sound;
  multiples =
      let own = (misaligned-zero k addr 0 low).1 got.multiple in omega (arith, own, m.multiples);
  positive =
      let gone = got.sum (cover 0) (cover-Fair 0) in
      let own : cover 0 k addr 0 ≡ cover 0 k addr got.node =
        cover-block 0 k addr 0 low ∙ sym (cover-block 0 k addr got.node low) in
      omega (arith, gone, own, m.sound.positive, m.positive, cover-spare 0 got.node);
  once = λ x bound.
      let gone = got.sum (cover x) (cover-Fair x) in
      let own : cover x k addr 0 ≡ cover x k addr got.node =
        cover-block x k addr 0 low ∙ sym (cover-block x k addr got.node low) in
      omega (arith, gone, own, m.once x bound, cover-spare x got.node);
}

-- list_get ends, on a sound allocator with nodes to spare.
pub list_get-Takes :
    (fuel k : ℕ) (a : MemAllocator) (ls : Lists)
    → 1 ≤ k
    → k < 16
    → enough ≤ fuel
    → Sound a ls
    → 14 ≤ length (ls 0)
    → (addr : ℕ) × (b : MemAllocator) × (list_get fuel a k ≡ some (addr, b))
      × Takes a b ls k (alocators - k) addr
unfolding list_get
list_get-Takes fuel k a ls low high h s spare =
    get_from-Takes (node_count - 1) fuel (alocators - k) k a ls (omega arith) low (omega arith)
      (omega (arith, put_fuel-le (node_count - 1) (alocators - k) 15 (omega arith), h)) s
      (omega (arith, s.every)) (omega arith)
