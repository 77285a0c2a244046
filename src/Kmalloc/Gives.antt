-- ===== src/Kmalloc/Gives.antt =====
-- A block with a new node that enters the lists, as mem_free and mem_alloc have it, and mem_free.
use vsop.Base.{
  ℕ, ◌+◌, ◌%◌, ◌^◌, ◌≤◌, ◌<◌, ◌≡◌, refl, ◌∙◌, sym, ap, List, [], ◌∷◌, ◌++◌, arith, length, some,
  some_inj,
}
use mathlib.Core.Path.{subst}
use vsop.Kmalloc.{MemAllocator, list_size, node_new, list_put, alloc_order, free_order, mem_free}
use vsop.Kmalloc.Weight.{Weight, Lists, with_list, one_if, total, with_list_self, with_list-ne}
use vsop.Kmalloc.Nodes.{node_new-Renewed}
use vsop.Kmalloc.Puts.{each, each-Mergeable, Put, Lands}
use vsop.Kmalloc.Covers.{
  Fair, cover, cover-Fair, cover-block, cover-spare, covers, misaligned, misaligned-Fair,
  misaligned-zero,
}
use vsop.Kmalloc.Takes.{Sound}
use vsop.Kmalloc.Manages.{Block, held, held-append, Manages, enough, enough-Puts, order_low}
use vsop.Kmalloc.Order.{IsOrder, alloc_order-free_order}

-- The lists have the block at `addr` as well, in list `k` or merged with others.
pub record Given (a b : MemAllocator) (ls ms : Lists) (k addr : ℕ) : Type 0 where
  pub sound : Sound b ms
  pub node : ℕ
  pub sum :
      (f : Weight) → Fair f → total f b.addr ms + f 0 0 node ≡ total f a.addr ls + f k addr node
  pub below : (j : ℕ) → 1 ≤ j → j < k → ms j ≡ ls j
  pub spare : length (ls 0) ≤ length (ms 0) + 1
  pub lands : Lands ms k

some_node : (ns : List ℕ) → 1 ≤ length ns → (m : ℕ) × (rest : List ℕ) × (ns ≡ m ∷ rest)
some_node [] h = absurd (omega arith)
some_node (m ∷ rest) h = (m, rest, refl)

Put-Given :
    (a b c : MemAllocator) (ls ms : Lists) (k addr m : ℕ) (rest : List ℕ)
    → 1 ≤ k
    → Sound a ls
    → addr % list_size k ≡ 0
    → cover 0 k addr m ≡ 0
    → ls 0 ≡ m ∷ rest
    → ((f : Weight) → total f a.addr ls ≡ total f b.addr (with_list ls 0 rest) + f 0 (a.addr m) m)
    → b.addr m ≡ addr
    → Put b c (with_list ls 0 rest) ms k m
    → Given a c ls ms k addr
Put-Given a b c ls ms k addr m rest low s multiple positive e taken address p =
    let left = with_list ls 0 rest in
    let sum : (f : Weight) → Fair f → total f c.addr ms + f 0 0 m ≡ total f a.addr ls + f k addr m =
      λ f g.
        let own : f k (b.addr m) m ≡ f k addr m = ap (λ x. f k x m) address in
        omega (arith, taken f, p.sum f g.merges, g.flat (a.addr m) m, own) in
    let counted = sum each (record { merges = each-Mergeable; flat = λ x q. refl }) in
    let whole = ap length e in
    let kept : length rest ≤ length (ms 0) =
      subst (λ l. length l ≤ length (ms 0)) (with_list_self ls 0 rest) p.spare in
    record {
      sound = record {
        shape = p.shape;
        every = omega (arith, counted, s.every);
        aligned =
            let own = (misaligned-zero k addr m low).1 multiple in
            omega (arith, sum misaligned misaligned-Fair, own, s.aligned);
        positive = omega (arith, sum (cover 0) (cover-Fair 0), positive, s.positive);
      };
      node = m;
      sum = sum;
      below = λ j l h. p.below j l h ∙ with_list-ne ls 0 rest j (omega arith);
      spare = omega (arith, whole, kept);
      lands = p.lands;
    }

pub list_put-Given :
    (fuel : ℕ) (a : MemAllocator) (ls : Lists) (k addr : ℕ)
    → Sound a ls
    → 1 ≤ length (ls 0)
    → 1 ≤ k
    → k < 16
    → enough ≤ fuel
    → addr % list_size k ≡ 0
    → cover 0 k addr 0 ≡ 0
    → (b : MemAllocator) × (ms : Lists) × (list_put fuel (node_new a addr).1 k (node_new a addr).0
        ≡ some b)
      × Given a b ls ms k addr
list_put-Given fuel a ls k addr s spare low high h multiple positive =
    let (m, rest, e) = some_node (ls 0) spare in
    let new = node_new a addr in
    let r = node_new-Renewed a ls addr m rest s.shape e in
    let once = r.nodes m in
    let own : one_if m m ≡ 1 = ground arith in
    let (b, ms, done, p) =
      enough-Puts k fuel low high h fuel new.1 (with_list ls 0 rest) m r.shape r.nonzero
        (omega (arith, once, own, s.shape.single m)) (omega (arith, r.sum each, s.every))
        (omega arith) in
    (
      b,
      ms,
      ap (λ q. list_put fuel new.1 k q) r.node ∙ done,
      Put-Given a new.1 b ls ms k addr m rest low s multiple
          (cover-block 0 k addr m low ∙ sym (cover-block 0 k addr 0 low) ∙ positive) e r.sum
          r.address p,
    )

-- A block that is given to the lists is in use no longer.
pub Given-Manages :
    (a b : MemAllocator) (ls ms : Lists) (front back : List Block) (k addr : ℕ)
    → 1 ≤ k
    → Manages a ls (front ++ (addr, k) ∷ back)
    → Given a b ls ms k addr
    → Manages b ms (front ++ back)
unfolding held
Given-Manages a b ls ms front back k addr low m g =
    let split = λ (f : Weight). held-append f front ((addr, k) ∷ back) in
    let joined = λ (f : Weight). held-append f front back in
    record {
      sound = g.sound;
      multiples = omega (arith, split misaligned, joined misaligned, m.multiples);
      positive = omega (arith, split (cover 0), joined (cover 0), m.positive);
      once = λ x bound.
          let sum = g.sum (cover x) (cover-Fair x) in
          let own : cover x k addr 0 ≡ cover x k addr g.node =
            cover-block x k addr 0 low ∙ sym (cover-block x k addr g.node low) in
          omega (
            arith,
            split (cover x),
            joined (cover x),
            m.once x bound,
            sum,
            own,
            cover-spare x g.node,
          );
    }

-- A block in use stands at a multiple of its size, and byte 0 is not in it.
pub Manages-block :
    (a : MemAllocator) (ls : Lists) (front back : List Block) (k addr : ℕ)
    → 1 ≤ k
    → Manages a ls (front ++ (addr, k) ∷ back)
    → (addr % list_size k ≡ 0) × (cover 0 k addr 0 ≡ 0)
unfolding held
Manages-block a ls front back k addr low m =
    let split = λ (f : Weight). held-append f front ((addr, k) ∷ back) in
    (
      (misaligned-zero k addr 0 low).0 (omega (arith, split misaligned, m.multiples)),
      omega (arith, split (cover 0), m.positive),
    )

mem_free-runs :
    (fuel : ℕ) (a : MemAllocator) (addr size k : ℕ)
    → free_order fuel size ≡ some k
    → mem_free fuel a addr size ≡ list_put fuel (node_new a addr).1 k (node_new a addr).0
unfolding mem_free
mem_free-runs fuel a addr size k e = rw (e, mem_free) refl

-- mem_free of a block in use, with a size of the block's list and a node that is not in use, ends:
-- the block is no longer in use and its bytes are free, and no other byte changes. Again no byte
-- lies in two blocks and all blocks stand at multiples of their sizes.
pub mem_free_lem :
    (fuel : ℕ) (a : MemAllocator) (ls : Lists) (front back : List Block) (addr size k : ℕ)
    → enough ≤ fuel
    → Manages a ls (front ++ (addr, k) ∷ back)
    → 1 ≤ length (ls 0)
    → size ≤ 2 ^ 18
    → alloc_order size ≡ some k
    → (b : MemAllocator) × (ms : Lists) × (mem_free fuel a addr size ≡ some b)
      × Manages b ms (front ++ back)
      × ((x : ℕ)
          → total (cover x) b.addr ms ≡ total (cover x) a.addr ls + covers x addr (list_size k))
mem_free_lem fuel a ls front back addr size k h m spare small e =
    let (o, is, alloc, free) = alloc_order-free_order size (omega arith) in
    let same : o ≡ k = some_inj (sym alloc ∙ e) in
    let is' = subst (IsOrder size) same is in
    let (multiple, positive) = Manages-block a ls front back k addr is'.first m in
    let (b, ms, done, g) =
      list_put-Given fuel a ls k addr m.sound spare is'.first (order_low size k small is') h
        multiple positive in
    (
      b,
      ms,
      mem_free-runs fuel a addr size k (free fuel (omega arith) ∙ ap some same) ∙ done,
      Given-Manages a b ls ms front back k addr is'.first m g,
      λ x.
          let own = cover-block x k addr g.node is'.first in
          omega (arith, g.sum (cover x) (cover-Fair x), own, cover-spare x g.node),
    )
