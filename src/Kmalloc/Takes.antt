-- ===== src/Kmalloc/Takes.antt =====
-- list_get: a block of a list, or half of one that list_get took from the next list.
use vsop.Base.{
  ℕ, suc, ◌+◌, ◌/◌, ◌%◌, ◌^◌, ◌≤◌, ◌<◌, ◌≡◌, refl, ◌≢◌, ◌∙◌, sym, ap, List, [], ◌∷◌, arith, length,
  some,
}
use mathlib.Core.Path.{subst}
use vsop.Kmalloc.{
  MemAllocator, node_count, write_at, list_size, node_new, node_free, list_put, get_from,
}
use vsop.Kmalloc.Weight.{
  Weight, Lists, with_list, one_if, weigh, total, mult, with_list_self, with_list-ne,
}
use vsop.Kmalloc.Chains.{Chain, Chain-front_node}
use vsop.Kmalloc.Shape.{Shape}
use vsop.Kmalloc.Removal.{link-Removed}
use vsop.Kmalloc.Nodes.{node_free-Freed, node_new-Renewed}
use vsop.Kmalloc.Runs.{get_from-hit}
use vsop.Kmalloc.Puts.{each, each-Mergeable, Puts}
use vsop.Kmalloc.Covers.{
  Fair, cover, cover-Fair, cover-block, covers, misaligned, misaligned-Fair, misaligned-zero,
  misaligned-spare, cover-spare, list_size-double, list_size-Bounds,
}

-- What every state of the allocator keeps: the nodes of its lists, the multiples of the sizes at
-- which the blocks stand, and the byte 0 that is never free.
pub record Sound (a : MemAllocator) (ls : Lists) : Type 0 where
  pub shape : Shape a ls
  pub every : total each a.addr ls + 1 ≡ node_count
  pub aligned : total misaligned a.addr ls ≡ 0
  pub positive : total (cover 0) a.addr ls ≡ 0

-- A block of list `k` at `addr` is taken out: it stands at a multiple of its size, and every sum
-- that counts halves like their block is less by that block.
pub record Got (a b : MemAllocator) (ls ms : Lists) (k addr : ℕ) : Type 0 where
  pub sound : Sound b ms
  pub nonzero : addr ≢ 0
  pub multiple : addr % list_size k ≡ 0
  pub node : ℕ
  pub sum :
      (f : Weight) → Fair f → total f a.addr ls + f 0 0 node ≡ total f b.addr ms + f k addr node

-- There is no block in the lists from `k` on.
abbrev pub Lacks : Lists → ℕ → Type 0
Lacks ls k = (j : ℕ) → k ≤ j → j < 16 → ls j ≡ []

-- What the sums say of a block that is taken out.
pub take-Got :
    (a b : MemAllocator) (ls ms : Lists) (k addr n : ℕ)
    → 1 ≤ k
    → k < 16
    → Sound a ls
    → Shape b ms
    → ((f : Weight) → Fair f → total f a.addr ls + f 0 0 n ≡ total f b.addr ms + f k addr n)
    → Got a b ls ms k addr
take-Got a b ls ms k addr n low high s shape sum =
    let size = list_size-Bounds k high in
    let at_zero = sum (cover 0) (cover-Fair 0) in
    let at_sizes = sum misaligned misaligned-Fair in
    let counted = sum each (record { merges = each-Mergeable; flat = λ x m. refl }) in
    record {
      sound = record {
        shape = shape;
        every = omega (arith, counted, s.every);
        aligned = omega (arith, at_sizes, s.aligned, misaligned-spare 0 n);
        positive = omega (arith, at_zero, s.positive, cover-spare 0 n);
      };
      nonzero = λ e.
          nothing (cover 0 k addr n) addr (list_size k) (cover-block 0 k addr n low)
            (omega (arith, at_zero, s.positive, cover-spare 0 n)) e size.0;
      multiple =
          (misaligned-zero k addr n low).0
            (omega (arith, at_sizes, s.aligned, misaligned-spare 0 n));
      node = n;
      sum = sum;
    }
  where
    nothing : (c addr size : ℕ) → c ≡ covers 0 addr size → c ≡ 0 → addr ≡ 0 → 1 ≤ size → ⊥
    nothing c addr size e z y h = ground arith

-- The first block of a list.
pub take_first :
    (a : MemAllocator) (ls : Lists) (k n : ℕ) (rest : List ℕ)
    → 1 ≤ k
    → k < 16
    → Sound a ls
    → ls k ≡ n ∷ rest
    → (b : MemAllocator) × (ms : Lists) × ((fuel levels : ℕ)
        → get_from fuel (suc levels) a k ≡ some (a.addr n, b))
      × Got a b ls ms k (a.addr n)
      × (length (ms 0) ≡ length (ls 0) + 1)
unfolding weigh
take_first a ls k n rest low high s e =
    let (head, nonzero, chain) =
      subst (λ ns. Chain a.next (a.heads k) ns 0) e (s.shape.chains k high) in
    let b = record a { heads = write_at a.heads k (a.next n) } in
    let left = with_list ls k rest in
    let r =
      link-Removed a ls k (a.next n) [] (n ∷ []) rest s.shape high e
        (Chain-front_node a.next (a.next n) rest chain) in
    let once = r.nodes n in
    let own : one_if n n ≡ 1 = ground arith in
    let free : mult n left ≡ 0 = omega (arith, once, own, s.shape.single n) in
    let freed = node_free-Freed b left n r.shape nonzero free in
    let ms = with_list left 0 (n ∷ left 0) in
    let zero_list : left 0 ≡ ls 0 = with_list-ne ls k rest 0 (omega arith) in
    let now = ap length (with_list_self left 0 (n ∷ left 0)) in
    let before = ap length zero_list in
    (
      node_free b n,
      ms,
      (λ fuel levels.
          get_from-hit fuel levels a k (λ z. nonzero (sym head ∙ z))
          ∙ ap
              (λ q.
                some (a.addr q, node_free (record a { heads = write_at a.heads k (a.next q) }) q))
              head),
      take-Got a (node_free b n) ls ms k (a.addr n) n low high s freed.shape
          (λ f g. omega (arith, r.sum f, freed.sum f)),
      omega (arith, now, before),
    )

-- Half of a block of the next list, the other half of which is put into the list.
pub take_half :
    (fuel most k : ℕ) (a b : MemAllocator) (ls ms : Lists) (addr m : ℕ) (rest : List ℕ)
    → 1 ≤ k
    → k < 15
    → Puts k fuel most
    → total each a.addr ls ≤ most
    → Sound a ls
    → Got a b ls ms (k + 1) addr
    → ms 0 ≡ m ∷ rest
    → (c : MemAllocator) × (ns : Lists) × (list_put fuel
          (node_new b ((addr + list_size (k + 1) / 2) % 2 ^ 32)).1
          k
          (node_new b ((addr + list_size (k + 1) / 2) % 2 ^ 32)).0
        ≡ some c)
      × Got a c ls ns k addr
      × (length rest ≤ length (ns 0))
take_half fuel most k a b ls ms addr m rest low high puts t s got e =
    let upper = (addr + list_size (k + 1) / 2) % 2 ^ 32 in
    let new = node_new b upper in
    let r = node_new-Renewed b ms upper m rest got.sound.shape e in
    let left = with_list ms 0 rest in
    let once = r.nodes m in
    let own : one_if m m ≡ 1 = ground arith in
    let counted = got.sum each (record { merges = each-Mergeable; flat = λ x q. refl }) in
    let same : total each b.addr ms ≡ total each new.1.addr left + 1 = r.sum each in
    let (c, ns, done, p) =
      puts fuel new.1 left m r.shape r.nonzero (omega (arith, once, own, got.sound.shape.single m))
        (omega (arith, counted, same, t)) (omega arith) in
    let size = list_size-double k high in
    let half : upper ≡ (addr + list_size k) % 2 ^ 32 =
      ap (λ h. (addr + h) % 2 ^ 32) (omega (arith, size)) in
    (
      c,
      ns,
      ap (λ q. list_put fuel new.1 k q) r.node ∙ done,
      take-Got a c ls ns k addr got.node low (omega arith) s p.shape (λ f g.
          let halves = g.merges k addr got.node m low high got.multiple in
          let address : f k (new.1.addr m) m ≡ f k ((addr + list_size k) % 2 ^ 32) m =
            ap (λ x. f k x m) (r.address ∙ half) in
          omega
            (arith, got.sum f g, r.sum f, g.flat (b.addr m) m, p.sum f g.merges, halves, address)),
      subst (λ l. length l ≤ length (ns 0)) (with_list_self ms 0 rest) p.spare,
    )
