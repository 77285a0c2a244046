-- ===== src/Kmalloc/Puts.antt =====
-- What list_put and the loop of list_clean leave of every sum over the lists that the halves of a
-- block and the block itself agree on.
use vsop.Base.{ℕ, ◌+◌, ◌%◌, ◌^◌, ◌≤◌, ◌<◌, ◌≡◌, refl, ◌≢◌, ◌∙◌, List, [], ◌∷◌, arith, length, some}
use vsop.Kmalloc.{MemAllocator, list_size, list_put}
use vsop.Kmalloc.Weight.{Weight, Lists, one_if, weigh, total, mult, of_node, total-of_node, le-sums}
use vsop.Kmalloc.Shape.{Shape}

-- A block counts for as much as its halves, with the node that the merge frees.
abbrev pub Mergeable : Weight → Type 0
Mergeable f =
    (k addr n m : ℕ)
    → 1 ≤ k
    → k < 15
    → addr % list_size (k + 1) ≡ 0
    → f (k + 1) addr n + f 0 0 m ≡ f k addr n + f k ((addr + list_size k) % 2 ^ 32) m

-- The weight that counts the nodes.
abbrev pub each : Weight
each k addr n = 1

pub each-Mergeable : Mergeable each
each-Mergeable k addr n m low high aligned = refl

pub of_node-Mergeable : (p : ℕ) → Mergeable (of_node p)
of_node-Mergeable p k addr n m low high aligned = refl

pub weigh-each : (addr : ℕ → ℕ) (k : ℕ) (ns : List ℕ) → weigh each addr k ns ≡ length ns
unfolding weigh
weigh-each addr k [] = refl
weigh-each addr k (n ∷ ns) = omega (arith, weigh-each addr k ns)

pub length-le-total :
    (addr : ℕ → ℕ) (ls : Lists) (k : ℕ) → k < 16 → length (ls k) ≤ total each addr ls
length-le-total addr ls k h =
    omega (arith, weigh-each addr k (ls k), le-sums (λ j. weigh each addr j (ls j)) 16 k h)

-- One of the lists from `k` on has a block.
abbrev pub Lands : Lists → ℕ → Type 0
Lands ls k = (j : ℕ) × (k ≤ j) × (j < 16) × (1 ≤ length (ls j))

pub record Cleaned (a b : MemAllocator) (ls ms : Lists) (k : ℕ) : Type 0 where
  pub shape : Shape b ms
  pub sum : (f : Weight) → Mergeable f → total f b.addr ms ≡ total f a.addr ls
  pub below : (j : ℕ) → 1 ≤ j → j < k → ms j ≡ ls j
  pub outside : (p : ℕ) → mult p ls ≡ 0 → b.next p ≡ a.next p
  pub spare : length (ls 0) ≤ length (ms 0)
  pub lands : Lands ls k → Lands ms k

pub record Put (a b : MemAllocator) (ls ms : Lists) (k n : ℕ) : Type 0 where
  pub shape : Shape b ms
  pub sum : (f : Weight) → Mergeable f → total f b.addr ms ≡ total f a.addr ls + f k (a.addr n) n
  pub below : (j : ℕ) → 1 ≤ j → j < k → ms j ≡ ls j
  pub outside : (p : ℕ) → mult p ls ≡ 0 → p ≢ n → b.next p ≡ a.next p
  pub spare : length (ls 0) ≤ length (ms 0)
  pub lands : Lands ms k

pub Cleaned-nodes :
    (a b : MemAllocator) (ls ms : Lists) (k : ℕ)
    → Cleaned a b ls ms k
    → (p : ℕ) → mult p ms ≡ mult p ls
Cleaned-nodes a b ls ms k c p = omega (
  arith,
  c.sum (of_node p) (of_node-Mergeable p),
  total-of_node p b.addr ms,
  total-of_node p a.addr ls,
)

pub Put-nodes :
    (a b : MemAllocator) (ls ms : Lists) (k n : ℕ)
    → Put a b ls ms k n
    → (p : ℕ) → mult p ms ≡ mult p ls + one_if n p
Put-nodes a b ls ms k n c p =
    let sum : total (of_node p) b.addr ms ≡ total (of_node p) a.addr ls + one_if n p =
      c.sum (of_node p) (of_node-Mergeable p) in
    omega (arith, sum, total-of_node p b.addr ms, total-of_node p a.addr ls)

pub Cleaned-same : (a : MemAllocator) (ls : Lists) (k : ℕ) → Shape a ls → Cleaned a a ls ls k
Cleaned-same a ls k s = record {
  shape = s;
  sum = λ f m. refl;
  below = λ j l h. refl;
  outside = λ p m. refl;
  spare = omega arith;
  lands = λ l. l;
}

pub Cleaned-trans :
    (a b c : MemAllocator) (ls ms ns : Lists) (k : ℕ)
    → Cleaned a b ls ms k
    → Cleaned b c ms ns k
    → Cleaned a c ls ns k
Cleaned-trans a b c ls ms ns k x y = record {
  shape = y.shape;
  sum = λ f m. y.sum f m ∙ x.sum f m;
  below = λ j l h. y.below j l h ∙ x.below j l h;
  outside = λ p m. y.outside p (Cleaned-nodes a b ls ms k x p ∙ m) ∙ x.outside p m;
  spare = omega (arith, x.spare, y.spare);
  lands = λ l. y.lands (x.lands l);
}

-- With `fuel` from `enough` on, and at most `most` nodes, list_put into list `k` ends.
abbrev pub Puts : ℕ → ℕ → ℕ → Type 0
Puts k enough most =
    (fuel : ℕ) (a : MemAllocator) (ls : Lists) (n : ℕ)
    → Shape a ls
    → n ≢ 0
    → mult n ls ≡ 0
    → total each a.addr ls + 1 ≤ most
    → enough ≤ fuel
    → (b : MemAllocator) × (ms : Lists) × (list_put fuel a k n ≡ some b) × Put a b ls ms k n
