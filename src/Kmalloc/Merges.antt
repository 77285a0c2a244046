-- ===== src/Kmalloc/Merges.antt =====
-- The merges of list_clean: two halves leave their list, their block enters the next one, and the
-- node of the upper half is free.
use vsop.Base.{
  ℕ, ◌+◌, ◌%◌, ◌^◌, ◌≤◌, ◌<◌, ◌≡◌, refl, ◌≢◌, ◌∙◌, sym, ap, List, [], ◌∷◌, ◌++◌, true, false, arith,
  length,
}
use mathlib.Core.Path.{subst}
use vsop.Kmalloc.{MemAllocator, list_size, is_buddy, node_free}
use vsop.Kmalloc.Weight.{Lists, with_list, one_if, weigh, total, mult, with_list_self, with_list-ne}
use vsop.Kmalloc.Chains.{front_node, Chain-front_node}
use vsop.Kmalloc.Shape.{Shape}
use vsop.Kmalloc.Removal.{Removed}
use vsop.Kmalloc.Nodes.{Freed, node_free-Freed}
use vsop.Kmalloc.Puts.{Cleaned, Put, Put-nodes}

pub is_buddy-aligned :
    (a : MemAllocator) (k n m : ℕ)
    → is_buddy a k n m ≡ true
    → (a.addr n % list_size (k + 1) ≡ 0) × ((a.addr n + list_size k) % 2 ^ 32 ≡ a.addr m)
is_buddy-aligned a k n m e = ground arith

-- Halves `n` and `m` of one block, at the front of the rest of list `k`.
module _ (a b c : MemAllocator) (ls ms : Lists) (k n m : ℕ) (front rest : List ℕ) (low : 1 ≤ k)
    (high : k < 15) (s : Shape a ls) (nonzero : m ≢ 0)
    (r : Removed a b ls (with_list ls k (front ++ rest)) k (n ∷ m ∷ []) rest)
    (p : Put b c (with_list ls k (front ++ rest)) ms (k + 1) n) where
  abbrev left : Lists
  left = with_list ls k (front ++ rest)

  abbrev after : Lists
  after = with_list ms 0 (m ∷ ms 0)

  pub absent : (mult n left ≡ 0) × (mult m left ≡ 0) × (m ≢ n)
  absent =
      let x = r.nodes n in
      let y = r.nodes m in
      let u : (1 ≤ one_if n n) × (1 ≤ one_if m m) = ground arith in
      (
        omega (arith, x, s.single n, u),
        omega (arith, y, s.single m, u),
        λ e.
            apart (mult n ls) (mult n left) (one_if n n)
              (subst (λ q. mult n ls ≡ mult n left + (one_if n n + (one_if q n + 0))) e x) u.0
              (s.single n),
      )
    where
      apart : (x y z : ℕ) → x ≡ y + (z + (z + 0)) → 1 ≤ z → x ≤ 1 → ⊥
      apart x y z e h l = omega arith

  pub unused : mult m ms ≡ 0
  unused =
      let (_, free, apart) = absent in
      let other : one_if n m ≡ 0 = ground (arith, apart) in
      omega (arith, Put-nodes b c left ms (k + 1) n p m, free, other)

  freed : Freed c (node_free c m) ms m
  freed = node_free-Freed c ms m p.shape nonzero unused

  pub after-list : after k ≡ front ++ rest
  after-list =
      with_list-ne ms 0 (m ∷ ms 0) k (omega arith)
      ∙ p.below k low (omega arith)
      ∙ with_list_self ls k (front ++ rest)

  pub merge-Cleaned :
      a.addr n % list_size (k + 1) ≡ 0
      → (a.addr n + list_size k) % 2 ^ 32 ≡ a.addr m
      → Cleaned a (node_free c m) ls after k
  unfolding weigh
  merge-Cleaned aligned upper =
      let address = r.address in
      record {
        shape = freed.shape;
        sum = λ f g.
            let put : total f c.addr ms ≡ total f b.addr left + f (k + 1) (a.addr n) n =
              p.sum f g ∙ ap (λ d. total f b.addr left + f (k + 1) (d n) n) address in
            let halves : f (k + 1) (a.addr n) n + f 0 0 m ≡ f k (a.addr n) n + f k (a.addr m) m =
              g k (a.addr n) n m low high aligned ∙ ap (λ x. f k (a.addr n) n + f k x m) upper in
            omega (arith, r.sum f, put, freed.sum f, halves);
        below = λ j l h.
            with_list-ne ms 0 (m ∷ ms 0) j (omega arith)
            ∙ p.below j l (omega arith)
            ∙ with_list-ne ls k (front ++ rest) j (omega arith);
        outside = λ q z.
            let gone = r.nodes q in
            let off : (mult q left ≡ 0) × (one_if n q ≡ 0) × (one_if m q ≡ 0) =
              (omega (arith, gone, z), omega (arith, gone, z), omega (arith, gone, z)) in
            freed.outside q (differs off.2) ∙ p.outside q off.0 (differs off.1) ∙ r.outside q z;
        spare =
            let zero_list : length (left 0) ≡ length (ls 0) =
              ap length (with_list-ne ls k (front ++ rest) 0 (omega arith)) in
            omega (arith, zero_list, p.spare);
        lands = λ l.
            let (j, ge, lt, some_block) = p.lands in
            (
              j,
              omega (arith, ge),
              lt,
              subst (λ ns. 1 ≤ length ns) (sym (with_list-ne ms 0 (m ∷ ms 0) j (omega (arith, ge))))
                  some_block,
            );
      }
    where
      differs : {x y : ℕ} → one_if x y ≡ 0 → y ≢ x
      differs e = ground arith

  -- The loop of list_clean goes on behind the halves.
  pub merge-next : c.next m ≡ front_node rest
  merge-next =
      let (_, free, apart) = absent in
      p.outside m free apart ∙ Chain-front_node b.next (b.next m) rest r.behind.2.2

pub empty_not_buddy : (a : MemAllocator) (k n : ℕ) → is_buddy a k n 0 ≡ false
empty_not_buddy a k n = refl
