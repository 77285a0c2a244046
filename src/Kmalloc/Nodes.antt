-- ===== src/Kmalloc/Nodes.antt =====
-- node_free and node_new: the list of the nodes that are not in use.
use vsop.Base.{ℕ, ◌+◌, ◌≤◌, ◌<◌, ◌≡◌, refl, ◌≢◌, sym, ap, ◌⊎◌, inl, inr, List, ◌∷◌, arith}
use mathlib.Core.Path.{subst}
use vsop.Kmalloc.{MemAllocator, write_at, node_new, node_free}
use vsop.Kmalloc.Weight.{
  Weight, Lists, with_list, one_if, count, weigh, total, mult, count-mult, mult-with_list,
  total-with_list, total-write, with_list-ne,
}
use vsop.Kmalloc.Chains.{Chain, write_at_self, write_at-ne, Chain-write}
use vsop.Kmalloc.Shape.{Shape}

-- `node_free` of a node that is in no list.
pub record Freed (a b : MemAllocator) (ls : Lists) (m : ℕ) : Type 0 where
  pub shape : Shape b (with_list ls 0 (m ∷ ls 0))
  pub sum : (f : Weight) → total f b.addr (with_list ls 0 (m ∷ ls 0)) ≡ total f a.addr ls + f 0 0 m
  pub nodes : (p : ℕ) → mult p (with_list ls 0 (m ∷ ls 0)) ≡ mult p ls + one_if m p
  pub outside : (p : ℕ) → p ≢ m → b.next p ≡ a.next p

same_or_other : (i j : ℕ) → (i ≡ j) ⊎ (i ≢ j)
same_or_other i j = ground arith

module _ (a : MemAllocator) (ls : Lists) (m : ℕ) (s : Shape a ls) (nonzero : m ≢ 0)
    (free : mult m ls ≡ 0) where
  abbrev ms : Lists
  ms = with_list ls 0 (m ∷ ls 0)

  freed-nodes : (p : ℕ) → mult p ms ≡ mult p ls + one_if m p
  freed-nodes p = omega (arith, mult-with_list p ls 0 (m ∷ ls 0) (omega arith))

  freed-single : (p : ℕ) → mult p ms ≤ 1
  freed-single p = elim (same_or_other m p) [
    | inl q ↦
        let free' : mult p ls ≡ 0 = subst (λ r. mult r ls ≡ 0) q free in
        ground (arith, freed-nodes p, free')
    | inr d ↦ ground (arith, freed-nodes p, s.single p, d)
  ]

  freed-sum : (f : Weight) → total f (write_at a.addr m 0) ms ≡ total f a.addr ls + f 0 0 m
  unfolding weigh
  freed-sum f =
      let d = write_at a.addr m 0 in
      let own : f 0 (d m) m ≡ f 0 0 m = ap (λ x. f 0 x m) (write_at_self a.addr m 0) in
      omega (
        arith,
        total-with_list f d ls 0 (m ∷ ls 0) (omega arith),
        total-write f a.addr m 0 ls free,
        own,
      )

  freed-chains :
      (k : ℕ) → k < 16 → Chain (write_at a.next m (a.heads 0)) (write_at a.heads 0 m k) (ms k) 0
  freed-chains k h =
      let next = write_at a.next m (a.heads 0) in
      let old : (j : ℕ) → j < 16 → Chain next (a.heads j) (ls j) 0 = λ j l.
        Chain-write a.next m (a.heads 0) (a.heads j) 0 (ls j)
          (omega (arith, free, count-mult m ls j l)) (s.chains j l) in
      elim (same_or_other 0 k) [
        | inl q ↦
            subst (λ j. Chain next (write_at a.heads 0 m j) (ms j) 0) q
              (
                refl,
                nonzero,
                subst (λ c. Chain next c (ls 0) 0) (sym (write_at_self a.next m (a.heads 0)))
                    (old 0 (omega arith)),
              )
        | inr d ↦
            subst (λ c. Chain next c (ms k) 0) (sym (write_at-ne a.heads 0 m k d))
              (subst (λ l. Chain next (a.heads k) l 0) (sym (with_list-ne ls 0 (m ∷ ls 0) k d))
                (old k h))
      ]

  pub node_free-Freed : Freed a (node_free a m) ls m
  unfolding node_free
  node_free-Freed = record {
    shape = record { chains = freed-chains; single = freed-single };
    sum = freed-sum;
    nodes = freed-nodes;
    outside = λ p d. write_at-ne a.next m (a.heads 0) p (λ q. d (sym q));
  }

-- `node_new`: the first node that is not in use, with its address.
pub record Renewed (a : MemAllocator) (out : ℕ × MemAllocator) (ls : Lists) (addr m : ℕ)
    (rest : List ℕ) : Type 0 where
  pub node : out.0 ≡ m
  pub nonzero : m ≢ 0
  pub shape : Shape out.1 (with_list ls 0 rest)
  pub sum :
      (f : Weight) → total f a.addr ls ≡ total f out.1.addr (with_list ls 0 rest) + f 0 (a.addr m) m
  pub nodes : (p : ℕ) → mult p ls ≡ mult p (with_list ls 0 rest) + one_if m p
  pub address : out.1.addr m ≡ addr
  pub outside : (p : ℕ) → p ≢ m → out.1.next p ≡ a.next p

module _ (a : MemAllocator) (ls : Lists) (addr m : ℕ) (rest : List ℕ) (s : Shape a ls)
    (e : ls 0 ≡ m ∷ rest) where
  abbrev fewer : Lists
  fewer = with_list ls 0 rest

  first-chain : Chain a.next (a.heads 0) (m ∷ rest) 0
  first-chain = subst (λ l. Chain a.next (a.heads 0) l 0) e (s.chains 0 (omega arith))

  fewer-nodes : (p : ℕ) → mult p ls ≡ mult p fewer + one_if m p
  fewer-nodes p =
      let old = ap (count p) e in omega (arith, mult-with_list p ls 0 rest (omega arith), old)

  fewer-free : mult m fewer ≡ 0
  fewer-free = ground (arith, fewer-nodes m, s.single m)

  fewer-sum :
      (f : Weight) → total f a.addr ls ≡ total f (write_at a.addr m addr) fewer + f 0 (a.addr m) m
  unfolding weigh
  fewer-sum f =
      let old = ap (weigh f a.addr 0) e in
      omega (
        arith,
        total-with_list f a.addr ls 0 rest (omega arith),
        old,
        total-write f a.addr m addr fewer fewer-free,
      )

  fewer-chains :
      (k : ℕ) → k < 16 → Chain (write_at a.next m 0) (write_at a.heads 0 (a.next m) k) (fewer k) 0
  fewer-chains k h =
      let next = write_at a.next m 0 in
      let absent : count m (fewer k) ≡ 0 = omega (arith, fewer-free, count-mult m fewer k h) in
      elim (same_or_other 0 k) [
        | inl q ↦
            let here : count m rest ≡ 0 = subst (λ j. count m (fewer j) ≡ 0) (sym q) absent in
            subst (λ j. Chain next (write_at a.heads 0 (a.next m) j) (fewer j) 0) q
              (Chain-write a.next m 0 (a.next m) 0 rest here first-chain.2)
        | inr d ↦
            let same : fewer k ≡ ls k = with_list-ne ls 0 rest k d in
            subst (λ c. Chain next c (fewer k) 0) (sym (write_at-ne a.heads 0 (a.next m) k d))
              (Chain-write a.next m 0 (a.heads k) 0 (fewer k) absent
                (subst (λ l. Chain a.next (a.heads k) l 0) (sym same) (s.chains k h)))
      ]

  pub node_new-Renewed : Renewed a (node_new a addr) ls addr m rest
  unfolding node_new
  node_new-Renewed =
      let head : a.heads 0 ≡ m = first-chain.0 in
      let there : Renewed a
          (
            m,
            record a {
              heads = write_at a.heads 0 (a.next m);
              addr = write_at a.addr m addr;
              next = write_at a.next m 0;
            },
          )
          ls addr m rest =
        record {
          node = refl;
          nonzero = first-chain.1;
          shape = record {
            chains = fewer-chains;
            single = λ p. omega (arith, fewer-nodes p, s.single p);
          };
          sum = fewer-sum;
          nodes = fewer-nodes;
          address = write_at_self a.addr m addr;
          outside = λ p d. write_at-ne a.next m 0 p (λ q. d (sym q));
        } in
      subst
        (λ r.
          Renewed a
            (
              r,
              record a {
                heads = write_at a.heads 0 (a.next r);
                addr = write_at a.addr r addr;
                next = write_at a.next r 0;
              },
            )
            ls addr m rest)
        (sym head) there
