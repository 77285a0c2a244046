-- ===== src/Kmalloc/Shape.antt =====
-- The lists of the allocator as its pointers hold them, and how writes change them.
use vsop.Base.{
  ℕ, ◌≤◌, ◌<◌, ◌≡◌, refl, ◌≢◌, ◌∙◌, sym, ap, ◌⊎◌, inl, inr, List, [], ◌∷◌, ◌++◌, ◌==◌, arith, false,
}
use mathlib.Core.Path.{subst}
use vsop.Kmalloc.{MemAllocator, write_at, link}
use vsop.Kmalloc.Weight.{
  Lists, with_list, count, mult, sums-zero, count-append, count-mult, with_list_self, with_list-ne,
  add-le-sums,
}
use vsop.Kmalloc.Chains.{
  Chain, front_node, last_node, write_at_self, write_at-ne, Chain-write, Chain-front_node,
  Chain-split, count-zero, count-last_node, last_node-ne-zero, Chain-relink,
}

-- Each list leads through its nodes to null, and no node stands in two places.
pub record Shape (a : MemAllocator) (ls : Lists) : Type 0 where
  pub chains : (k : ℕ) → k < 16 → Chain a.next (a.heads k) (ls k) 0
  pub single : (p : ℕ) → mult p ls ≤ 1

-- A node of a list is in no other.
pub count-other :
    (p : ℕ) (ls : Lists) (j k : ℕ)
    → mult p ls ≤ 1
    → j < 16
    → k < 16
    → j ≢ k
    → 1 ≤ count p (ls k)
    → count p (ls j) ≡ 0
count-other p ls j k single l m d once =
    omega (arith, add-le-sums (λ i. count p (ls i)) 16 j k l m d, single, once)

pub mult-zero : (a : MemAllocator) (ls : Lists) → Shape a ls → mult 0 ls ≡ 0
mult-zero a ls s =
    sums-zero (λ k. count 0 (ls k)) 16
      (λ k h. count-zero a.next (a.heads k) 0 (ls k) (s.chains k h))

-- What a new pointer behind `front`, in list `k`, leaves: the list in two parts, and the rest.
pub record Relinked (a b : MemAllocator) (ls : Lists) (k : ℕ) (front back : List ℕ) (v : ℕ)
    : Type 0 where
  pub before : Chain b.next (b.heads k) front v
  pub behind : Chain b.next (front_node back) back 0
  pub others : (j : ℕ) → j < 16 → j ≢ k → Chain b.next (b.heads j) (ls j) 0
  pub addr : b.addr ≡ a.addr
  pub outside : (p : ℕ) → mult p ls ≡ 0 → b.next p ≡ a.next p

link-next :
    (a : MemAllocator) (k p v : ℕ) → p ≢ 0 → link a k p v ≡ record a { next = write_at a.next p v }
link-next a k p v h = let z : (p == 0) ≡ false = ground arith in rw z refl

relink-head :
    (a : MemAllocator) (ls : Lists) (k v : ℕ)
    → Shape a ls
    → k < 16
    → Relinked a (record a { heads = write_at a.heads k v }) ls k [] (ls k) v
relink-head a ls k v s h = record {
  before = write_at_self a.heads k v;
  behind =
      subst (λ c. Chain a.next c (ls k) 0)
        (Chain-front_node a.next (a.heads k) (ls k) (s.chains k h)) (s.chains k h);
  others = λ j m d.
      subst (λ c. Chain a.next c (ls j) 0) (sym (write_at-ne a.heads k v j (λ q. d (sym q))))
        (s.chains j m);
  addr = refl;
  outside = λ p m. refl;
}

relink-node :
    (a : MemAllocator) (ls : Lists) (k n : ℕ) (ns back : List ℕ) (v : ℕ)
    → Shape a ls
    → k < 16
    → ls k ≡ n ∷ ns ++ back
    → Relinked a (record a { next = write_at a.next (last_node (n ∷ ns)) v }) ls k (n ∷ ns) back v
relink-node a ls k n ns back v s h e =
    let last = last_node (n ∷ ns) in
    let parts = Chain-split a.next (a.heads k) (n ∷ ns) back (rw e at (s.chains k h)) in
    let counts = λ (p : ℕ). ap (count p) e ∙ count-append p (n ∷ ns) back in
    let once = count-last_node n ns in
    let inside = count-mult last ls k h in
    record {
      before =
          Chain-relink a.next v (a.heads k) (front_node back) n ns
            (λ p. omega (arith, counts p, count-mult p ls k h, s.single p)) parts.0;
      behind =
          Chain-write a.next last v (front_node back) 0 back
            (omega (arith, counts last, once, inside, s.single last)) parts.1;
      others = λ j m d.
          Chain-write a.next last v (a.heads j) 0 (ls j)
            (count-other last ls j k (s.single last) m h d (omega (arith, counts last, once)))
            (s.chains j m);
      addr = refl;
      outside = λ p m. write_at-ne a.next last v p (λ q.
          none_left (mult p ls) m
            (subst (λ r. 1 ≤ mult r ls) q (omega (arith, counts last, once, inside))));
    }
  where
    none_left : (m : ℕ) → m ≡ 0 → 1 ≤ m → ⊥
    none_left m e h = omega arith

pub link-Relinked :
    (a : MemAllocator) (ls : Lists) (k : ℕ) (front back : List ℕ) (v : ℕ)
    → Shape a ls
    → k < 16
    → ls k ≡ front ++ back
    → Relinked a (link a k (last_node front) v) ls k front back v
link-Relinked a ls k [] back v s h e =
    subst (λ ns. Relinked a (record a { heads = write_at a.heads k v }) ls k [] ns v) e
      (relink-head a ls k v s h)
link-Relinked a ls k (n ∷ ns) back v s h e =
    let parts = Chain-split a.next (a.heads k) (n ∷ ns) back (rw e at (s.chains k h)) in
    let nonzero = last_node-ne-zero a.next (a.heads k) (front_node back) n ns parts.0 in
    subst (λ b. Relinked a b ls k (n ∷ ns) back v)
      (sym (link-next a k (last_node (n ∷ ns)) v nonzero)) (relink-node a ls k n ns back v s h e)

-- The list that was split, put together again.
pub Relinked-Shape :
    (a b : MemAllocator) (ls : Lists) (k : ℕ) (front back : List ℕ) (v : ℕ) (ns : List ℕ)
    → Relinked a b ls k front back v
    → Chain b.next (b.heads k) ns 0
    → ((p : ℕ) → mult p (with_list ls k ns) ≤ 1)
    → Shape b (with_list ls k ns)
Relinked-Shape a b ls k front back v ns r here single = record {
  chains = λ j h. elim (same_or_other k j) [
    | inl e ↦
        subst (λ i. Chain b.next (b.heads i) (with_list ls k ns i) 0) e
          (subst (λ l. Chain b.next (b.heads k) l 0) (sym (with_list_self ls k ns)) here)
    | inr d ↦
        subst (λ l. Chain b.next (b.heads j) l 0) (sym (with_list-ne ls k ns j d))
          (r.others j h (λ q. d (sym q)))
  ];
  single = single;
}
  where
    same_or_other : (i j : ℕ) → (i ≡ j) ⊎ (i ≢ j)
    same_or_other i j = ground arith

-- A write to a node that is in no list.
pub Shape-write :
    (a : MemAllocator) (ls : Lists) (p v : ℕ)
    → mult p ls ≡ 0
    → Shape a ls
    → Shape (record a { next = write_at a.next p v }) ls
Shape-write a ls p v m s = record {
  chains = λ k h.
      Chain-write a.next p v (a.heads k) 0 (ls k) (omega (arith, m, count-mult p ls k h))
        (s.chains k h);
  single = s.single;
}
