-- ===== src/Kmalloc/Removal.antt =====
-- Taking nodes out of a list, and the list of the nodes that are not in use.
use vsop.Base.{ℕ, ◌+◌, ◌<◌, ◌≡◌, ◌∙◌, sym, ap, List, ◌++◌, arith}
use mathlib.Core.Path.{subst}
use vsop.Kmalloc.{MemAllocator, link}
use vsop.Kmalloc.Weight.{
  Weight, Lists, with_list, count, weigh, total, mult, count-append, mult-with_list,
  total-with_list, weigh-append,
}
use vsop.Kmalloc.Chains.{Chain, front_node, last_node, Chain-append, Chain-split}
use vsop.Kmalloc.Shape.{Shape, link-Relinked, Relinked-Shape}

-- The nodes `mid` of list `k` are in no list any more.
pub record Removed (a b : MemAllocator) (ls ms : Lists) (k : ℕ) (mid back : List ℕ) : Type 0 where
  pub shape : Shape b ms
  pub sum : (f : Weight) → total f a.addr ls ≡ total f b.addr ms + weigh f a.addr k mid
  pub nodes : (p : ℕ) → mult p ls ≡ mult p ms + count p mid
  pub outside : (p : ℕ) → mult p ls ≡ 0 → b.next p ≡ a.next p
  pub address : b.addr ≡ a.addr
  pub behind : Chain b.next (front_node (mid ++ back)) (mid ++ back) 0

pub link-Removed :
    (a : MemAllocator) (ls : Lists) (k v : ℕ) (front mid back : List ℕ)
    → Shape a ls
    → k < 16
    → ls k ≡ front ++ (mid ++ back)
    → v ≡ front_node back
    → Removed a (link a k (last_node front) v) ls (with_list ls k (front ++ back)) k mid back
link-Removed a ls k v front mid back s h e q =
    let b = link a k (last_node front) v in
    let r = link-Relinked a ls k front (mid ++ back) v s h e in
    let behind = (Chain-split b.next (front_node (mid ++ back)) mid back r.behind).1 in
    let chain =
      Chain-append b.next (b.heads k) v 0 front back r.before
        (subst (λ c. Chain b.next c back 0) (sym q) behind) in
    let nodes : (p : ℕ) → mult p ls ≡ mult p (with_list ls k (front ++ back)) + count p mid = λ p.
      let old = ap (count p) e ∙ count-append p front (mid ++ back) in
      omega (
        arith,
        mult-with_list p ls k (front ++ back) h,
        old,
        count-append p mid back,
        count-append p front back,
      ) in
    record {
      shape =
          Relinked-Shape a b ls k front (mid ++ back) v (front ++ back) r chain
            (λ p. omega (arith, nodes p, s.single p));
      sum = λ f.
          let old = ap (weigh f a.addr k) e ∙ weigh-append f a.addr k front (mid ++ back) in
          let same : total f b.addr (with_list ls k (front ++ back))
              ≡ total f a.addr (with_list ls k (front ++ back)) =
            ap (λ d. total f d (with_list ls k (front ++ back))) r.addr in
          omega (
            arith,
            total-with_list f a.addr ls k (front ++ back) h,
            old,
            weigh-append f a.addr k mid back,
            weigh-append f a.addr k front back,
            same,
          );
      nodes = nodes;
      outside = r.outside;
      address = r.addr;
      behind = r.behind;
    }
