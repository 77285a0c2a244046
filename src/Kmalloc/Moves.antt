-- ===== src/Kmalloc/Moves.antt =====
-- The moves of a node into a list and out of one, and what they do to every sum over the lists.
use vsop.Base.{
  ℕ, ◌+◌, ◌≤◌, ◌<◌, ◌≡◌, refl, ◌≢◌, ◌∙◌, sym, ap, ◌⊎◌, inl, inr, List, ◌∷◌, ◌++◌, arith,
}
use mathlib.Core.Path.{subst}
use vsop.Kmalloc.{MemAllocator, write_at, put_between}
use vsop.Kmalloc.Weight.{
  Weight, Lists, with_list, one_if, count, weigh, total, mult, count-append, mult-with_list,
  total-with_list, weigh-append,
}
use vsop.Kmalloc.Chains.{
  Chain, front_node, last_node, write_at_self, write_at-ne, Chain-append, Chain-front_node,
}
use vsop.Kmalloc.Shape.{Shape, Relinked, link-Relinked, Relinked-Shape, Shape-write}

Chain-at_front :
    (next : ℕ → ℕ) (h : ℕ) (ns : List ℕ) → Chain next h ns 0 → Chain next (front_node ns) ns 0
Chain-at_front next h ns s = subst (λ c. Chain next c ns 0) (Chain-front_node next h ns s) s

-- Node `n` stands in list `k` of `ms`, and for the rest the lists are those of `ls`.
pub record Entered (a b : MemAllocator) (ls ms : Lists) (k n : ℕ) : Type 0 where
  pub shape : Shape b ms
  pub sum : (f : Weight) → total f b.addr ms ≡ total f a.addr ls + f k (a.addr n) n
  pub nodes : (p : ℕ) → mult p ms ≡ mult p ls + one_if n p
  pub outside : (p : ℕ) → mult p ls ≡ 0 → p ≢ n → b.next p ≡ a.next p
  pub address : b.addr ≡ a.addr

module _ (a : MemAllocator) (ls : Lists) (k n : ℕ) (front back : List ℕ) (s : Shape a ls)
    (h : k < 16) (nonzero : n ≢ 0) (free : mult n ls ≡ 0) (e : ls k ≡ front ++ back) where
  abbrev put_there : MemAllocator
  put_there = put_between a k n (last_node front, front_node back)

  abbrev longer : Lists
  longer = with_list ls k (front ++ n ∷ back)

  written : MemAllocator
  written = record a { next = write_at a.next n (front_node back) }

  put_there-Relinked : Relinked written put_there ls k front back n
  unfolding written
  put_there-Relinked =
      link-Relinked (record a { next = write_at a.next n (front_node back) }) ls k front back n
        (Shape-write a ls n (front_node back) free s) h e

  longer-sum : (f : Weight) → total f a.addr longer ≡ total f a.addr ls + f k (a.addr n) n
  unfolding weigh
  longer-sum f =
      let change = total-with_list f a.addr ls k (front ++ n ∷ back) h in
      let new = weigh-append f a.addr k front (n ∷ back) in
      let old = ap (weigh f a.addr k) e ∙ weigh-append f a.addr k front back in
      omega (arith, change, new, old)

  longer-nodes : (p : ℕ) → mult p longer ≡ mult p ls + one_if n p
  longer-nodes p =
      let change = mult-with_list p ls k (front ++ n ∷ back) h in
      let new = count-append p front (n ∷ back) in
      let old = ap (count p) e ∙ count-append p front back in omega (arith, change, new, old)

  longer-single : (p : ℕ) → mult p longer ≤ 1
  longer-single p = elim (same_or_other n p) [
    | inl q ↦
        let free' : mult p ls ≡ 0 = subst (λ r. mult r ls ≡ 0) q free in
        ground (arith, longer-nodes p, free')
    | inr d ↦ ground (arith, longer-nodes p, s.single p, d)
  ]
    where
      same_or_other : (i j : ℕ) → (i ≡ j) ⊎ (i ≢ j)
      same_or_other i j = ground arith

  pub put_between-Entered : Entered a put_there ls longer k n
  unfolding written
  put_between-Entered =
      let r = put_there-Relinked in
      let next : put_there.next n ≡ front_node back =
        r.outside n free ∙ write_at_self a.next n (front_node back) in
      let chain =
        Chain-append put_there.next (put_there.heads k) n 0 front (n ∷ back) r.before
          (refl, nonzero, subst (λ c. Chain put_there.next c back 0) (sym next) r.behind) in
      record {
        shape =
            Relinked-Shape written put_there ls k front back n (front ++ n ∷ back) r chain
              longer-single;
        sum = λ f. ap (λ d. total f d longer) r.addr ∙ longer-sum f;
        nodes = longer-nodes;
        outside =
            λ p m d. r.outside p m ∙ write_at-ne a.next n (front_node back) p (λ q. d (sym q));
        address = r.addr;
      }
