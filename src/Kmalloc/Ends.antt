-- ===== src/Kmalloc/Ends.antt =====
-- list_put, with the cleaning and the merges that it starts, ends on enough fuel.
use vsop.Base.{
  ℕ, zero, suc, ◌+◌, ◌-◌, ◌≤◌, ◌<◌, ◌≡◌, refl, ◌≢◌, ◌∙◌, sym, ap, List, [], ◌∷◌, ◌++◌, true, ltb,
  arith, length, some,
}
use mathlib.Core.Path.{subst}
use vsop.Kmalloc.{MemAllocator, alocators, node_count, place_from, clean_from, put_between}
use vsop.Kmalloc.Weight.{Lists, with_list, one_if, total, mult, with_list_self, with_list-ne}
use vsop.Kmalloc.Chains.{Chain, front_node, last_node, Chain-front_node}
use vsop.Kmalloc.Shape.{Shape}
use vsop.Kmalloc.Moves.{Entered, put_between-Entered}
use vsop.Kmalloc.Runs.{list_put-step, list_put-last, place_from-splits}
use vsop.Kmalloc.Puts.{each, length-le-total, Cleaned, Cleaned-same, Put, Puts}
use vsop.Kmalloc.Cleans.{clean_from-Cleaned}

-- Node `n` is in list `k`, which is not cleaned yet.
record Placed (a : MemAllocator) (ls : Lists) (k n : ℕ) : Type 0 where
  pub place : ℕ × ℕ
  pub list : List ℕ
  pub found : place_from node_count a n 0 (a.heads k) ≡ some place
  pub entered : Entered a (put_between a k n place) ls (with_list ls k list) k n
  pub block : 1 ≤ length list

length_behind : (n : ℕ) (xs ys : List ℕ) → 1 ≤ length (xs ++ n ∷ ys)
length_behind n [] ys = omega arith
length_behind n (x ∷ xs) ys = omega (arith, length_behind n xs ys)

place_from-Placed :
    (a : MemAllocator) (ls : Lists) (k n : ℕ)
    → Shape a ls
    → k < 16
    → n ≢ 0
    → mult n ls ≡ 0
    → length (ls k) < node_count
    → Placed a ls k n
place_from-Placed a ls k n s h nonzero free t =
    let head = Chain-front_node a.next (a.heads k) (ls k) (s.chains k h) in
    let (xs, ys, e, found) =
      place_from-splits node_count a n [] (ls k)
        (subst (λ c. Chain a.next c (ls k) 0) head (s.chains k h)) t in
    record {
      place = (last_node xs, front_node ys);
      list = xs ++ n ∷ ys;
      found = ap (place_from node_count a n 0) head ∙ found;
      entered = put_between-Entered a ls k n xs ys s h nonzero free e;
      block = length_behind n xs ys;
    }

Placed-Put :
    (a b : MemAllocator) (ls ms : Lists) (k n : ℕ)
    → 1 ≤ k
    → k < 16
    → (p : Placed a ls k n) → Cleaned (put_between a k n p.place) b (with_list ls k p.list) ms k
    → mult n ls ≡ 0
    → Put a b ls ms k n
Placed-Put a b ls ms k n low high p c free =
    let longer = with_list ls k p.list in
    let entered = p.entered in
    let zero_list = ap length (with_list-ne ls k p.list 0 (omega arith)) in
    let other = λ (q : ℕ) (d : q ≢ n). absent q d in
    record {
      shape = c.shape;
      sum = λ f g. c.sum f g ∙ entered.sum f;
      below = λ j l h. c.below j l h ∙ with_list-ne ls k p.list j (omega arith);
      outside = λ q z d.
          c.outside q (omega (arith, entered.nodes q, z, absent q d)) ∙ entered.outside q z d;
      spare = omega (arith, zero_list, c.spare);
      lands = c.lands (
        k,
        omega arith,
        high,
        subst (λ ns. 1 ≤ length ns) (sym (with_list_self ls k p.list)) p.block,
      );
    }
  where
    absent : (q : ℕ) → q ≢ n → one_if n q ≡ 0
    absent q d = ground arith

-- Fuel for list_put into the `levels`th list before the last, with at most `most` nodes.
abbrev pub put_fuel : ℕ → ℕ → ℕ
put_fuel most zero = 1
put_fuel most (suc levels) = most + 2 + put_fuel most levels

last_list-Puts : (most : ℕ) → most < node_count → Puts 15 1 most
last_list-Puts most t zero a ls n s nonzero free few h = absurd (omega arith)
last_list-Puts most t (suc fuel) a ls n s nonzero free few h =
    let p =
      place_from-Placed a ls 15 n s (omega arith) nonzero free
        (omega (arith, length-le-total a.addr ls 15 (omega arith))) in
    let b = put_between a 15 n p.place in
    let entered = p.entered in
    (
      b,
      with_list ls 15 p.list,
      list_put-last fuel a 15 n p.place p.found refl,
      Placed-Put a b ls (with_list ls 15 p.list) 15 n (omega arith) (omega arith) p
          (Cleaned-same b (with_list ls 15 p.list) 15 entered.shape) free,
    )

list-Puts :
    (most k enough : ℕ)
    → most < node_count
    → 1 ≤ k
    → k < 15
    → Puts (k + 1) enough most
    → Puts k (most + 2 + enough) most
list-Puts most k enough t low high puts zero a ls n s nonzero free few h = absurd (omega arith)
list-Puts most k enough t low high puts (suc fuel) a ls n s nonzero free few h =
    let p =
      place_from-Placed a ls k n s (omega arith) nonzero free
        (omega (arith, length-le-total a.addr ls k (omega arith))) in
    let b = put_between a k n p.place in
    let longer = with_list ls k p.list in
    let entered = p.entered in
    let small : total each b.addr longer ≤ most = omega (arith, entered.sum each, few) in
    let head =
      Chain-front_node b.next (b.heads k) (longer k) (entered.shape.chains k (omega arith)) in
    let more : ltb k (alocators - 1) ≡ true = ground arith in
    let (c, ms, done, cleaned) =
      clean_from-Cleaned k enough most low high puts fuel b longer [] (longer k) entered.shape refl
        small (omega (arith, length-le-total b.addr longer k (omega arith), small)) in
    (
      c,
      ms,
      list_put-step fuel a k n p.place p.found more ∙ ap (clean_from fuel b k 0) head ∙ done,
      Placed-Put a c ls ms k n low (omega arith) p cleaned free,
    )

-- list_put ends for each list that has a size, whatever the lists hold.
pub list_put-Puts :
    (most levels k : ℕ)
    → most < node_count
    → 1 ≤ k
    → k + levels ≡ 15
    → Puts k (put_fuel most levels) most
list_put-Puts most zero k t low e = subst (λ j. Puts j 1 most) (omega arith) (last_list-Puts most t)
list_put-Puts most (suc levels) k t low e =
    list-Puts most k (put_fuel most levels) t low (omega arith)
      (list_put-Puts most levels (k + 1) t (omega arith) (omega arith))
