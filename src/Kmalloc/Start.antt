-- ===== src/Kmalloc/Start.antt =====
-- The allocator that mem_allocator_init leaves: all nodes but the null one are not in use.
use vsop.Base.{
  ℕ, zero, suc, ◌+◌, ◌-◌, ◌%◌, ◌≤◌, ◌<◌, ◌≡◌, refl, ◌≢◌, ◌∙◌, sym, ap, ◌⊎◌, inl, inr, List, [], ◌∷◌,
  arith, length,
}
use mathlib.Core.Path.{subst}
use vsop.Kmalloc.{Heap, node_count, mem_allocator_init}
use vsop.Kmalloc.Weight.{
  Weight, Lists, with_list, count, weigh, total, mult, sums-zero, total-with_list, mult-with_list,
  with_list_self, with_list-ne,
}
use vsop.Kmalloc.Chains.{Chain}
use vsop.Kmalloc.Shape.{Shape}
use vsop.Kmalloc.Puts.{each, weigh-each}
use vsop.Kmalloc.Covers.{cover, misaligned, cover-spare, misaligned-spare, cover-Fair}
use vsop.Kmalloc.Takes.{Sound}
use vsop.Kmalloc.Manages.{held}
use vsop.Kmalloc.Calls.{Steady}

-- `m` numbers from `n` on.
numbers : ℕ → ℕ → List ℕ
numbers n zero = []
numbers n (suc m) = n ∷ numbers (suc n) m

-- The list of the nodes that are not in use has all nodes, and the others are empty.
pub start_lists : Lists
start_lists = with_list (λ k. []) 0 (numbers 1 (node_count - 1))

length-numbers : (n m : ℕ) → length (numbers n m) ≡ m
unfolding numbers
length-numbers n zero = refl
length-numbers n (suc m) = omega (arith, length-numbers (suc n) m)

count-numbers : (p n m : ℕ) → (count p (numbers n m) ≤ 1) × (p < n → count p (numbers n m) ≡ 0)
unfolding numbers
count-numbers p n zero = (omega arith, λ h. refl)
count-numbers p n (suc m) =
    let (once, none_below) = count-numbers p (suc n) m in
    (
      elim (same_or_not n p) [
        | inl e ↦ ground (arith, none_below (omega (arith, e)))
        | inr d ↦ ground (arith, once, d)
      ],
      λ h. ground (arith, none_below (omega arith), h),
    )
  where
    same_or_not : (i j : ℕ) → (i ≡ j) ⊎ (i ≢ j)
    same_or_not i j = ground arith

start_next : (n : ℕ) → n + 1 < node_count → mem_allocator_init.next n ≡ suc n
unfolding mem_allocator_init
start_next n h = ground arith

start_last : mem_allocator_init.next (node_count - 1) ≡ 0
unfolding mem_allocator_init
start_last = refl

Chain-numbers :
    (n m : ℕ)
    → 1 ≤ n
    → n + suc m ≡ node_count
    → Chain mem_allocator_init.next n (numbers n (suc m)) 0
unfolding numbers
Chain-numbers n zero h e =
    let last : n ≡ node_count - 1 = omega arith in
    (refl, omega arith, ap mem_allocator_init.next last ∙ start_last)
Chain-numbers n (suc m) h e =
    let next = start_next n (omega arith) in
    (
      refl,
      omega arith,
      subst (λ c. Chain mem_allocator_init.next c (numbers (suc n) (suc m)) 0) (sym next)
          (Chain-numbers (suc n) m (omega arith) (omega arith)),
    )

empty_mult : (p : ℕ) → mult p (λ k. []) ≡ 0
empty_mult p = sums-zero (λ k. 0) 16 (λ k h. refl)

empty_total : (f : Weight) (addr : ℕ → ℕ) → total f addr (λ k. []) ≡ 0
unfolding weigh
empty_total f addr = sums-zero (λ k. 0) 16 (λ k h. refl)

start_total :
    (f : Weight) (addr : ℕ → ℕ)
    → total f addr start_lists ≡ weigh f addr 0 (numbers 1 (node_count - 1))
unfolding start_lists weigh
start_total f addr = omega (
  arith,
  total-with_list f addr (λ k. []) 0 (numbers 1 (node_count - 1)) (omega arith),
  empty_total f addr,
)

weigh-spare :
    (f : Weight) (addr : ℕ → ℕ) (ns : List ℕ) → ((a n : ℕ) → f 0 a n ≡ 0) → weigh f addr 0 ns ≡ 0
unfolding weigh
weigh-spare f addr [] e = refl
weigh-spare f addr (n ∷ ns) e = omega (arith, e (addr n) n, weigh-spare f addr ns e)

start_heads : (k : ℕ) → 0 ≢ k → mem_allocator_init.heads k ≡ 0
unfolding mem_allocator_init
start_heads k d = ground arith

first_chain : Chain mem_allocator_init.next (mem_allocator_init.heads 0) (start_lists 0) 0
unfolding start_lists mem_allocator_init
first_chain = Chain-numbers 1 (node_count - 2) (omega arith) refl

other_list : (k : ℕ) → 0 ≢ k → start_lists k ≡ []
unfolding start_lists
other_list k d = with_list-ne (λ i. []) 0 (numbers 1 (node_count - 1)) k d

start-single : (p : ℕ) → mult p start_lists ≤ 1
unfolding start_lists
start-single p =
    let (once, _) = count-numbers p 1 (node_count - 1) in
    omega (
      arith,
      mult-with_list p (λ k. []) 0 (numbers 1 (node_count - 1)) (omega arith),
      empty_mult p,
      once,
    )

start-Shape : Shape mem_allocator_init start_lists
start-Shape = record {
  chains = λ k h. elim (zero_or_not k) [
    | inl e ↦
        subst (λ j. Chain mem_allocator_init.next (mem_allocator_init.heads j) (start_lists j) 0) e
          first_chain
    | inr d ↦
        subst (λ ns. Chain mem_allocator_init.next (mem_allocator_init.heads k) ns 0)
          (sym (other_list k d)) (start_heads k d)
  ];
  single = start-single;
}
  where
    zero_or_not : (k : ℕ) → (0 ≡ k) ⊎ (0 ≢ k)
    zero_or_not k = ground arith

start_weight :
    (f : Weight) (addr : ℕ → ℕ) → ((a n : ℕ) → f 0 a n ≡ 0) → total f addr start_lists ≡ 0
start_weight f addr e = start_total f addr ∙ weigh-spare f addr (numbers 1 (node_count - 1)) e

start-cover : (x : ℕ) → total (cover x) mem_allocator_init.addr start_lists ≡ 0
start-cover x =
    start_weight (cover x) mem_allocator_init.addr
      (λ a n. (cover-Fair x).flat a n ∙ cover-spare x n)

pub start-Sound : Sound mem_allocator_init start_lists
start-Sound = record {
  shape = start-Shape;
  every =
      let all = weigh-each mem_allocator_init.addr 0 (numbers 1 (node_count - 1)) in
      let long = length-numbers 1 (node_count - 1) in
      omega (arith, start_total each mem_allocator_init.addr, all, long);
  aligned = start_weight misaligned mem_allocator_init.addr misaligned-spare;
  positive = start-cover 0;
}

pub start-spare : length (start_lists 0) ≡ node_count - 1
unfolding start_lists
start-spare =
    ap length (with_list_self (λ i. []) 0 (numbers 1 (node_count - 1)))
    ∙ length-numbers 1 (node_count - 1)

-- A heap with that allocator, and no block in use.
pub start-Steady :
    (h : Heap)
    → h.allocator ≡ mem_allocator_init
    → h.heap % 4096 ≡ 0
    → 1 ≤ h.heap
    → Steady h start_lists [] h.heap
unfolding held
start-Steady h e page low = record {
  manages = record {
    sound = subst (λ a. Sound a start_lists) (sym e) start-Sound;
    multiples = refl;
    positive = refl;
    once = λ x bound. omega (arith, none_free x);
  };
  page = page;
  first = low;
  ordered = omega arith;
  within = λ x bound out. omega (arith, none_free x);
}
  where
    none_free : (x : ℕ) → total (cover x) h.allocator.addr start_lists ≡ 0
    none_free x = ap (λ a. total (cover x) a.addr start_lists) e ∙ start-cover x
