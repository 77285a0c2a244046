-- ===== src/Kmalloc/Weight.antt =====
-- Sums over the nodes of the allocator's lists: what a sum counts is given by a weight of each node,
-- from its list, its address and its number.
use vsop.Base.{
  ℕ, zero, suc, ◌+◌, ◌≤◌, ◌<◌, ◌≡◌, refl, ◌≢◌, ◌∙◌, sym, ap, ◌⊎◌, inl, inr, List, [], ◌∷◌, ◌++◌,
  ◌==◌, if◌then◌else◌, arith,
}
use vsop.Kmalloc.{write_at}

abbrev pub Weight : Type 0
Weight = ℕ → ℕ → ℕ → ℕ

-- The lists of the allocator, by their numbers.
abbrev pub Lists : Type 0
Lists = ℕ → List ℕ

abbrev pub with_list : Lists → ℕ → List ℕ → Lists
with_list ls k ns j = if k == j then ns else ls j

abbrev pub one_if : ℕ → ℕ → ℕ
one_if n p = if n == p then 1 else 0

-- How often node `p` stands in a list.
abbrev pub count : ℕ → List ℕ → ℕ
count p [] = 0
count p (n ∷ ns) = one_if n p + count p ns

unfoldable pub weigh : Weight → (ℕ → ℕ) → ℕ → List ℕ → ℕ
weigh f addr k [] = 0
weigh f addr k (n ∷ ns) = f k (addr n) n + weigh f addr k ns

-- `g 0 + ... + g (n - 1)`
unfoldable pub sums : (ℕ → ℕ) → ℕ → ℕ
sums g zero = 0
sums g (suc n) = sums g n + g n

abbrev pub total : Weight → (ℕ → ℕ) → Lists → ℕ
total f addr ls = sums (λ k. weigh f addr k (ls k)) 16

abbrev pub mult : ℕ → Lists → ℕ
mult p ls = sums (λ k. count p (ls k)) 16

-- The weights that count a node.
abbrev pub of_node : ℕ → Weight
of_node p k a n = one_if n p

pub with_list_self : (ls : Lists) (k : ℕ) (ns : List ℕ) → with_list ls k ns k ≡ ns
with_list_self ls k ns = ground arith

pub with_list-ne : (ls : Lists) (k : ℕ) (ns : List ℕ) (j : ℕ) → k ≢ j → with_list ls k ns j ≡ ls j
with_list-ne ls k ns j h = ground arith

pub sums-cong : (g h : ℕ → ℕ) (n : ℕ) → ((k : ℕ) → k < n → g k ≡ h k) → sums g n ≡ sums h n
unfolding sums
sums-cong g h zero e = refl
sums-cong g h (suc n) e =
    let last : g n ≡ h n = e n (omega arith) in
    omega (arith, sums-cong g h n (λ k l. e k (omega arith)), last)

last_or_below : (k n : ℕ) → k < suc n → (k ≡ n) ⊎ (k < n)
last_or_below k n h = ground arith

-- Two sums that differ in one place.
pub sums-change :
    (g h : ℕ → ℕ) (n k : ℕ)
    → k < n
    → ((j : ℕ) → j ≢ k → g j ≡ h j)
    → sums g n + h k ≡ sums h n + g k
unfolding sums
sums-change g h zero k l e = absurd (omega arith)
sums-change g h (suc n) k l e = elim (last_or_below k n l) [
  | inl same ↦
      let before = sums-cong g h n (λ j m. e j (λ q. omega (arith, q, m, same))) in
      rw same (omega (arith, before))
  | inr below ↦
      let last : g n ≡ h n = e n (λ q. omega (arith, q, below)) in
      omega (arith, sums-change g h n k below e, last)
]

pub sums-zero : (g : ℕ → ℕ) (n : ℕ) → ((k : ℕ) → k < n → g k ≡ 0) → sums g n ≡ 0
unfolding sums
sums-zero g zero e = refl
sums-zero g (suc n) e =
    let last : g n ≡ 0 = e n (omega arith) in
    omega (arith, sums-zero g n (λ k l. e k (omega arith)), last)

pub le-sums : (g : ℕ → ℕ) (n k : ℕ) → k < n → g k ≤ sums g n
unfolding sums
le-sums g zero k l = absurd (omega arith)
le-sums g (suc n) k l = elim (last_or_below k n l) [
  | inl same ↦ rw same (omega arith)
  | inr below ↦ omega (arith, le-sums g n k below)
]

pub add-le-sums : (g : ℕ → ℕ) (n j k : ℕ) → j < n → k < n → j ≢ k → g j + g k ≤ sums g n
unfolding sums
add-le-sums g zero j k l m d = absurd (omega arith)
add-le-sums g (suc n) j k l m d = elim (last_or_below j n l) [
  | inl same ↦
      let below : k < n = omega (arith, d, same) in rw same (omega (arith, le-sums g n k below))
  | inr low ↦ elim (last_or_below k n m) [
    | inl same ↦ rw same (omega (arith, le-sums g n j low))
    | inr below ↦ omega (arith, add-le-sums g n j k low below d)
  ]
]

pub count-append : (p : ℕ) (xs ys : List ℕ) → count p (xs ++ ys) ≡ count p xs + count p ys
count-append p [] ys = omega arith
count-append p (n ∷ xs) ys = omega (arith, count-append p xs ys)

pub weigh-append :
    (f : Weight) (addr : ℕ → ℕ) (k : ℕ) (xs ys : List ℕ)
    → weigh f addr k (xs ++ ys) ≡ weigh f addr k xs + weigh f addr k ys
unfolding weigh
weigh-append f addr k [] ys = omega arith
weigh-append f addr k (n ∷ xs) ys = omega (arith, weigh-append f addr k xs ys)

pub weigh-of_node :
    (p : ℕ) (addr : ℕ → ℕ) (k : ℕ) (ns : List ℕ) → weigh (of_node p) addr k ns ≡ count p ns
unfolding weigh
weigh-of_node p addr k [] = refl
weigh-of_node p addr k (n ∷ ns) = omega (arith, weigh-of_node p addr k ns)

pub total-of_node : (p : ℕ) (addr : ℕ → ℕ) (ls : Lists) → total (of_node p) addr ls ≡ mult p ls
total-of_node p addr ls =
    sums-cong (λ k. weigh (of_node p) addr k (ls k)) (λ k. count p (ls k)) 16
      (λ k h. weigh-of_node p addr k (ls k))

-- A write to the address of a node that is not in the list.
pub weigh-write :
    (f : Weight) (addr : ℕ → ℕ) (p v k : ℕ) (ns : List ℕ)
    → count p ns ≡ 0
    → weigh f (write_at addr p v) k ns ≡ weigh f addr k ns
unfolding weigh
weigh-write f addr p v k [] h = refl
weigh-write f addr p v k (n ∷ ns) h =
    let other : write_at addr p v n ≡ addr n = ground arith in
    let rest = weigh-write f addr p v k ns (omega arith) in
    ap (λ a. f k a n + weigh f (write_at addr p v) k ns) other ∙ ap (λ w. f k (addr n) n + w) rest

pub count-mult : (p : ℕ) (ls : Lists) (k : ℕ) → k < 16 → count p (ls k) ≤ mult p ls
count-mult p ls k h = le-sums (λ j. count p (ls j)) 16 k h

pub total-write :
    (f : Weight) (addr : ℕ → ℕ) (p v : ℕ) (ls : Lists)
    → mult p ls ≡ 0
    → total f (write_at addr p v) ls ≡ total f addr ls
total-write f addr p v ls h =
    sums-cong (λ k. weigh f (write_at addr p v) k (ls k)) (λ k. weigh f addr k (ls k)) 16
      (λ k l. weigh-write f addr p v k (ls k) (omega (arith, h, count-mult p ls k l)))

-- Sums before and after one list changes.
pub total-with_list :
    (f : Weight) (addr : ℕ → ℕ) (ls : Lists) (k : ℕ) (ns : List ℕ)
    → k < 16
    → total f addr ls + weigh f addr k ns ≡ total f addr (with_list ls k ns) + weigh f addr k (ls k)
total-with_list f addr ls k ns h =
    let e =
      sums-change (λ j. weigh f addr j (ls j)) (λ j. weigh f addr j (with_list ls k ns j)) 16 k h
        (λ j d. ap (weigh f addr j) (sym (with_list-ne ls k ns j (λ q. d (sym q))))) in
    rw (with_list_self ls k ns) at e

pub mult-with_list :
    (p : ℕ) (ls : Lists) (k : ℕ) (ns : List ℕ)
    → k < 16
    → mult p ls + count p ns ≡ mult p (with_list ls k ns) + count p (ls k)
mult-with_list p ls k ns h =
    let e =
      sums-change (λ j. count p (ls j)) (λ j. count p (with_list ls k ns j)) 16 k h
        (λ j d. ap (count p) (sym (with_list-ne ls k ns j (λ q. d (sym q))))) in
    rw (with_list_self ls k ns) at e
