-- ===== src/Kmalloc/Order.antt =====
-- The list that a size belongs to.
use vsop.Base.{
  ℕ, zero, suc, ◌+◌, ◌-◌, ◌*◌, ◌%◌, ◌^◌, ◌≤◌, ◌<◌, ◌≡◌, refl, ◌∙◌, ap, ◌⊎◌, inl, inr, true, false,
  leb, ltb, some, arith,
}
use native.Mathlib.Nat.{pow-le-pow_right}
use native.Mathlib.Omega.{pow_step}
use vsop.Kmalloc.{order_from, alloc_order, free_from, free_order, list_size, node_count}

-- Blocks of list `o` hold the size, and those of the list before do not.
pub record IsOrder (size o : ℕ) : Type 0 where
  pub first : 1 ≤ o
  pub last : o ≤ 28
  pub fits : size ≤ 2 ^ (o + 3)
  pub least : (o ≡ 1) ⊎ (2 ^ (o + 2) < size)

order-here : (size i b count : ℕ) → size ≤ b → 0 < count → order_from size i b count ≡ some i
unfolding order_from
order-here size i b zero h k = absurd (omega arith)
order-here size i b (suc count) h k =
    let e : leb size b ≡ true = ground arith in rw (e, order_from) refl

order-later :
    (size i b count : ℕ)
    → b < size
    → order_from size i b (suc count) ≡ order_from size (i + 1) (b * 2 % 2 ^ 32) count
unfolding order_from
order-later size i b count h = let e : leb size b ≡ false = ground arith in rw (e, order_from) refl

free-here : (fuel size i b : ℕ) → size ≤ b → 0 < fuel → free_from fuel size i b ≡ some i
unfolding free_from
free-here zero size i b h k = absurd (omega arith)
free-here (suc fuel) size i b h k =
    let e : ltb b size ≡ false = ground arith in rw (e, free_from) refl

free-later :
    (fuel size i b : ℕ)
    → b < size
    → i < 255
    → free_from (suc fuel) size i b ≡ free_from fuel size (i + 1) (b * 2 % 2 ^ 32)
unfolding free_from
free-later fuel size i b h k =
    let e : ltb b size ≡ true = ground arith in
    let small : (i + 1) % 2 ^ 8 ≡ i + 1 = omega arith in
    rw (e, free_from) (ap (λ j. free_from fuel size j (b * 2 % 2 ^ 32)) small)

double_block : (i b : ℕ) → i ≤ 27 → b ≡ 2 ^ (i + 3) → b * 2 % 2 ^ 32 ≡ 2 ^ (i + 1 + 3)
double_block i b h e =
    let bound : 2 ^ (i + 3) ≤ 2 ^ 30 =
      pow-le-pow_right {n = 2} (omega arith) {i = i + 3} {j = 30} (omega arith) in
    let next : 2 ^ (i + 1 + 3) ≡ 2 ^ suc (i + 3) = ap (λ n. 2 ^ n) (omega arith) in
    omega (arith, e, bound, next, pow_step 2 (i + 3))

last_block : (i b : ℕ) → i ≡ 28 → b ≡ 2 ^ (i + 3) → b ≡ 2 ^ 31
last_block i b h e = let same : i + 3 ≡ 31 = omega arith in e ∙ ap (λ n. 2 ^ n) same

below_or_above : (a b : ℕ) → (a ≤ b) ⊎ (b < a)
below_or_above a b = ground arith

-- What both loops find from list `i` on, in `d + 1` rounds at most.
Finds : ℕ → ℕ → ℕ → ℕ → Type 0
Finds d size i b =
    (o : ℕ) × IsOrder size o
    × ((count : ℕ) → d < count → order_from size i b count ≡ some o)
    × ((fuel : ℕ) → d < fuel → free_from fuel size i b ≡ some o)

Finds-here :
    (d size i b : ℕ)
    → 1 ≤ i
    → i ≤ 28
    → b ≡ 2 ^ (i + 3)
    → (i ≡ 1) ⊎ (2 ^ (i + 2) < size)
    → size ≤ b
    → Finds d size i b
unfolding Finds
Finds-here d size i b first last e least fits = (
  i,
  record { first = first; last = last; fits = rw (← e) fits; least = least },
  (λ count h. order-here size i b count fits (omega arith)),
  λ fuel h. free-here fuel size i b fits (omega arith),
)

Finds-later :
    (d size i b : ℕ)
    → i ≤ 27
    → b < size
    → Finds d size (i + 1) (b * 2 % 2 ^ 32)
    → Finds (suc d) size i b
unfolding Finds
Finds-later d size i b h more (o, is, alloc, free) = (o, is, allocs, frees)
  where
    allocs : (count : ℕ) → suc d < count → order_from size i b count ≡ some o
    allocs zero k = absurd (omega arith)
    allocs (suc count) k = order-later size i b count more ∙ alloc count (omega arith)

    frees : (fuel : ℕ) → suc d < fuel → free_from fuel size i b ≡ some o
    frees zero k = absurd (omega arith)
    frees (suc fuel) k = free-later fuel size i b more (omega arith) ∙ free fuel (omega arith)

finds :
    (d size i b : ℕ)
    → i + d ≡ 28
    → 1 ≤ i
    → b ≡ 2 ^ (i + 3)
    → size ≤ 2 ^ 31
    → (i ≡ 1) ⊎ (2 ^ (i + 2) < size)
    → Finds d size i b
finds zero size i b e first eb h least =
    Finds-here zero size i b first (omega arith) eb least
      (omega (arith, h, last_block i b (omega arith) eb))
finds (suc d) size i b e first eb h least = elim (below_or_above size b) [
  | inl fits ↦ Finds-here (suc d) size i b first (omega arith) eb least fits
  | inr more ↦
      let same : 2 ^ (i + 1 + 2) ≡ 2 ^ (i + 3) = ap (λ n. 2 ^ n) (omega arith) in
      Finds-later d size i b (omega arith) more (
        finds d size (i + 1) (b * 2 % 2 ^ 32) (omega arith) (omega arith)
          (double_block i b (omega arith) eb) h (inr (omega (arith, same, eb, more))))
]

-- For a size up to 2 ^ 31 mem_alloc and mem_free choose the same list, mem_free's loop within 28
-- rounds: the first list from 1 on whose blocks hold the size.
pub alloc_order-free_order :
    (size : ℕ)
    → size ≤ 2 ^ 31
    → (o : ℕ) × IsOrder size o
      × (alloc_order size ≡ some o)
      × ((fuel : ℕ) → 28 ≤ fuel → free_order fuel size ≡ some o)
unfolding alloc_order free_order Finds
alloc_order-free_order size h =
    let (o, is, alloc, free) = finds 27 size 1 (list_size 1) refl (omega arith) refl h (inl refl) in
    (o, is, alloc (node_count - 1) (omega arith), λ fuel k. free fuel (omega arith))
