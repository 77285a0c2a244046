-- ===== src/Kmalloc/Covers.antt =====
-- Sums over the lists that the memory manager keeps: how often a byte lies in a free block, and how
-- many blocks do not stand at a multiple of their size.
use vsop.Base.{
  ℕ, zero, suc, ◌+◌, ◌-◌, ◌%◌, ◌^◌, ◌≤◌, ◌<◌, ◌≡◌, refl, ◌∙◌, sym, ap, ◌==◌, ltb, false,
  if◌then◌else◌, arith,
}
use native.Mathlib.Nat.{
  pow-le-pow_right, dvd_trans, dvd-add, dvd_refl, dvd-mod_iff, mod-eq-zero_of_dvd,
  dvd_of_mod-eq-zero,
}
use native.Mathlib.Omega.{pow_step}
use Prim.Native.Nat.{◌∣◌}
use mathlib.Core.Logic.{◌↔◌}
use mathlib.Core.Path.{subst}
use vsop.Kmalloc.{list_size}
use vsop.Kmalloc.Weight.{Weight}
use vsop.Kmalloc.Puts.{Mergeable}

-- What counts for as much before as behind a merge, and of a free node without its address.
pub record Fair (f : Weight) : Type 0 where
  pub merges : Mergeable f
  pub flat : (addr n : ℕ) → f 0 addr n ≡ f 0 0 n

-- Byte `x` lies in the `size` bytes at `addr`, on the circle of the addresses.
abbrev pub covers : ℕ → ℕ → ℕ → ℕ
covers x addr size = if ltb ((x + (2 ^ 32 - addr % 2 ^ 32)) % 2 ^ 32) size then 1 else 0

-- How often a byte is free.
unfoldable pub cover : ℕ → Weight
cover x k addr n = if k == 0 then 0 else covers x addr (list_size k)

unfoldable pub misaligned : Weight
misaligned k addr n = if k == 0 then 0 else if addr % list_size k == 0 then 0 else 1

pub list_size-double : (k : ℕ) → k < 15 → list_size (k + 1) ≡ list_size k + list_size k
list_size-double k h =
    let bound : 2 ^ (k + 3) ≤ 2 ^ 18 =
      pow-le-pow_right {n = 2} (omega arith) {i = k + 3} {j = 18} (omega arith) in
    let next : 2 ^ (k + 1 + 3) ≡ 2 ^ suc (k + 3) = ap (λ n. 2 ^ n) (omega arith) in
    omega (arith, bound, next, pow_step 2 (k + 3))

pub list_size-Bounds : (k : ℕ) → k < 16 → (1 ≤ list_size k) × (list_size k ≤ 2 ^ 18)
list_size-Bounds k h =
    let bound : 2 ^ (k + 3) ≤ 2 ^ 18 =
      pow-le-pow_right {n = 2} (omega arith) {i = k + 3} {j = 18} (omega arith) in
    let low : 2 ^ 0 ≤ 2 ^ (k + 3) =
      pow-le-pow_right {n = 2} (omega arith) {i = 0} {j = k + 3} (omega arith) in
    (omega (arith, bound, low), omega (arith, bound))

covers-halves :
    (x addr size : ℕ)
    → size ≤ 2 ^ 30
    → covers x addr (size + size) ≡ covers x addr size + covers x ((addr + size) % 2 ^ 32) size
covers-halves x addr size h = ground arith

pub cover-block : (x k addr n : ℕ) → 1 ≤ k → cover x k addr n ≡ covers x addr (list_size k)
unfolding cover
cover-block (zero) k addr n h = ground arith
cover-block (suc x) k addr n h = ground arith

-- A size divides the next one, so the end of the addresses.
size-dvd-next : (k : ℕ) → k < 15 → list_size k ∣ list_size (k + 1)
size-dvd-next k h =
    subst (λ n. list_size k ∣ n) (sym (list_size-double k h))
      (dvd-add (list_size k) (dvd_refl (list_size k)) (dvd_refl (list_size k)))

size-dvd-end : (k levels : ℕ) → k + levels ≡ 15 → list_size k ∣ 2 ^ 32
size-dvd-end k zero e =
    let last : 15 ≡ k = omega arith in
    subst (λ j. list_size j ∣ 2 ^ 32) last (dvd_of_mod-eq-zero (list_size 15) refl)
size-dvd-end k (suc levels) e =
    dvd_trans (list_size k) (size-dvd-next k (omega arith))
      (size-dvd-end (k + 1) levels (omega arith))

-- The halves of a block stand at multiples of their size.
pub halves-aligned :
    (k addr : ℕ)
    → k < 15
    → addr % list_size (k + 1) ≡ 0
    → (addr % list_size k ≡ 0) × ((addr + list_size k) % 2 ^ 32 % list_size k ≡ 0)
halves-aligned k addr h aligned =
    let size = list_size k in
    let lower : size ∣ addr =
      dvd_trans size (size-dvd-next k h) (dvd_of_mod-eq-zero (list_size (k + 1)) aligned) in
    let upper = dvd-add size lower (dvd_refl size) in
    (
      mod-eq-zero_of_dvd size lower,
      mod-eq-zero_of_dvd size ((dvd-mod_iff size (size-dvd-end k (15 - k) (omega arith))).1 upper),
    )

pub cover-Fair : (x : ℕ) → Fair (cover x)
unfolding cover
cover-Fair x = record {
  merges = λ k addr n m low high aligned.
      let bound = (list_size-Bounds k (omega arith)).1 in
      let halves = covers-halves x addr (list_size k) (omega (arith, bound)) in
      let whole = ap (covers x addr) (list_size-double k high) in
      let z : (k == 0) ≡ false = ground arith in
      let y : (k + 1 == 0) ≡ false = ground arith in rw (z, y) (omega (arith, halves, whole));
  flat = λ addr n. refl;
}

pub misaligned-zero : (k addr n : ℕ) → 1 ≤ k → (misaligned k addr n ≡ 0) ↔ (addr % list_size k ≡ 0)
unfolding misaligned
misaligned-zero k addr n low = (λ e. ground arith, λ e. ground arith)

pub misaligned-spare : (addr n : ℕ) → misaligned 0 addr n ≡ 0
unfolding misaligned
misaligned-spare addr n = refl

pub misaligned-Fair : Fair misaligned
misaligned-Fair = record {
  merges = λ k addr n m low high aligned.
      let (lower, upper) = halves-aligned k addr high aligned in
      let u = (misaligned-zero k addr n low).1 lower in
      let v = (misaligned-zero k ((addr + list_size k) % 2 ^ 32) m low).1 upper in
      let w = (misaligned-zero (k + 1) addr n (omega arith)).1 aligned in
      omega (arith, u, v, w, misaligned-spare 0 m);
  flat = λ addr n. misaligned-spare addr n ∙ sym (misaligned-spare 0 n);
}

pub cover-spare : (x n : ℕ) → cover x 0 0 n ≡ 0
unfolding cover
cover-spare x n = refl
