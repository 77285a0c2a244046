-- ===== src/Palloc/Ranges.antt =====
-- `mem_phys_free_range` and `mem_phys_reserve_range` over ranges that end within 32 bits.
use vsop.Base.{ℕ, Bool, ◌+◌, ◌/◌, ◌≤◌, ◌≡◌, arith, leb, ltb, ◌&&◌, if◌then◌else◌}
use vsop.Base.Loops.{iterate_invariant}
use vsop.Palloc.{page_size, pages, Palloc, mem_phys_free_range, mem_phys_reserve_range, nth_page}
use vsop.Palloc.Bounds.{
  is_free, IsValid, is_free-mem_phys_free, is_free-mem_phys_reserve, mem_phys_free-IsValid,
  mem_phys_reserve-IsValid,
}

-- The range starts at page `first` and has `n` pages, all below the end of the address space.
abbrev pub in_range : ℕ → ℕ → ℕ → Bool
in_range first n k = leb first k && ltb k (first + n)

-- Afterwards exactly the pages of the range, and those that were free before, are free. The map
-- stays valid.
pub is_free-mem_phys_free_range :
    {p : Palloc} (addr n : ℕ)
    → addr / page_size + n ≤ pages
    → IsValid p
    → IsValid (mem_phys_free_range p addr n)
      × ((k : ℕ)
          → is_free (mem_phys_free_range p addr n) k
            ≡ (if in_range (addr / page_size) n k then 1 else is_free p k))
unfolding mem_phys_free_range
is_free-mem_phys_free_range {p} addr n fits v =
    iterate_invariant
      (λ i q.
        IsValid q
        × ((k : ℕ) → is_free q k ≡ (if in_range (addr / page_size) i k then 1 else is_free p k)))
      0 n n (omega arith) (v, λ k. ground arith)
      (λ i q lo hi inv. (
        mem_phys_free-IsValid (nth_page addr i) (omega arith) inv.0,
        λ k. ground (arith, inv.1 k, is_free-mem_phys_free q (nth_page addr i) k),
      ))

-- Afterwards no page of the range is free, and every other page is as it was. The map stays valid.
pub is_free-mem_phys_reserve_range :
    {p : Palloc} (addr n : ℕ)
    → addr / page_size + n ≤ pages
    → IsValid p
    → IsValid (mem_phys_reserve_range p addr n)
      × ((k : ℕ)
          → is_free (mem_phys_reserve_range p addr n) k
            ≡ (if in_range (addr / page_size) n k then 0 else is_free p k))
unfolding mem_phys_reserve_range
is_free-mem_phys_reserve_range {p} addr n fits v =
    iterate_invariant
      (λ i q.
        IsValid q
        × ((k : ℕ) → is_free q k ≡ (if in_range (addr / page_size) i k then 0 else is_free p k)))
      0 n n (omega arith) (v, λ k. ground arith)
      (λ i q lo hi inv. (
        mem_phys_reserve-IsValid (nth_page addr i) (omega arith) inv.0,
        λ k. ground (arith, inv.1 k, is_free-mem_phys_reserve q (nth_page addr i) k),
      ))
