-- ===== src/Memory/Regions.antt =====
-- Which pages a region of memory makes free.
use vsop.Base.{
  ℕ, ◌+◌, ◌-◌, ◌*◌, ◌/◌, ◌%◌, ◌^◌, ◌≤◌, ◌<◌, ◌≡◌, ◌≢◌, ◌∙◌, ap, ap₂, true, false, Bool-cases, inl,
  inr, leb→le, lt→ltb, arith, Bool, ◌&&◌, ltb, leb, if◌then◌else◌,
}
use vsop.Palloc.{Palloc, page_size, mem_phys_free_range}
use vsop.Palloc.Bounds.{is_free, IsValid}
use vsop.Palloc.Ranges.{in_range, is_free-mem_phys_free_range}
use vsop.Memory.{Mmap, region_addr, region_end, region_pages, add_region}

-- A region that ends before its first page does, and does not start with it, has 2 ^ 20 - 1 pages.
pub region_pages-small :
    (m : Mmap)
    → m.base_low + 4096 < 2 ^ 32
    → m.base_low % 4096 ≢ 0
    → m.base_low % 4096 + m.length_low < 4096
    → region_pages m ≡ 2 ^ 20 - 1
region_pages-small m h n s = omega arith

usable-add_region :
    (m : Mmap) (p : Palloc)
    → m.type ≡ 1
    → add_region m p ≡ mem_phys_free_range p (region_addr m) (region_pages m)
unfolding add_region
usable-add_region m p h = ground arith

-- Page `k` lies in the region.
abbrev pub lies_in : Mmap → ℕ → Bool
lies_in m k = leb m.base_low (k * 4096) && leb (k * 4096 + 4096) (m.base_low + m.length_low)

le→leb : (a b : ℕ) → a ≤ b → leb a b ≡ true
le→leb a b h = ground arith

leb-false : (a b : ℕ) → (a ≤ b → ⊥) → leb a b ≡ false
leb-false a b h = ground (arith, h)

ltb-false : (a b : ℕ) → (a < b → ⊥) → ltb a b ≡ false
ltb-false a b h = ground (arith, h)

not-leb : (a b : ℕ) → leb a b ≡ false → a ≤ b → ⊥
not-leb a b h p = absurd (ground arith)

leb-cong : (a b c d : ℕ) → (a ≤ b → c ≤ d) → (c ≤ d → a ≤ b) → leb a b ≡ leb c d
leb-cong a b c d f g = elim (Bool-cases (leb c d)) [
  | inl e ↦ rw e (le→leb a b (g (leb→le c d e)))
  | inr e ↦ rw e (leb-false a b (λ p. not-leb c d e (f p)))
]

ltb-cong : (a b c d : ℕ) → (a < b → c ≤ d) → (c ≤ d → a < b) → ltb a b ≡ leb c d
ltb-cong a b c d f g = elim (Bool-cases (leb c d)) [
  | inl e ↦ rw e (lt→ltb a b (g (leb→le c d e)))
  | inr e ↦ rw e (ltb-false a b (λ p. not-leb c d e (f p)))
]

in_range-lies_in :
    (m : Mmap) (k : ℕ)
    → m.base_low + m.length_low + 4095 < 2 ^ 32
    → region_addr m ≤ region_end m
    → in_range (region_addr m / page_size) (region_pages m) k ≡ lies_in m k
in_range-lies_in m k h c =
    let first : region_addr m / page_size ≡ (m.base_low + 4095) / 4096 = omega arith in
    let last : region_addr m / page_size + region_pages m ≡ (m.base_low + m.length_low) / 4096 =
      omega (arith, c) in
    ap₂ (λ a b. a && b)
      (leb-cong (region_addr m / page_size) k m.base_low (k * 4096) (λ p. omega (arith, p, first))
        (λ p. omega (arith, p, first)))
      (ltb-cong k (region_addr m / page_size + region_pages m) (k * 4096 + 4096)
        (m.base_low + m.length_low) (λ p. omega (arith, p, last)) (λ p. omega (arith, p, last)))

-- A usable region that holds a page boundary makes free exactly the pages that lie in it, and
-- leaves every other page as it was.
pub add_region_lem :
    (m : Mmap) (p : Palloc)
    → m.type ≡ 1
    → m.base_low + m.length_low + 4095 < 2 ^ 32
    → region_addr m ≤ region_end m
    → IsValid p
    → IsValid (add_region m p)
      × ((k : ℕ) → is_free (add_region m p) k ≡ (if lies_in m k then 1 else is_free p k))
add_region_lem m p t h c v =
    let (valid, free) =
      is_free-mem_phys_free_range {p = p} (region_addr m) (region_pages m) (omega arith) v in
    rw (usable-add_region m p t)
      (valid, λ k. free k ∙ ap (λ b. if b then 1 else is_free p k) (in_range-lies_in m k h c))
