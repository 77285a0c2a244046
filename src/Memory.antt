-- ===== src/Memory.antt =====
-- kernel/memory.c: pages and addresses, and how the boot loader's map of memory fills the page map.
-- The kernel's heap, its break and the mapping of the controllers stand on paging and are left out.
pub mod Regions
mod Tests
use vsop.Base.{ℕ, ◌+◌, ◌-◌, ◌*◌, ◌/◌, ◌%◌, ◌^◌, List, [], ◌∷◌, Bool, ◌==◌, if◌then◌else◌}
use vsop.Palloc.{Palloc, page_size, mem_phys_free_range, mem_phys_reserve, mem_phys_reserve_range}

-- `page_count`, in 32 bits.
abbrev pub page_count : ℕ → ℕ
page_count bytes = (bytes + page_size - 1) % 2 ^ 32 / page_size

-- `page_align`: the page's first address; `PAGE_SHIFT` is 12.
abbrev pub page_align : ℕ → ℕ
page_align addr = addr / 2 ^ 12 * 2 ^ 12

-- The fields of `struct mmap` that the kernel reads; its size only leads to the next one.
pub record Mmap : Type 0 where
  pub base_low : ℕ
  pub length_low : ℕ
  pub type : ℕ

-- `addr`, `end` and `pages` of one region, in 32 bits.
abbrev pub region_addr : Mmap → ℕ
region_addr m = page_align ((m.base_low + page_size - 1) % 2 ^ 32)

abbrev pub region_end : Mmap → ℕ
region_end m = page_align ((m.base_low + m.length_low) % 2 ^ 32)

abbrev pub region_pages : Mmap → ℕ
region_pages m = (region_end m + 2 ^ 32 - region_addr m) % 2 ^ 32 / page_size

-- One round of the loop of `mem_init`.
unfoldable pub add_region : Mmap → Palloc → Palloc
add_region m p = if m.type == 1 then mem_phys_free_range p (region_addr m) (region_pages m) else p

unfoldable pub add_regions : List Mmap → Palloc → Palloc
unfolding add_region
add_regions [] p = p
add_regions (m ∷ ms) p = add_regions ms (add_region m p)

-- What `mem_init` does to the page map: the last are the interrupt controllers' addresses.
unfoldable pub mem_init : List Mmap → Palloc → Palloc
unfolding add_regions
mem_init mmap p =
    let p₀ = mem_phys_reserve (add_regions mmap p) 0 in
    let p₁ = mem_phys_reserve_range p₀ 1048576 (1048576 / page_size) in
    let p₂ = mem_phys_reserve p₁ 4276092928 in mem_phys_reserve p₂ 4273995776
