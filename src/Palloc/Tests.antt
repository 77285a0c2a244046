-- ===== src/Palloc/Tests.antt =====
-- Concrete maps, and the theorems at them.
use vsop.Base.{ℕ, ◌+◌, ◌*◌, ◌/◌, ◌%◌, ◌<◌, ◌≡◌, refl, ◌⊎◌, arith, some, ◌==◌, if◌then◌else◌}
use vsop.Base.Bits.{bit_zero}
use vsop.Palloc.{
  page_size, pages, bits, Palloc, mem_phys_init, mem_phys_free, mem_phys_reserve, find_entry, spins,
  returns, mem_phys_alloc,
}
use vsop.Palloc.Bounds.{
  is_free, IsValid, is_free-mem_phys_free, is_free-mem_phys_reserve, mem_phys_init-IsValid,
  mem_phys_free-IsValid, mem_phys_reserve-IsValid,
}
use vsop.Palloc.Alloc.{Allocated, mem_phys_alloc_lem, mem_phys_alloc-exhausted}

-- The array at the program's start, with its guard.
empty : Palloc
unfolding mem_phys_init
empty = mem_phys_init (record { memory_map = λ i. 0; lock = 0 })

empty-IsValid : IsValid empty
unfolding empty
empty-IsValid = mem_phys_init-IsValid _ (λ i. omega arith)

-- Page 70 is free.
abbrev one_page : Palloc
one_page = mem_phys_free empty (70 * 4096 + 5)

one_page-IsValid : IsValid one_page
one_page-IsValid = mem_phys_free-IsValid (70 * 4096 + 5) (omega arith) empty-IsValid

takes_page_70 : find_entry 8 one_page.memory_map 0 ≡ some 2
unfolding find_entry mem_phys_free empty
takes_page_70 = refl

unlocked : one_page.lock ≡ 0
unfolding empty mem_phys_free
unlocked = refl

mem_phys_free-IsValid_example : IsValid (mem_phys_free empty 4096)
mem_phys_free-IsValid_example = mem_phys_free-IsValid 4096 (omega arith) empty-IsValid

mem_phys_reserve-IsValid_example : IsValid (mem_phys_reserve one_page 286720)
mem_phys_reserve-IsValid_example = mem_phys_reserve-IsValid 286720 (omega arith) one_page-IsValid

is_free-mem_phys_free_example :
    is_free (mem_phys_free empty 286725) 70
    ≡ (if 286725 / page_size == 70 then 1 else is_free empty 70)
is_free-mem_phys_free_example = is_free-mem_phys_free empty 286725 70

is_free-mem_phys_reserve_example :
    is_free (mem_phys_reserve one_page 286720) 70
    ≡ (if 286720 / page_size == 70 then 0 else is_free one_page 70)
is_free-mem_phys_reserve_example = is_free-mem_phys_reserve one_page 286720 70

mem_phys_alloc_lem_example :
    ((addr : ℕ) × (q : Palloc) × (mem_phys_alloc one_page ≡ returns addr q)
      × Allocated one_page addr q)
    ⊎ ((mem_phys_alloc one_page ≡ returns 0xdeadc0de (record one_page { lock = 1 }))
        × ((n : ℕ) → n < pages → is_free one_page n ≡ 0))
mem_phys_alloc_lem_example = mem_phys_alloc_lem one_page one_page-IsValid unlocked

empty-unlocked : empty.lock ≡ 0
unfolding empty
empty-unlocked = refl

zeros : (n : ℕ) → n < pages → empty.memory_map (n / bits) ≡ 0
unfolding empty
zeros n h = ground arith

empty-full : (n : ℕ) → n < pages → is_free empty n ≡ 0
empty-full n h = rw (zeros n h) (bit_zero (n % bits))

mem_phys_alloc-exhausted_example :
    (q : Palloc) × (mem_phys_alloc empty ≡ returns 0xdeadc0de q) × (mem_phys_alloc q ≡ spins)
mem_phys_alloc-exhausted_example =
    mem_phys_alloc-exhausted empty empty-IsValid empty-unlocked empty-full
