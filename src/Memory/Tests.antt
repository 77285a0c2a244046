-- ===== src/Memory/Tests.antt =====
-- Two regions of a boot map, and the theorems at them.
use vsop.Base.{ℕ, ◌≡◌, refl, arith, if◌then◌else◌}
use vsop.Palloc.{Palloc, mem_phys_init}
use vsop.Palloc.Bounds.{is_free, IsValid, mem_phys_init-IsValid}
use vsop.Memory.{Mmap, add_region}
use vsop.Memory.Regions.{lies_in, add_region_lem}

empty : Palloc
unfolding mem_phys_init
empty = mem_phys_init (record { memory_map = λ i. 0; lock = 0 })

empty-IsValid : IsValid empty
unfolding empty
empty-IsValid = mem_phys_init-IsValid _ (λ i. omega arith)

-- Below 640K, with its last kilobyte in use.
abbrev low_memory : Mmap
low_memory = record { base_low = 0; length_low = 654336; type = 1 }

abbrev piece : Mmap
piece = record { base_low = 4352; length_low = 100; type = 1 }

add_region_lem_example :
    IsValid (add_region low_memory empty)
    × ((k : ℕ)
        → is_free (add_region low_memory empty) k
          ≡ (if lies_in low_memory k then 1 else is_free empty k))
add_region_lem_example =
    add_region_lem low_memory empty refl (omega arith) (omega arith) empty-IsValid
