-- ===== src/Mboot/Tests.antt =====
-- Modules and command lines, and the theorems at them.
use vsop.Base.{ℕ, zero, suc, ◌<◌, ◌≡◌, refl, List, [], ◌∷◌, get_or, arith}
use vsop.Palloc.{Palloc, mem_phys_init}
use vsop.Palloc.Bounds.{mem_phys_init-IsValid}
use vsop.Mboot.{ModuleInfo, reserve_modules, mboot_parse_cmdline}
use vsop.Mboot.Modules.{Fits, Protected, reserve_modules_lem}

abbrev empty : Palloc
empty = mem_phys_init (record { memory_map = λ i. 0; lock = 0 })

abbrev modules : List ModuleInfo
modules =
    record { mod_start = 1048576; mod_end = 1060000 }
    ∷ record { mod_start = 1060864; mod_end = 1065000 }
    ∷ []

modules-Fits : (i : ℕ) (m : ModuleInfo) → i < 2 → Fits (get_or modules i m)
modules-Fits zero m h = record { ordered = omega arith; bounded = omega arith }
modules-Fits (suc zero) m h = record { ordered = omega arith; bounded = omega arith }
modules-Fits (suc (suc i)) m h = absurd (omega arith)

reserve_modules_lem_example : Protected 65536 modules empty (reserve_modules 65536 modules empty)
reserve_modules_lem_example =
    reserve_modules_lem 65536 modules empty modules-Fits (omega arith)
      (mem_phys_init-IsValid _ (λ i. omega arith))

-- A command line that ends inside the parameter's name is taken to have it.
cut_short : mboot_parse_cmdline 1 200 (113 ∷ 32 ∷ 109 ∷ 97 ∷ 120 ∷ []) 8 ≡ 152
unfolding mboot_parse_cmdline
cut_short = refl

-- "q max_cpu=4"
