-- ===== src/Mboot.antt =====
-- kernel/mboot.c: what the boot loader hands over. The modules' programs are loaded by Loading; the
-- prints and the mapping of the command line are left out.
pub mod Modules
pub mod Cmdline
mod Tests
use vsop.Base.{
  ℕ, zero, suc, ◌+◌, ◌-◌, ◌*◌, ◌/◌, ◌%◌, ◌^◌, Bool, List, [], ◌∷◌, Option, none, some, leb,
  if◌then◌else◌, length, drop,
}
use vsop.Memory.{Mmap, page_count, page_align, mem_init}
use vsop.Palloc.{Palloc, mem_phys_init, mem_phys_reserve, mem_phys_reserve_range}
use vsop.Util.{first, ksubstr}

-- The fields of `struct module_info` that the kernel reads; an entry has 16 bytes.
pub record ModuleInfo : Type 0 where
  pub mod_start : ℕ
  pub mod_end : ℕ

-- `mod_end - page_align(mod_start)`, in 32 bits, as a number of pages.
abbrev pub module_pages : ModuleInfo → ℕ
module_pages m = page_count ((m.mod_end + 2 ^ 32 - page_align m.mod_start) % 2 ^ 32)

-- A round of the loop of `mboot_parse`, for the entry at `mod_info`.
unfoldable pub reserve_module : ℕ → ModuleInfo → Palloc → Palloc
reserve_module mod_info m p =
    mem_phys_reserve (mem_phys_reserve_range p (page_align m.mod_start) (module_pages m))
      (page_align mod_info)

unfoldable pub reserve_modules : ℕ → List ModuleInfo → Palloc → Palloc
unfolding reserve_module
reserve_modules mod_info [] p = p
reserve_modules mod_info (m ∷ ms) p =
    reserve_modules (mod_info + 16) ms (reserve_module mod_info m p)

-- `mboot_parse`, with the address of the boot information.
unfoldable pub mboot_parse : ℕ → List Mmap → ℕ → List ModuleInfo → Palloc → Palloc
unfolding mem_init reserve_modules
mboot_parse mboot mmap mods_addr mods p =
    reserve_modules mods_addr mods
      (mem_phys_reserve (mem_init mmap (mem_phys_init p)) (page_align mboot))

-- `cmdline_find`: the rest of the command line from the place that it finds.
unfoldable pub cmdline_find : List ℕ → List ℕ → Option (List ℕ)
unfolding ksubstr
cmdline_find [] txt = none
cmdline_find (c ∷ s) txt =
    let rest = cmdline_find s txt in if ksubstr (c ∷ s) txt then some (c ∷ s) else rest

-- "max_cpu="
abbrev pub max_cpu_param : List ℕ
max_cpu_param = 109 ∷ 97 ∷ 120 ∷ 95 ∷ 99 ∷ 112 ∷ 117 ∷ 61 ∷ []

-- `*(max_cpu_param + 8)`: where the command line ends before, a byte from behind its end.
abbrev pub param_char : ℕ → List ℕ → ℕ
param_char behind s = if leb 8 (length s) then first (drop 8 s) else behind

-- What `mboot_parse_cmdline` makes of `maximum_cpu`, a number of 8 bits. The test of the flags is
-- whether there are any.
unfoldable pub mboot_parse_cmdline : ℕ → ℕ → List ℕ → ℕ → ℕ
unfolding cmdline_find
mboot_parse_cmdline zero behind cmdline maximum_cpu = maximum_cpu
mboot_parse_cmdline (suc flags) behind cmdline maximum_cpu =
    elim (cmdline_find cmdline max_cpu_param) [
      | none ↦ maximum_cpu
      | some s ↦ (param_char behind s + 2 ^ 8 - 48) % 2 ^ 8
    ]
