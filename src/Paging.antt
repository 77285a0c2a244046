-- ===== src/Paging.antt =====
-- kernel/paging.c: page directories and tables, over a physical memory of words. The last entry of
-- a directory leads to the directory itself, so the kernel reads and writes the directory and the
-- tables in use through virtual addresses: each such access goes through the walk that the
-- processor does. The walk reads memory, as after `invlpg`.
pub mod Entries
pub mod Walk
pub mod Lookup
pub mod Mapping
pub mod Clearing
pub mod NewTable
pub mod Total
pub mod Clone
pub mod Present
pub mod Fill
pub mod Steps
pub mod NewDir
pub mod Switch
pub mod Boot
mod Tests
use vsop.Base.{
  ℕ, zero, suc, ◌+◌, ◌-◌, ◌*◌, ◌/◌, ◌%◌, ◌^◌, Bool, true, false, not, Option, none, some, ◌==◌,
  if◌then◌else◌, bit_and, bit_or,
}
use vsop.Palloc.{Palloc, Result, spins, runs_off, returns, mem_phys_alloc}

-- The word at physical address 4 * i is `mem i`; `cr3` is the address of the directory in use.
pub record Machine : Type 0 where
  pub mem : ℕ → ℕ
  pub cr3 : ℕ
  pub palloc : Palloc

abbrev pub write_word : (ℕ → ℕ) → ℕ → ℕ → ℕ → ℕ
write_word mem i w j = if i == j then w else mem j

-- What the processor reads of an entry: bit 0, and the frame that it leads to.
abbrev pub is_present : ℕ → Bool
is_present e = e % 2 == 1

abbrev pub frame : ℕ → ℕ
frame e = e / 4096 % 2 ^ 20

-- The entry of the directory, and of the table that it leads to, for a virtual address.
abbrev pub dir_word : ℕ → ℕ → ℕ
dir_word cr3 virt = frame cr3 * 1024 + virt / 2 ^ 22 % 1024

abbrev pub table_word : ℕ → ℕ → ℕ
table_word pde virt = frame pde * 1024 + virt / 2 ^ 12 % 1024

-- The processor's walk, to the word of memory at a virtual address; `none` is a page fault.
unfoldable pub walk : Machine → ℕ → Option ℕ
walk m virt =
    let pde = m.mem (dir_word m.cr3 virt) in
    let pte = m.mem (table_word pde virt) in
    if is_present pde
    then (if is_present pte then some (frame pte * 1024 + virt % 4096 / 4) else none)
    else none

unfoldable pub load : Machine → ℕ → Option ℕ
unfolding walk
load m virt = elim (walk m virt) [ none ↦ none | some i ↦ some (m.mem i) ]

unfoldable pub store : Machine → ℕ → ℕ → Option Machine
unfolding walk
store m virt w = elim (walk m virt) [
  | none ↦ none
  | some i ↦ some (record m { mem = write_word m.mem i w })
]

-- PAGE_PRESENT, PAGE_WRITABLE and PAGE_USERMODE
abbrev pub page_present : ℕ
page_present = 1

abbrev pub page_writable : ℕ
page_writable = 2

abbrev pub page_usermode : ℕ
page_usermode = 4

unfoldable pub page_entry : ℕ → ℕ → ℕ
page_entry addr flags = bit_or (bit_and addr 0xfffff000) (bit_and flags 0xfff)

abbrev pub page_dir_index : ℕ → ℕ
page_dir_index addr = addr / 2 ^ 22

unfoldable pub page_table_index : ℕ → ℕ
page_table_index addr = bit_and (addr / 2 ^ 12) 0x3ff

abbrev pub page_dir_virt_addr : ℕ
page_dir_virt_addr = 0xfffff000

-- `PAGE_DIR_VIRT_ADDR - 0x400000 + (id + 1) * 0x1000`
abbrev pub page_table_virt_addr : ℕ → ℕ
page_table_virt_addr id = page_dir_virt_addr - 0x400000 + (id + 1) * 0x1000

-- `page[i]`, for words at a virtual address.
abbrev pub elem : ℕ → ℕ → ℕ
elem page i = page + 4 * i

-- `entry & PAGE_PRESENT`
abbrev pub present_bit : ℕ → Bool
present_bit e = not (bit_and e page_present == 0)

-- `none` where the kernel itself faults.
unfoldable pub paging_is_mapped : Machine → ℕ → Option Bool
unfolding load page_table_index
paging_is_mapped m virt =
    let index = page_dir_index virt in
    elim (load m (elem page_dir_virt_addr index)) [
      | none ↦ none
      | some pde ↦
          if present_bit pde
          then (elim (load m (elem (page_table_virt_addr index) (page_table_index virt))) [
            | none ↦ none
            | some pte ↦ some (present_bit pte)
          ])
          else some false
    ]

unfoldable pub paging_get_phys : Machine → ℕ → Option ℕ
unfolding paging_is_mapped
paging_get_phys m addr = elim (paging_is_mapped m addr) [
  | none ↦ none
  | some false ↦ some 0
  | some true ↦
      elim (load m (elem (page_table_virt_addr (page_dir_index addr)) (page_table_index addr))) [
        | none ↦ none
        | some pte ↦ some (bit_and pte 0xfffff000)
      ]
]

-- `kmemset32(page_table, 0, count)`, from word `i` on.
unfoldable pub clear_words : ℕ → ℕ → ℕ → Machine → Option Machine
unfolding store
clear_words page i zero m = some m
clear_words page i (suc count) m = elim (store m (elem page i) 0) [
  | none ↦ none
  | some m' ↦ clear_words page (i + 1) count m'
]

-- The branch of `paging_map` without a table: a new one is entered and cleared. `none` also where
-- `mem_phys_alloc` does not return.
unfoldable pub new_table : Machine → ℕ → Option Machine
unfolding store clear_words page_entry mem_phys_alloc
new_table m index = elim (mem_phys_alloc m.palloc) [
  | spins ↦ none
  | runs_off ↦ none
  | returns page p ↦
      elim (store (record m { palloc = p }) (elem page_dir_virt_addr index)
        (page_entry page (page_writable + page_usermode + page_present))) [
          | none ↦ none
          | some m' ↦ clear_words (page_table_virt_addr index) 0 1024 m'
        ]
]

unfoldable pub table_for : Machine → ℕ → Option Machine
unfolding load new_table
table_for m index = elim (load m (elem page_dir_virt_addr index)) [
  | none ↦ none
  | some pde ↦ if present_bit pde then some m else new_table m index
]

unfoldable pub paging_map : Machine → ℕ → ℕ → ℕ → Option Machine
unfolding table_for store page_entry page_table_index
paging_map m virt phys flags = elim (table_for m (page_dir_index virt)) [
  | none ↦ none
  | some m' ↦
      store m' (elem (page_table_virt_addr (page_dir_index virt)) (page_table_index virt))
        (page_entry phys flags)
]

unfoldable pub page_dir_switch : Machine → ℕ → Machine
page_dir_switch m newpdir = record m { cr3 = newpdir }

-- `newdir_virt[i] = olddir_virt[i]`, from `i` on.
unfoldable pub copy_words : ℕ → ℕ → ℕ → ℕ → Machine → Option Machine
unfolding load store
copy_words from to i zero m = some m
copy_words from to i (suc count) m = elim (load m (elem from i)) [
  | none ↦ none
  | some w ↦ elim (store m (elem to i) w) [
    | none ↦ none
    | some m' ↦ copy_words from to (i + 1) count m'
  ]
]

infixl 5 ◌>>=◌
abbrev pub ◌>>=◌ {ℓ} : {A B : Type ℓ} → Option A → (A → Option B) → Option B
o >>= f = elim o [ none ↦ none | some a ↦ f a ]

-- `page_dir_clone`: the new directory and the machine. `olddir_virt` and `newdir_virt` are fixed.
unfoldable pub page_dir_clone : Machine → ℕ → Option (ℕ × Machine)
unfolding paging_map copy_words store page_entry mem_phys_alloc
page_dir_clone m olddir = elim (mem_phys_alloc m.palloc) [
  | spins ↦ none
  | runs_off ↦ none
  | returns newdir p ↦ do
    let flags = page_writable + page_present
    m₁ ← paging_map (record m { palloc = p }) 0xcccc0000 (bit_and olddir 0xfffff000) flags
    m₂ ← paging_map m₁ 0xdddd0000 (bit_and newdir 0xfffff000) flags
    m₃ ← copy_words 0xcccc0000 0xdddd0000 0 1023 m₂
    m₄ ← store m₃ (elem 0xdddd0000 1023) (page_entry newdir page_present)
    m₅ ← paging_map m₄ 0xcccc0000 0 0
    m₆ ← paging_map m₅ 0xdddd0000 0 0
    some (newdir, m₆)
]
