-- ===== src/Loading.antt =====
-- kernel/elf.c, and proc_create of kernel/process.c: a program in memory becomes a process. The file
-- is a list of bytes at address `buf`, whose reads out of bounds give 0. The thread that `elf_load`
-- starts in the process is not modelled.
pub mod Scan
mod Tests
use vsop.Base.{
  ℕ, zero, suc, ◌+◌, ◌*◌, ◌^◌, ◌%◌, List, [], ◌∷◌, Bool, true, false, Option, none, some, ◌==◌,
  if◌then◌else◌, get_or, set, drop,
}
use vsop.Base.Loops.{iterate}
use vsop.Descriptors.{no_descriptors}
use vsop.Memory.{page_count, page_align}
use vsop.Paging.{
  Machine, ◌>>=◌, page_present, page_writable, page_usermode, paging_map, page_dir_switch,
  page_dir_clone,
}
use vsop.Process.{Process, ProcSection, Sections, no_sections, find_next_pid}
use vsop.Util.{Order, same, kstrcmp}

-- Words of the file, of 16 and 32 bits.
abbrev pub half : List ℕ → ℕ → ℕ
half file i = get_or file i 0 + get_or file (i + 1) 0 * 2 ^ 8

abbrev pub word : List ℕ → ℕ → ℕ
word file i = half file i + half file (i + 2) * 2 ^ 16

-- The text at a place of the file, up to the byte that is 0.
unfoldable pub text_up_to_0 : List ℕ → List ℕ
text_up_to_0 [] = []
text_up_to_0 (c ∷ s) = let rest = text_up_to_0 s in if c == 0 then [] else c ∷ rest

pub record ElfSection : Type 0 where
  pub sh_name : ℕ
  pub sh_addr : ℕ
  pub sh_offset : ℕ
  pub sh_size : ℕ

pub record ElfHeader : Type 0 where
  pub e_entry : ℕ
  pub e_shoff : ℕ
  pub e_shnum : ℕ
  pub e_shtrndx : ℕ

unfoldable pub elf_header : List ℕ → ElfHeader
elf_header file = record {
  e_entry = word file 24;
  e_shoff = word file 32;
  e_shnum = half file 48;
  e_shtrndx = half file 50;
}

-- `sections[i]`, of 40 bytes each.
unfoldable pub elf_section : List ℕ → ℕ → ElfSection
unfolding elf_header
elf_section file i =
    let at = (elf_header file).e_shoff + i * 40 in
    record {
      sh_name = word file at;
      sh_addr = word file (at + 12);
      sh_offset = word file (at + 16);
      sh_size = word file (at + 20);
    }

-- `str_tab + sections[i].sh_name`
unfoldable pub section_name : List ℕ → ElfSection → List ℕ
unfolding elf_section text_up_to_0
section_name file s =
    text_up_to_0 (drop ((elf_section file (elf_header file).e_shtrndx).sh_offset + s.sh_name) file)

-- ".text", ".data", ".bss" and ".rodata"
abbrev pub dot_text : List ℕ
dot_text = 46 ∷ 116 ∷ 101 ∷ 120 ∷ 116 ∷ []

abbrev pub dot_data : List ℕ
dot_data = 46 ∷ 100 ∷ 97 ∷ 116 ∷ 97 ∷ []

abbrev pub dot_bss : List ℕ
dot_bss = 46 ∷ 98 ∷ 115 ∷ 115 ∷ []

abbrev pub dot_rodata : List ℕ
dot_rodata = 46 ∷ 114 ∷ 111 ∷ 100 ∷ 97 ∷ 116 ∷ 97 ∷ []

-- `!kstrcmp(name, text)`
abbrev pub is_called : List ℕ → List ℕ → Bool
is_called name text = elim (kstrcmp name text) [ same ↦ true | _ ↦ false ]

-- Where the section is to stand, and where it stands now.
unfoldable pub placed : ℕ → ElfSection → ProcSection
placed buf s = record {
  virt_addr = s.sh_addr;
  page_count = page_count s.sh_size;
  phys_addr = page_align ((buf + s.sh_offset) % 2 ^ 32);
}

-- The body of the loop of `elf_load`, at a section with its name.
unfoldable pub scan_section : ℕ → List ℕ → ElfSection → Sections → Sections
unfolding placed
scan_section buf name s r₀ =
    let r₁ = if is_called name dot_text then record r₀ { text = placed buf s } else r₀ in
    let r₂ = if is_called name dot_data then record r₁ { data_section = placed buf s } else r₁ in
    let r₃ = if is_called name dot_bss then record r₂ { data_section = placed buf s } else r₂ in
    if is_called name dot_rodata then record r₃ { rodata = placed buf s } else r₃

-- The loop of `elf_load`.
unfoldable pub scan : ℕ → List ℕ → Sections
unfolding iterate elf_section section_name scan_section
scan buf file =
    iterate
      (λ i r. scan_section buf (section_name file (elf_section file i)) (elf_section file i) r) 0
      (elf_header file).e_shnum no_sections

-- One of the maps of `proc_create`.
unfoldable pub map_section : Machine → ProcSection → ℕ → Option Machine
unfolding paging_map
map_section m s flags = paging_map m (page_align s.virt_addr) s.phys_addr flags

-- `proc_create`, with KERNEL_PAGE_DIR_PHYS: the process, the machine and the table of processes.
-- `none` where the kernel faults.
unfoldable pub proc_create :
    ℕ
    → Sections
    → Machine
    → List (Option Process)
    → Option (Process × Machine × List (Option Process))
unfolding find_next_pid page_dir_clone page_dir_switch map_section
proc_create kernel_dir s m processes = do
  let pid = find_next_pid processes
  new ← page_dir_clone m kernel_dir
  let p : Process = record {
    pid = pid;
    sections = s;
    pdir = new.0;
    name = [];
    iodescr = no_descriptors;
  }
  let m₁ = page_dir_switch new.1 new.0
  m₂ ← map_section m₁ s.text (page_present + page_usermode)
  m₃ ← map_section m₂ s.data_section (page_present + page_usermode + page_writable)
  m₄ ← map_section m₃ s.bss (page_present + page_usermode + page_writable)
  m₅ ← map_section m₄ s.rodata (page_present + page_usermode)
  some (p, page_dir_switch m₅ kernel_dir, set processes pid (some p))

-- `elf_load` up to its process, with the address at which its thread is to start.
unfoldable pub elf_load :
    ℕ
    → ℕ
    → List ℕ
    → Machine
    → List (Option Process)
    → Option (ℕ × (Process × Machine × List (Option Process)))
unfolding scan proc_create
elf_load kernel_dir buf file m processes = do
  r ← proc_create kernel_dir (scan buf file) m processes
  some ((elf_header file).e_entry, r)
