-- ===== src/Process.antt =====
-- kernel/process.c: the table of processes and the searches in it. A null entry of the table is
-- `none`; the section around the search for a number has no effect on the table and is left out.
pub mod Search
mod Tests
use vsop.Base.{
  ℕ, zero, suc, ◌+◌, List, [], ◌∷◌, Bool, true, false, Option, none, some, set, get_or, replicate,
}
use vsop.Descriptors.{IoStream, no_descriptors}
use vsop.Util.{Order, same, kstrcmp}

pub record ProcSection : Type 0 where
  pub virt_addr : ℕ
  pub phys_addr : ℕ
  pub page_count : ℕ

-- The four sections of a program; `data_section` is the one called `data`.
pub record Sections : Type 0 where
  pub text : ProcSection
  pub data_section : ProcSection
  pub bss : ProcSection
  pub rodata : ProcSection

abbrev pub no_section : ProcSection
no_section = record { virt_addr = 0; phys_addr = 0; page_count = 0 }

abbrev pub no_sections : Sections
no_sections = record {
  text = no_section;
  data_section = no_section;
  bss = no_section;
  rodata = no_section;
}

-- `struct process`: the name up to its 0.
pub record Process : Type 0 where
  pub pid : ℕ
  pub sections : Sections
  pub pdir : ℕ
  pub name : List ℕ
  pub iodescr : List IoStream

-- The loop of `find_next_pid` from index `i` on; 0 when it finds none.
unfoldable pub next_from : List (Option Process) → ℕ → ℕ
next_from [] i = 0
next_from (none ∷ ps) i = i
next_from (some p ∷ ps) i = next_from ps (i + 1)

unfoldable pub find_next_pid : List (Option Process) → ℕ
unfolding next_from
find_next_pid processes = next_from processes 0

abbrev pub proc_get_by_pid : List (Option Process) → ℕ → Option Process
proc_get_by_pid processes pid = get_or processes pid none

-- `!kstrcmp(name, p->name)`
abbrev pub has_name : List ℕ → Process → Bool
has_name name p = elim (kstrcmp name p.name) [ same ↦ true | _ ↦ false ]

-- The loop of `proc_get_by_name`.
unfoldable pub by_name : List ℕ → List (Option Process) → Option Process
by_name name [] = none
by_name name (none ∷ ps) = by_name name ps
by_name name (some p ∷ ps) =
    let rest = by_name name ps in elim (has_name name p) [ true ↦ some p | false ↦ rest ]

-- Number 0 is the kernel's process and is not searched.
unfoldable pub proc_get_by_name : List ℕ → List (Option Process) → Option Process
unfolding by_name
proc_get_by_name name [] = none
proc_get_by_name name (p ∷ ps) = by_name name ps

-- `proc_create_kernel_proc`, with KERNEL_PAGE_DIR_PHYS; the memory of `NEW` is cleared.
unfoldable pub proc_create_kernel_proc : ℕ → List (Option Process) → Process × List (Option Process)
unfolding find_next_pid
proc_create_kernel_proc pdir processes =
    let pid = find_next_pid processes in
    let p : Process = record {
      pid = pid;
      sections = no_sections;
      pdir = pdir;
      name = [];
      iodescr = no_descriptors;
    } in
    (p, set processes pid (some p))
