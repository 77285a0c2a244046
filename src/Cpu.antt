-- ===== src/Cpu.antt =====
-- kernel/cpu.c: the search for the multiprocessor tables, the list of processors and cpu_sync.
-- Starting the processors is left out: it writes registers and waits.
pub mod Search
pub mod Count
pub mod Sync
mod Tests
use vsop.Base.{
  ℕ, zero, suc, ◌+◌, ◌-◌, ◌*◌, ◌%◌, ◌^◌, Bool, true, false, ◌&&◌, List, [], ◌∷◌, Option, none, some,
  ◌==◌, ltb, if◌then◌else◌, set, length,
}
use mathlib.Core.Option.{map}

-- Whether "_MP_" stands at an address of memory.
abbrev pub is_signature : (ℕ → ℕ) → ℕ → Bool
is_signature mem p =
    (mem p == 95) && ((mem (p + 1) == 77) && ((mem (p + 2) == 80) && (mem (p + 3) == 95)))

-- `mp_slide` over `count` addresses, `to - from`; 0 where it finds none.
unfoldable pub slide : (ℕ → ℕ) → ℕ → ℕ → ℕ
slide mem from zero = 0
slide mem from (suc count) =
    let rest = slide mem (from + 1) count in if is_signature mem from then from else rest

unfoldable pub mp_slide : (ℕ → ℕ) → ℕ → ℕ → ℕ
unfolding slide
mp_slide mem from to = slide mem from (to - from)

-- `if (a) return a; return b;`
unfoldable pub or_else : ℕ → ℕ → ℕ
or_else a b = if a == 0 then b else a

unfoldable pub mp_find : (ℕ → ℕ) → ℕ
unfolding mp_slide or_else
mp_find mem = or_else (mp_slide mem 654336 655360) (mp_slide mem 0xF0000 0xFFFFF)

-- The tables of the processors: `cpu_stack`, `cpu_mapping`, `num_of_cpu` and `maximum_cpu`.
pub record Cpus : Type 0 where
  pub cpu_stack : List ℕ
  pub cpu_mapping : List ℕ
  pub num_of_cpu : ℕ
  pub maximum_cpu : ℕ

-- The fields of `struct MP_proc_entry` that the loop reads.
pub record MpEntry : Type 0 where
  pub type : ℕ
  pub lapic_id : ℕ

-- The loop of `cpu_find` from entry `i` on, with what `kmalloc` answers to each round; `none` where
-- it writes behind one of its tables.
unfoldable pub find_from : (ℕ → ℕ) → ℕ → List MpEntry → Cpus → Option Cpus
find_from kmalloc i [] c = some c
find_from kmalloc i (e ∷ es) c =
    let rest = find_from kmalloc (i + 1) es (record {
      cpu_stack = set c.cpu_stack e.lapic_id ((kmalloc i + 4096 - 16) % 2 ^ 32);
      cpu_mapping = set c.cpu_mapping i e.lapic_id;
      num_of_cpu = c.num_of_cpu + 1;
      maximum_cpu = c.maximum_cpu;
    }) in
    if e.type == 0
    then (if ltb e.lapic_id (length c.cpu_stack) && ltb i (length c.cpu_mapping)
        then rest
        else none)
    else some c

-- The end of `cpu_find`.
abbrev pub capped : Cpus → Cpus
capped c = if ltb c.num_of_cpu c.maximum_cpu then record c { maximum_cpu = c.num_of_cpu } else c

-- `cpu_find`, with the entries of the configuration table.
unfoldable pub cpu_find : (ℕ → ℕ) → List MpEntry → Cpus → Option Cpus
unfolding find_from
cpu_find kmalloc es c =
    map capped
      (find_from kmalloc 0 es (record c { num_of_cpu = 0; cpu_mapping = set c.cpu_mapping 0 0 }))

abbrev pub cpu_count : Cpus → ℕ
cpu_count c = c.num_of_cpu
