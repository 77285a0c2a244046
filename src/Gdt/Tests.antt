-- ===== src/Gdt/Tests.antt =====
-- The descriptor of the kernel's code, and the theorem at it.
use vsop.Base.{◌/◌, ◌%◌, ◌^◌, ◌≡◌, List, arith, get_or, replicate, length-replicate}
use vsop.Gdt.{GdtEntry, gdt_set}
use vsop.Gdt.Fields.{entry_base, entry_limit, entry_flags, gdt_set_lem}

abbrev no_entry : GdtEntry
no_entry = record {
  size_low = 0;
  base_low = 0;
  base_middle = 0;
  access = 0;
  granularity = 0;
  base_high = 0;
}

abbrev gdt : List GdtEntry
gdt = replicate 13 no_entry

gdt_set_lem_example :
    let e = get_or (gdt_set gdt 1 0 4294967295 154 207) 1 no_entry in
    (entry_base e ≡ 0)
    × (entry_limit e ≡ 4294967295 % 2 ^ 20)
    × (e.access ≡ 154)
    × (entry_flags e ≡ 207 / 16 % 16)
gdt_set_lem_example =
    gdt_set_lem gdt 1 0 4294967295 154 207 no_entry (omega (arith, length-replicate 13 no_entry))
      (omega arith)
