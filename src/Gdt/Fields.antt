-- ===== src/Gdt/Fields.antt =====
-- A descriptor, taken apart the way the processor does.
use vsop.Base.{
  ℕ, ◌+◌, ◌*◌, ◌/◌, ◌%◌, ◌^◌, ◌<◌, ◌≡◌, refl, ◌∙◌, ap, List, arith, length, get_or, get_or-set_self,
  bit_and, bit_or,
}
use vsop.Base.Words.{bit_and-ones, bit_and-high, bit_or-high}
use vsop.Gdt.{GdtEntry, gdt_entry, gdt_set}

-- The base, the limit and the flags of a descriptor.
abbrev pub entry_base : GdtEntry → ℕ
entry_base e = e.base_low + e.base_middle * 65536 + e.base_high * 16777216

abbrev pub entry_limit : GdtEntry → ℕ
entry_limit e = e.size_low + e.granularity % 16 * 65536

abbrev pub entry_flags : GdtEntry → ℕ
entry_flags e = e.granularity / 16

granularity_lem : (a g : ℕ) → bit_or (bit_and a 15) (bit_and g 240) ≡ a % 16 + g / 16 % 16 * 16
granularity_lem a g =
    let low = bit_and-ones 4 a in
    let high : bit_and g 240 ≡ g / 16 % 16 * 16 =
      bit_and-high 4 g 15 ∙ ap (λ h. h * 16) (bit_and-ones 4 (g / 16)) in
    rw (low, high) (bit_or-high 4 (a % 16) (g / 16 % 16) (omega arith))

-- A descriptor holds the base of 32 bits, the lower 20 bits of the limit, the access byte and the
-- upper 4 bits of the granularity that `gdt_set` is given.
pub gdt_set_lem :
    (gdt : List GdtEntry) (id base limit access gran : ℕ) (d : GdtEntry)
    → id < length gdt
    → base < 2 ^ 32
    → let e = get_or (gdt_set gdt id base limit access gran) id d in
      (entry_base e ≡ base)
      × (entry_limit e ≡ limit % 2 ^ 20)
      × (e.access ≡ access)
      × (entry_flags e ≡ gran / 16 % 16)
unfolding gdt_set gdt_entry
gdt_set_lem gdt id base limit access gran d h b =
    let here = get_or-set_self gdt id (gdt_entry base limit access gran) d h in
    let g = granularity_lem (limit / 2 ^ 16) gran in
    let low = bit_and-ones 16 base in
    let middle = bit_and-ones 8 (base / 2 ^ 16) in
    let high = bit_and-ones 8 (base / 2 ^ 24) in
    let size = bit_and-ones 16 limit in
    rw here (omega (arith, low, middle, high), omega (arith, g, size), refl, omega (arith, g))
