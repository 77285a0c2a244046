-- ===== src/Paging/Entries.antt =====
-- The entries that the kernel builds and reads, in the processor's terms.
use vsop.Base.{ℕ, ◌+◌, ◌*◌, ◌/◌, ◌%◌, ◌^◌, ◌≡◌, ◌∙◌, ap, ◌==◌, arith, bit_and}
use vsop.Base.Words.{bit_and-ones, bit_and-high, bit_or-low}
use vsop.Paging.{is_present, frame, present_bit, page_entry, page_table_index}

pub present_bit-is_present : (e : ℕ) → present_bit e ≡ is_present e
present_bit-is_present e = ground (arith, bit_and-ones 1 e)

pub page_table_index-mod : (a : ℕ) → page_table_index a ≡ a / 2 ^ 12 % 1024
unfolding page_table_index
page_table_index-mod a = bit_and-ones 10 (a / 2 ^ 12)

-- `e & 0xFFFFF000`
pub page_of_entry : (e : ℕ) → bit_and e 0xfffff000 ≡ frame e * 4096
page_of_entry e = bit_and-high 12 e 0xfffff ∙ ap (λ h. h * 4096) (bit_and-ones 20 (e / 4096))

pub page_entry-sum : (addr flags : ℕ) → page_entry addr flags ≡ frame addr * 4096 + flags % 4096
unfolding page_entry
page_entry-sum addr flags =
    rw (page_of_entry addr, bit_and-ones 12 flags)
      (bit_or-low 12 (flags % 4096) (frame addr) (omega arith))

-- An entry leads to the frame of its address, and is present as its flags say.
pub page_entry-frame : (addr flags : ℕ) → frame (page_entry addr flags) ≡ frame addr
page_entry-frame addr flags = omega (arith, page_entry-sum addr flags)

pub page_entry-is_present : (addr flags : ℕ) → is_present (page_entry addr flags) ≡ (flags % 2 == 1)
page_entry-is_present addr flags = ground (arith, page_entry-sum addr flags)
