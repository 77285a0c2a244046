-- ===== src/Interrupts/Vectors.antt =====
-- The interrupt table after its set-up.
use vsop.Base.{ℕ, ◌+◌, ◌*◌, ◌/◌, ◌^◌, ◌<◌, ◌≤◌, ◌≡◌, refl, inr, List, arith, length, get_or}
use vsop.Base.Loops.{fill-inside, fill-outside}
use vsop.Base.Words.{bit_and-ones}
use vsop.Interrupts.{IdtEntry, idt_entry, idt_set, isr_init}

-- The address that an interrupt jumps to.
abbrev pub entry_base : IdtEntry → ℕ
entry_base e = e.base_low + e.base_high * 65536

idt_entry-base : (base flags : ℕ) → base < 2 ^ 32 → entry_base (idt_entry base flags) ≡ base
idt_entry-base base flags h =
    let low = bit_and-ones 16 base in
    let high = bit_and-ones 16 (base / 2 ^ 16) in omega (arith, low, high)

-- Each of the vectors 0 to 240 jumps to its stub through selector 8 with flags 0xEE, and the other vectors keep what
-- they had.
pub isr_init_lem :
    (isr : ℕ → ℕ) (idt : List IdtEntry) (x : ℕ) (d : IdtEntry)
    → length idt ≡ 256
    → isr x < 2 ^ 32
    → (x < 241
        → (entry_base (get_or (isr_init isr idt) x d) ≡ isr x)
          × ((get_or (isr_init isr idt) x d).selector ≡ 8)
          × ((get_or (isr_init isr idt) x d).flags ≡ 238))
      × (241 ≤ x → get_or (isr_init isr idt) x d ≡ get_or idt x d)
unfolding isr_init idt_set
isr_init_lem isr idt x d h b = (
  λ p.
      let here =
        fill-inside (λ i. idt_entry (isr i) 142) 0 241 idt x d (omega arith) (omega arith)
          (omega arith) in
      rw here (idt_entry-base (isr x) 142 b, refl, refl),
  λ p. fill-outside (λ i. idt_entry (isr i) 142) 0 241 idt x d (inr (omega arith)),
)
