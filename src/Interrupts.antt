-- ===== src/Interrupts.antt =====
-- kernel/interrupts.c and kernel/isr_impl.c: the interrupt descriptors, the handlers, the routing of
-- the I/O interrupts, and a thread's first registers. The addresses of the assembly stubs are the
-- parameter `isr`; the local controller's registers are a memory.
pub mod Vectors
pub mod Routing
mod Tests
use vsop.Base.{
  ℕ, zero, suc, ◌+◌, ◌-◌, ◌*◌, ◌/◌, ◌%◌, ◌^◌, List, [], ◌∷◌, Bool, true, false, not, get_or, set,
  ltb, ◌==◌, if◌then◌else◌, bit_and, bit_or,
}
use vsop.Base.Loops.{iterate}

-- `struct idt_entry`
pub record IdtEntry : Type 0 where
  pub base_low : ℕ
  pub selector : ℕ
  pub zeroed : ℕ
  pub flags : ℕ
  pub base_high : ℕ

abbrev pub idt_entry : ℕ → ℕ → IdtEntry
idt_entry base flags = record {
  base_low = bit_and base 65535;
  base_high = bit_and (base / 2 ^ 16) 65535;
  selector = 8;
  zeroed = 0;
  flags = bit_or flags 96;
}

unfoldable pub idt_set : List IdtEntry → ℕ → ℕ → ℕ → List IdtEntry
idt_set idt id base flags = set idt id (idt_entry base flags)

-- isr_list.h has one line for each of the vectors 0 to 240, in order, none of them ignored.
abbrev pub isr_count : ℕ
isr_count = 241

unfoldable pub isr_init : (ℕ → ℕ) → List IdtEntry → List IdtEntry
unfolding idt_set iterate
isr_init isr idt = iterate (λ x t. idt_set t x (isr x) 142) 0 isr_count idt

-- The handlers that the parts of the kernel register.
pub data Handler : Type 0 where
  unhandled_interrupt_handler keyboard_handler ignore_int : Handler
  sched_tick_handler syscall_handler tick_handler driver_irq_notify_handler : Handler

unfoldable pub interrupts_register_handler : List Handler → ℕ → Handler → List Handler
interrupts_register_handler handlers id handler = set handlers id handler

-- What `interrupts_init` leaves in the table of handlers.
unfoldable pub interrupts_init : List Handler → List Handler
unfolding interrupts_register_handler iterate
interrupts_init handlers =
    let all =
      iterate (λ i t. interrupts_register_handler t i unhandled_interrupt_handler) 0 256 handlers in
    interrupts_register_handler (interrupts_register_handler all 218 keyboard_handler) 15 ignore_int

-- A write to a register of a controller.
abbrev pub write_reg : (ℕ → ℕ) → ℕ → ℕ → ℕ → ℕ
write_reg regs r v q = if r == q then v else regs q

-- `irq_handler`: the task priority is the interrupt's number, one above 32 is acknowledged (register
-- 0xB0), and its handler comes next.
unfoldable pub irq_handler : List Handler → (ℕ → ℕ) → ℕ → Handler × (ℕ → ℕ)
irq_handler handlers lapic id =
    let lapic' = write_reg lapic 128 id in
    (
      get_or handlers id unhandled_interrupt_handler,
      if ltb 32 id then write_reg lapic' 176 0 else lapic',
    )

-- `ioapic_map`, on the registers of the I/O controller.
unfoldable pub ioapic_map : ℕ → ℕ → (ℕ → ℕ) → ℕ → ℕ
ioapic_map irq vector io =
    let reg_low = 16 + irq * 2 in
    let reg_high = reg_low + 1 in
    write_reg (write_reg (write_reg io reg_low 65536) reg_high 0) reg_low vector

-- `ioapic_init`: 0 to 219, 1 to 218, then 3 to 216 and so on up to 15 to 204. 2 is not mapped.
unfoldable pub ioapic_init : (ℕ → ℕ) → ℕ → ℕ
unfolding ioapic_map iterate
ioapic_init io =
    iterate (λ irq r. ioapic_map irq (219 - irq) r) 3 13 (ioapic_map 1 218 (ioapic_map 0 219 io))

-- The registers that `regs_init` sets, of `struct thread_state`; the others are 0.
pub record ThreadState : Type 0 where
  pub ds : ℕ
  pub ebp : ℕ
  pub esp : ℕ
  pub eip : ℕ
  pub cs : ℕ
  pub eflags : ℕ
  pub useresp : ℕ
  pub ss : ℕ

-- `FLAGS_INT_ENABLE` is bit 9.
unfoldable pub regs_init : ℕ → ℕ → ℕ → ThreadState
regs_init stack entry flags =
    let user = not (flags == 0) in
    let data_selector = if user then 35 else 16 in
    record {
      ds = data_selector;
      ebp = stack;
      esp = stack;
      eip = entry;
      cs = if user then 27 else 8;
      eflags = 512;
      useresp = stack;
      ss = data_selector;
    }
