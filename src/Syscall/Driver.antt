-- ===== src/Syscall/Driver.antt =====
-- A driver process: it asks for an interrupt, and reads the byte that the interrupt sends.
use vsop.Base.{
  ℕ, suc, ◌<◌, ◌≡◌, refl, ◌≢◌, ◌∙◌, ap, List, [], ◌∷◌, some, false, ◌==◌, arith, length, get_or,
  get_or-set_self, set,
}
use vsop.Base.Int.{ℤ, pos}
use vsop.Descriptors.{Ptr, IoStream, iostream, iostream_attach}
use vsop.Descriptors.Laws.{FirstFree}
use vsop.Drivers.{int_ok, call_handler, driver_irq_notify, driver_register, interrupt}
use vsop.Interrupts.{
  irq_handler, unhandled_interrupt_handler, driver_irq_notify_handler, interrupts_register_handler,
}
use vsop.Kernel.{Kernel, add_stream, put_stream, iodescr, put_descr}
use vsop.Kernel.Tables.{Lives, iodescr-put_descr_self, write_stream_self}
use vsop.Stream.{Stream, stream_new, stream_read, stream_write, stream_write_length}
use vsop.Stream.Inv.{stream_new-IsValid, read_length-add-write_length}
use vsop.Stream.Refine.{stream_new-contents, length-contents}
use vsop.Syscall.{Request, returned, result_only, descriptor, syscall_handle, syscall}
use vsop.Syscall.Connect.{iostream_attach-free}
use vsop.Syscall.Transfer.{write_all, read_all, syscall_read-done, syscall-read}

-- The kernel once process `k.cur` has the interrupt, with `ds` for its descriptors.
abbrev registered : Kernel → ℕ → List IoStream → Kernel
registered k irq ds =
    put_descr
      (record (add_stream k) {
        handlers = set k.handlers irq (suc k.made);
        int_handlers = interrupts_register_handler k.int_handlers irq driver_irq_notify_handler;
      })
      k.cur ds

syscall_handle-attached :
    (h : Request) (k : Kernel) (r : ℤ) (ds : List IoStream)
    → iostream_attach (iodescr k k.cur) (suc k.made) (suc k.made) ≡ (r, ds)
    → syscall_handle h k ≡ (result_only r, registered k h.ebx ds)
unfolding syscall_handle driver_register
syscall_handle-attached h k r ds e = rw e refl

syscall-handle : (h : Request) (k : Kernel) → h.eax ≡ 8 → syscall h k ≡ syscall_handle h k
unfolding syscall
syscall-handle h k e = rw e refl

driver_irq_notify-done :
    (k : Kernel) (irq : ℕ) (s : Ptr) (s' : Stream)
    → get_or k.handlers irq 0 ≡ s
    → s ≢ 0
    → stream_write (k.streams s) (105 ∷ []) ≡ ([], s')
    → driver_irq_notify k irq ≡ (int_ok, put_stream k s s')
unfolding driver_irq_notify
driver_irq_notify-done k irq s s' e n w =
    let z : (s == 0) ≡ false = ground arith in rw (e, z, w) refl

interrupt-registered :
    (lapic : ℕ → ℕ) (k : Kernel) (irq : ℕ) (ds : List IoStream)
    → irq < length k.int_handlers
    → let l = registered k irq ds in interrupt lapic l irq ≡ some (driver_irq_notify l irq)
unfolding interrupt irq_handler interrupts_register_handler
interrupt-registered lapic k irq ds h =
    ap (λ d. call_handler d (registered k irq ds) irq)
      (get_or-set_self k.int_handlers irq driver_irq_notify_handler unhandled_interrupt_handler h)

-- A process with a free descriptor that asks for an interrupt of the two tables gets its first free
-- descriptor; the next such interrupt calls driver_irq_notify, which ends well, and a read of one
-- byte from that descriptor then returns the byte that it sent.
pub handle-interrupt-read :
    (lapic : ℕ → ℕ) (h r : Request) (k : Kernel) (here : ℕ)
    → h.eax ≡ 8
    → r.eax ≡ 5
    → h.ebx < length k.handlers
    → h.ebx < length k.int_handlers
    → Lives k k.cur
    → FirstFree (iodescr k k.cur) here
    → r.ebx ≡ here
    → r.edx ≡ 1
    → let l = (syscall h k).1 in
      ((syscall h k).0 ≡ result_only (pos here))
      × ((m : Kernel) × (interrupt lapic l h.ebx ≡ some (int_ok, m))
          × ((syscall r m).0 ≡ returned (pos 0) (105 ∷ [])))
handle-interrupt-read lapic h r k here eh er inside entered a f hr count =
    let s = suc k.made in
    let ds = set (iodescr k k.cur) here (iostream s s) in
    let called =
      syscall-handle h k eh
      ∙ syscall_handle-attached h k (pos here) ds
          (iostream_attach-free (iodescr k k.cur) here s s f) in
    let l = registered k h.ebx ds in
    let fresh : l.streams s ≡ stream_new = write_stream_self k.streams s stream_new in
    let room : stream_write_length stream_new ≡ 1022 = omega (
      arith,
      read_length-add-write_length stream_new-IsValid,
      length-contents stream_new,
      ap length stream_new-contents,
    ) in
    let (s', wrote, v, bytes) =
      write_all (105 ∷ []) stream_new stream_new-IsValid (omega (arith, room)) in
    let (s'', got) = read_all (105 ∷ []) s' v (bytes ∙ rw stream_new-contents refl) in
    let notified =
      interrupt-registered lapic k h.ebx ds entered
      ∙ ap some (
          driver_irq_notify-done l h.ebx s s' (get_or-set_self k.handlers h.ebx s 0 inside)
            (omega arith) (ap (λ t. stream_write t (105 ∷ [])) fresh ∙ wrote)) in
    let l₂ = put_stream l s s' in
    let near =
      ap (λ d. get_or d here (iostream 0 0))
        (iodescr-put_descr_self
          (record (add_stream k) {
            handlers = set k.handlers h.ebx s;
            int_handlers =
                interrupts_register_handler k.int_handlers h.ebx driver_irq_notify_handler;
          })
          k.cur ds a)
      ∙ get_or-set_self (iodescr k k.cur) here (iostream s s) (iostream 0 0) f.in_table in
    let inp : (descriptor l₂ r.ebx).input ≡ s = rw hr (ap (λ d. d.input) near) in
    let second =
      syscall-read r l₂ er
      ∙ syscall_read-done r l₂ s s'' (105 ∷ []) inp (omega arith) (
          ap (λ t. stream_read t r.edx) (write_stream_self l.streams s s')
          ∙ ap (λ n. stream_read s' n) count
          ∙ got) in
    rw called (refl, (l₂, notified, ap (λ x. x.0) second))
