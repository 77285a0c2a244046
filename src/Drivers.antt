-- ===== src/Drivers.antt =====
-- kernel/drivers.c: a driver waits for its interrupt on a stream of its own.
use vsop.Base.{ℕ, suc, List, [], ◌∷◌, Option, none, some, ◌==◌, if◌then◌else◌, get_or, set}
use vsop.Base.Int.{ℤ}
use vsop.Base.Loops.{iterate, fill}
use vsop.Descriptors.{iostream_attach}
use vsop.Interrupts.{
  Handler, driver_irq_notify_handler, unhandled_interrupt_handler, keyboard_handler, ignore_int,
  sched_tick_handler, syscall_handler, tick_handler, irq_handler, interrupts_register_handler,
}
use vsop.Kernel.{Kernel, add_stream, put_stream, iodescr, put_descr}
use vsop.Stream.{stream_write}

unfoldable pub drivers_init : Kernel → Kernel
unfolding iterate
drivers_init k = record k { handlers = fill (λ i. 0) 0 256 k.handlers }

-- How the handler of an interrupt ends: with INT_OK, with INT_ERROR, or in the wait of stream_write
-- for a reader, in the thread that was interrupted.
pub data Notified : Type 0 where
  int_ok int_error waiting : Notified

-- The end of the handler, with what is left to send.
abbrev pub notified : List ℕ → Notified
notified [] = int_ok
notified (b ∷ bs) = waiting

-- The byte that `driver_irq_notify` sends is the first of "int".
unfoldable pub driver_irq_notify : Kernel → ℕ → Notified × Kernel
unfolding stream_write
driver_irq_notify k irq =
    let handler = get_or k.handlers irq 0 in
    let (left, s) = stream_write (k.streams handler) (105 ∷ []) in
    if handler == 0 then (int_error, k) else (notified left, put_stream k handler s)

-- The call of a handler; `none` for the handlers of the other parts of the kernel.
abbrev pub call_handler : Handler → Kernel → ℕ → Option (Notified × Kernel)
call_handler driver_irq_notify_handler k id = some (driver_irq_notify k id)
call_handler unhandled_interrupt_handler k id = none
call_handler keyboard_handler k id = none
call_handler ignore_int k id = none
call_handler sched_tick_handler k id = none
call_handler syscall_handler k id = none
call_handler tick_handler k id = none

-- `irq_handler` up to the end of the handler that it finds in the table.
unfoldable pub interrupt : (ℕ → ℕ) → Kernel → ℕ → Option (Notified × Kernel)
unfolding irq_handler driver_irq_notify
interrupt lapic k id = call_handler (irq_handler k.int_handlers lapic id).0 k id

unfoldable pub driver_register : Kernel → ℕ → ℕ → ℤ × Kernel
unfolding iostream_attach interrupts_register_handler
driver_register k pid irq =
    let stream = suc k.made in
    let k' = add_stream k in
    let (result, ds) = iostream_attach (iodescr k pid) stream stream in
    (
      result,
      put_descr
          (record k' {
            handlers = set k.handlers irq stream;
            int_handlers = interrupts_register_handler k.int_handlers irq driver_irq_notify_handler;
          })
          pid ds,
    )
