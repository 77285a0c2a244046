-- ===== src/Interrupts/Tests.antt =====
-- The set-up of an empty table, and the theorems at it.
use vsop.Base.{ℕ, ◌+◌, ◌*◌, List, replicate}
use vsop.Interrupts.{IdtEntry}

abbrev no_entry : IdtEntry
no_entry = record { base_low = 0; selector = 0; zeroed = 0; flags = 0; base_high = 0 }

abbrev stubs : ℕ → ℕ
stubs x = 1048576 + 16 * x

abbrev no_idt : List IdtEntry
no_idt = replicate 256 no_entry

abbrev no_routes : ℕ → ℕ
no_routes r = 0
