-- ===== src/Libc/Tests.antt =====
-- Two processes whose programs use the library.
use vsop.Base.{ℕ, ◌≡◌, refl, List, [], ◌∷◌, some, arith, replicate}
use vsop.Base.Int.{pos}
use vsop.Descriptors.{no_descriptors}
use vsop.Descriptors.Laws.{FirstFree}
use vsop.Kernel.{Kernel, iodescr}
use vsop.Process.{Process, no_sections, proc_get_by_name, by_name}
use vsop.Stream.{stream_new}
use vsop.Syscall.{Request, returned, result_only, syscall}
use vsop.Libc.{read, write, connect}
use vsop.Libc.Calls.{library-transfer}
use vsop.Util.{kstrcmp, order_of}

abbrev program : ℕ → List ℕ → Process
program pid name = record {
  pid = pid;
  sections = no_sections;
  pdir = 4096;
  name = name;
  iodescr = no_descriptors;
}

abbrev kernel : Kernel
kernel = record {
  processes = some (program 0 []) ∷ some (program 1 (97 ∷ [])) ∷ some (program 2 (98 ∷ [])) ∷ [];
  cur = 1;
  streams = λ p. stream_new;
  made = 0;
  handlers = replicate 256 0;
  int_handlers = [];
  machine = record { mem = λ i. 0; cr3 = 0; palloc = record { memory_map = λ i. 0; lock = 0 } };
  ticks = 7;
}

abbrev registers : Request
registers = record { eax = 0; ebx = 0; ecx = 0; edx = 0; text = []; bytes = [] }

found : proc_get_by_name (98 ∷ []) kernel.processes ≡ some (program 2 (98 ∷ []))
unfolding proc_get_by_name by_name kstrcmp order_of
found = refl

first_free : (pid : ℕ) → iodescr kernel pid ≡ no_descriptors → FirstFree (iodescr kernel pid) 0
first_free pid e =
    rw e (record { in_table = omega arith; free = refl; earlier = λ j h. absurd (omega arith) })

library-transfer_example :
    let (connected, l) = syscall (connect registers 4096 (98 ∷ [])) kernel in
    let (written, m) = syscall (write registers 0 8192 2 (7 ∷ 8 ∷ [])) l in
    (connected ≡ result_only (pos 0))
    × (written ≡ result_only (pos 0))
    × ((syscall (read registers 0 8192 2) (record m { cur = 2 })).0 ≡ returned (pos 0) (7 ∷ 8 ∷ []))
library-transfer_example =
    library-transfer registers registers kernel (program 2 (98 ∷ [])) 0 0 4096 8192 8192 (98 ∷ [])
      (7 ∷ 8 ∷ []) found (program 1 (97 ∷ []), refl, omega arith)
      (program 2 (98 ∷ []), refl, omega arith) (omega arith) (first_free 1 refl) (first_free 2 refl)
      (omega arith)
