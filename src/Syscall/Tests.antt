-- ===== src/Syscall/Tests.antt =====
-- Three processes, of which one talks to another, and the theorems at them.
use vsop.Base.{ℕ, ◌≡◌, refl, List, [], ◌∷◌, some, arith, replicate}
use vsop.Base.Int.{pos}
use vsop.Descriptors.{no_descriptors}
use vsop.Descriptors.Laws.{FirstFree}
use vsop.Kernel.{Kernel, iodescr}
use vsop.Process.{Process, no_sections, proc_get_by_name, by_name}
use vsop.Stream.{stream_new}
use vsop.Syscall.{Request, returned, result_only, syscall}
use vsop.Drivers.{int_ok, interrupt}
use vsop.Interrupts.{interrupts_init, unhandled_interrupt_handler}
use vsop.Syscall.Driver.{handle-interrupt-read}
use vsop.Syscall.Transfer.{connect-write-read}
use vsop.Util.{kstrcmp, order_of}

abbrev proc : ℕ → List ℕ → Process
proc pid name = record {
  pid = pid;
  sections = no_sections;
  pdir = 4096;
  name = name;
  iodescr = no_descriptors;
}

abbrev kernel : Kernel
kernel = record {
  processes =
      some (proc 0 []) ∷ some (proc 1 (112 ∷ 105 ∷ [])) ∷ some (proc 2 (112 ∷ 111 ∷ [])) ∷ [];
  cur = 1;
  streams = λ p. stream_new;
  made = 0;
  handlers = replicate 256 0;
  int_handlers = interrupts_init (replicate 256 unhandled_interrupt_handler);
  machine = record { mem = λ i. 0; cr3 = 0; palloc = record { memory_map = λ i. 0; lock = 0 } };
  ticks = 0;
}

abbrev request : ℕ → ℕ → ℕ → List ℕ → List ℕ → Request
request id ebx edx text bytes = record {
  eax = id;
  ebx = ebx;
  ecx = 0;
  edx = edx;
  text = text;
  bytes = bytes;
}

found : proc_get_by_name (112 ∷ 111 ∷ []) kernel.processes ≡ some (proc 2 (112 ∷ 111 ∷ []))
unfolding proc_get_by_name by_name kstrcmp order_of
found = refl

first_free : (pid : ℕ) → iodescr kernel pid ≡ no_descriptors → FirstFree (iodescr kernel pid) 0
first_free pid e =
    rw e (record { in_table = omega arith; free = refl; earlier = λ j h. absurd (omega arith) })

connect-write-read_example :
    let c = request 2 0 0 (112 ∷ 111 ∷ []) [] in
    let w = request 6 0 3 [] (7 ∷ 8 ∷ 9 ∷ []) in
    let r = request 5 0 3 [] [] in
    let l = (syscall c kernel).1 in
    ((syscall c kernel).0 ≡ result_only (pos 0))
    × ((syscall w l).0 ≡ result_only (pos 0))
    × ((syscall r (record (syscall w l).1 { cur = 2 })).0 ≡ returned (pos 0) (7 ∷ 8 ∷ 9 ∷ []))
connect-write-read_example =
    connect-write-read (request 2 0 0 (112 ∷ 111 ∷ []) []) (request 6 0 3 [] (7 ∷ 8 ∷ 9 ∷ []))
      (request 5 0 3 [] []) kernel (proc 2 (112 ∷ 111 ∷ [])) 0 0 refl refl refl found
      (proc 1 (112 ∷ 105 ∷ []), refl, omega arith) (proc 2 (112 ∷ 111 ∷ []), refl, omega arith)
      (omega arith) (first_free 1 refl) (first_free 2 refl) refl refl (omega arith) refl

handle-interrupt-read_example :
    let h = request 8 218 0 [] [] in
    let r = request 5 0 1 [] [] in
    let l = (syscall h kernel).1 in
    ((syscall h kernel).0 ≡ result_only (pos 0))
    × ((m : Kernel) × (interrupt (λ q. 0) l 218 ≡ some (int_ok, m))
        × ((syscall r m).0 ≡ returned (pos 0) (105 ∷ [])))
unfolding interrupts_init
handle-interrupt-read_example =
    handle-interrupt-read (λ q. 0) (request 8 218 0 [] []) (request 5 0 1 [] []) kernel 0 refl refl
      (omega arith) (omega arith) (proc 1 (112 ∷ 105 ∷ []), refl, omega arith) (first_free 1 refl)
      refl refl
