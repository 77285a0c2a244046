-- ===== src/Kernel.antt =====
-- The state that the system calls share: the table of processes with their descriptors, the
-- streams, the drivers' streams, the handlers of interrupts, the memory and the counter of ticks.
pub mod Tables
use vsop.Base.{
  ℕ, zero, suc, ◌+◌, List, [], ◌∷◌, Option, none, some, ◌==◌, if◌then◌else◌, get_or, set,
}
use vsop.Descriptors.{Ptr, Store, IoStream, no_descriptors}
use vsop.Interrupts.{Handler}
use vsop.Paging.{Machine}
use vsop.Process.{Process}
use vsop.Stream.{Stream, stream_new}

-- `cur` is the number of the process that runs; stream `p` is the `p`-th that was made.
pub record Kernel : Type 0 where
  pub processes : List (Option Process)
  pub cur : ℕ
  pub streams : Store
  pub made : ℕ
  pub handlers : List Ptr
  pub int_handlers : List Handler
  pub machine : Machine
  pub ticks : ℕ

abbrev pub write_stream : Store → Ptr → Stream → Store
write_stream m p s q = if p == q then s else m q

-- `stream_new()`, at a new place.
abbrev pub add_stream : Kernel → Kernel
add_stream k = record k {
  streams = write_stream k.streams (suc k.made) stream_new;
  made = suc k.made;
}

abbrev pub put_stream : Kernel → Ptr → Stream → Kernel
put_stream k p s = record k { streams = write_stream k.streams p s }

abbrev pub descr_of : Option Process → List IoStream
descr_of none = []
descr_of (some p) = p.iodescr

-- `&proc->iodescr`, by the number of the process.
abbrev pub iodescr : Kernel → ℕ → List IoStream
iodescr k pid = descr_of (get_or k.processes pid none)

abbrev pub with_descr : Option Process → List IoStream → Option Process
with_descr none ds = none
with_descr (some p) ds = some (record p { iodescr = ds })

abbrev pub put_descr : Kernel → ℕ → List IoStream → Kernel
put_descr k pid ds = record k {
  processes = set k.processes pid (with_descr (get_or k.processes pid none) ds);
}
