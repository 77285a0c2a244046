-- ===== src/Kernel/Tables.antt =====
-- Reads after writes in the table of processes and in the store of streams.
use vsop.Base.{
  ℕ, ◌<◌, ◌≡◌, ◌≢◌, ◌∙◌, ap, List, none, some, arith, length, get_or, get_or-set_self,
  get_or-set_ne, length-set,
}
use vsop.Descriptors.{Ptr, Store, IoStream}
use vsop.Kernel.{Kernel, write_stream, iodescr, descr_of, with_descr, put_descr}
use vsop.Process.{Process}
use vsop.Stream.{Stream}

-- Process `pid` exists.
abbrev pub Lives : Kernel → ℕ → Type 0
Lives k pid = (p : Process) × (get_or k.processes pid none ≡ some p) × (pid < length k.processes)

pub iodescr-put_descr_self :
    (k : Kernel) (pid : ℕ) (ds : List IoStream)
    → Lives k pid
    → iodescr (put_descr k pid ds) pid ≡ ds
iodescr-put_descr_self k pid ds (p, e, h) =
    ap descr_of
      (get_or-set_self k.processes pid (with_descr (get_or k.processes pid none) ds) none h)
    ∙ ap (λ q. descr_of (with_descr q ds)) e

pub iodescr-put_descr_ne :
    (k : Kernel) (pid other : ℕ) (ds : List IoStream)
    → pid ≢ other
    → iodescr (put_descr k pid ds) other ≡ iodescr k other
iodescr-put_descr_ne k pid other ds n =
    ap descr_of
      (get_or-set_ne k.processes pid other (with_descr (get_or k.processes pid none) ds) none n)

pub Lives-put_descr :
    (k : Kernel) (pid other : ℕ) (ds : List IoStream)
    → pid ≢ other
    → Lives k other
    → Lives (put_descr k pid ds) other
Lives-put_descr k pid other ds n (p, e, h) =
    let v = with_descr (get_or k.processes pid none) ds in
    (
      p,
      get_or-set_ne k.processes pid other v none n ∙ e,
      omega (arith, h, length-set k.processes pid v),
    )

pub write_stream_self : (m : Store) (p : Ptr) (s : Stream) → write_stream m p s p ≡ s
write_stream_self m p s = ground arith

pub write_stream-ne : (m : Store) (p q : Ptr) (s : Stream) → p ≢ q → write_stream m p s q ≡ m q
write_stream-ne m p q s n = ground arith
