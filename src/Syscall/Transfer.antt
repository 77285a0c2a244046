-- ===== src/Syscall/Transfer.antt =====
-- Bytes from one process to another through system calls.
use vsop.Base.{
  ℕ, suc, ◌≤◌, ◌≡◌, refl, ◌≢◌, ◌∙◌, ap, List, [], ◌++◌, false, some, arith, get_or, get_or-set_self,
  length, take-length-le, drop-length-le, ◌==◌,
}
use vsop.Base.Int.{pos}
use vsop.Descriptors.{Ptr, iostream}
use vsop.Descriptors.Laws.{FirstFree}
use vsop.Kernel.{Kernel, put_stream, iodescr}
use vsop.Kernel.Tables.{Lives, write_stream_self}
use vsop.Process.{Process, proc_get_by_name}
use vsop.Stream.{Stream, stream_new, stream_read, stream_write, stream_write_length}
use vsop.Stream.Inv.{IsValid, stream_new-IsValid, read_length-add-write_length}
use vsop.Stream.Refine.{contents, stream_new-contents, length-contents}
use vsop.Stream.Transfer.{stream_write_lem, stream_read_lem}
use vsop.Syscall.{
  Request, returned, result_only, descriptor, connect_to, syscall_connect, syscall_read,
  syscall_write, syscall,
}
use vsop.Syscall.Connect.{connect_to_lem}

syscall_write-done :
    (r : Request) (k : Kernel) (s : Ptr) (s' : Stream)
    → (descriptor k r.ebx).output ≡ s
    → s ≢ 0
    → stream_write (k.streams s) r.bytes ≡ ([], s')
    → syscall_write r k ≡ (result_only (pos 0), put_stream k s s')
unfolding syscall_write
syscall_write-done r k s s' e n w = let z : (s == 0) ≡ false = ground arith in rw (e, z, w) refl

pub syscall_read-done :
    (r : Request) (k : Kernel) (s : Ptr) (s' : Stream) (bs : List ℕ)
    → (descriptor k r.ebx).input ≡ s
    → s ≢ 0
    → stream_read (k.streams s) r.edx ≡ (bs, 0, s')
    → syscall_read r k ≡ (returned (pos 0) bs, put_stream k s s')
unfolding syscall_read
syscall_read-done r k s s' bs e n w = let z : (s == 0) ≡ false = ground arith in rw (e, z, w) refl

-- A write for which there is room ends, behind what waits.
pub write_all :
    (bs : List ℕ) (s : Stream)
    → IsValid s
    → length bs ≤ stream_write_length s
    → (s' : Stream) × (stream_write s bs ≡ ([], s')) × IsValid s' × (contents s' ≡ contents s ++ bs)
write_all bs s v h =
    let (v', bytes, left) = stream_write_lem bs v in
    let nothing_left = left ∙ drop-length-le (stream_write_length s) bs h in
    (
      (stream_write s bs).1,
      ap (λ l. (l, (stream_write s bs).1)) nothing_left,
      v',
      bytes ∙ ap (λ l. contents s ++ l) (take-length-le (stream_write_length s) bs h),
    )

-- A read of all that waits ends.
pub read_all :
    (bs : List ℕ) (s : Stream)
    → IsValid s
    → contents s ≡ bs
    → (s' : Stream) × (stream_read s (length bs) ≡ (bs, 0, s'))
read_all bs s v e =
    let (v', bytes, rest, left) = stream_read_lem (length bs) v in
    let got : (stream_read s (length bs)).0 ≡ bs =
      bytes ∙ rw e (take-length-le (length bs) bs (omega arith)) in
    let none_left : (stream_read s (length bs)).1 ≡ 0 =
      left ∙ omega (arith, length-contents s, ap length e) in
    ((stream_read s (length bs)).2, λ i. (got i, none_left i, (stream_read s (length bs)).2))

syscall_connect-found :
    (c : Request) (k : Kernel) (target : Process)
    → proc_get_by_name c.text k.processes ≡ some target
    → syscall_connect c k ≡ connect_to target k
unfolding syscall_connect
syscall_connect-found c k target h = rw (h, syscall_connect) refl

syscall-connect :
    (c : Request) (k : Kernel) (target : Process)
    → c.eax ≡ 2
    → proc_get_by_name c.text k.processes ≡ some target
    → syscall c k ≡ connect_to target k
unfolding syscall
syscall-connect c k target e h = simp e (syscall_connect-found c k target h)

pub syscall-read : (r : Request) (k : Kernel) → r.eax ≡ 5 → syscall r k ≡ syscall_read r k
unfolding syscall
syscall-read r k e = rw e refl

syscall-write : (r : Request) (k : Kernel) → r.eax ≡ 6 → syscall r k ≡ syscall_write r k
unfolding syscall
syscall-write r k e = rw e refl

-- What a process writes to a stream that is empty, the reader at its other end gets.
write-read :
    (w r : Request) (l : Kernel) (pid s : ℕ)
    → w.eax ≡ 6
    → r.eax ≡ 5
    → s ≢ 0
    → (descriptor l w.ebx).output ≡ s
    → (descriptor (record l { cur = pid }) r.ebx).input ≡ s
    → l.streams s ≡ stream_new
    → length w.bytes ≤ 1022
    → r.edx ≡ length w.bytes
    → ((syscall w l).0 ≡ result_only (pos 0))
      × ((syscall r (record (syscall w l).1 { cur = pid })).0 ≡ returned (pos 0) w.bytes)
write-read w r l pid s e f n out inp fresh fits count =
    let room : stream_write_length stream_new ≡ 1022 = omega (
      arith,
      read_length-add-write_length stream_new-IsValid,
      length-contents stream_new,
      ap length stream_new-contents,
    ) in
    let (s', wrote, v, bytes) =
      write_all w.bytes stream_new stream_new-IsValid (omega (arith, room, fits)) in
    let (s'', got) = read_all w.bytes s' v (bytes ∙ rw stream_new-contents refl) in
    let first = syscall-write w l e ∙ syscall_write-done w l s s' out n (rw fresh wrote) in
    let l₂ = record (put_stream l s s') { cur = pid } in
    let second =
      syscall-read r l₂ f
      ∙ syscall_read-done r l₂ s s'' w.bytes inp n (
          ap (λ t. stream_read t r.edx) (write_stream_self l.streams s s')
          ∙ ap (λ n. stream_read s' n) count
          ∙ got) in
    (ap (λ x. x.0) first, rw first (ap (λ x. x.0) second))

-- Process `k.cur` connects to the process of a name, writes up to 1022 bytes to the descriptor that
-- it got, and that process, when it runs, reads as many from its new descriptor: all three calls
-- return, and the bytes read are the bytes written.
pub connect-write-read :
    (c w r : Request) (k : Kernel) (target : Process) (here there : ℕ)
    → c.eax ≡ 2
    → w.eax ≡ 6
    → r.eax ≡ 5
    → proc_get_by_name c.text k.processes ≡ some target
    → Lives k k.cur
    → Lives k target.pid
    → target.pid ≢ k.cur
    → FirstFree (iodescr k k.cur) here
    → FirstFree (iodescr k target.pid) there
    → w.ebx ≡ here
    → r.ebx ≡ there
    → length w.bytes ≤ 1022
    → r.edx ≡ length w.bytes
    → let l = (syscall c k).1 in
      ((syscall c k).0 ≡ result_only (pos here))
      × ((syscall w l).0 ≡ result_only (pos 0))
      × ((syscall r (record (syscall w l).1 { cur = target.pid })).0 ≡ returned (pos 0) w.bytes)
connect-write-read c w r k target here there ec ew er name a b n f g hw hr fits count =
    let called = syscall-connect c k target ec name in
    let (answer, made) = connect_to_lem target k here there a b n f g in
    let l = (connect_to target k).1 in
    let near =
      ap (λ ds. get_or ds here (iostream 0 0)) made.near
      ∙ get_or-set_self (iodescr k k.cur) here (iostream (suc k.made) (suc (suc k.made)))
          (iostream 0 0) f.in_table in
    let far =
      ap (λ ds. get_or ds there (iostream 0 0)) made.far
      ∙ get_or-set_self (iodescr k target.pid) there (iostream (suc (suc k.made)) (suc k.made))
          (iostream 0 0) g.in_table in
    let out : (descriptor l w.ebx).output ≡ suc (suc k.made) =
      rw (hw, made.running) (ap (λ d. d.output) near) in
    let inp : (descriptor (record l { cur = target.pid }) r.ebx).input ≡ suc (suc k.made) =
      rw hr (ap (λ d. d.input) far) in
    let (wrote, got) =
      write-read w r l target.pid (suc (suc k.made)) ew er (omega arith) out inp made.to_far fits
        count in
    rw called (answer, wrote, got)
