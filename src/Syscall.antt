-- ===== src/Syscall.antt =====
-- kernel/syscall.c: the system calls, over the state of the whole kernel. A call that must wait
-- stops in the model with the answer `blocked`: `stream_read` and `stream_write` where they are out
-- of bytes or of room, `SYSCALL_SELECT` with nothing to read, `SYSCALL_WAIT` for its ticks.
pub mod Connect
pub mod Transfer
pub mod Driver
mod Tests
use vsop.Base.{
  ℕ, zero, suc, ◌+◌, ◌<◌, List, [], ◌∷◌, Bool, true, false, Option, none, some, ◌==◌, ltb,
  if◌then◌else◌, get_or, set, length,
}
use vsop.Base.Int.{ℤ, pos, negsuc, eq_ℤ, to_u32}
use vsop.Descriptors.{Ptr, IoStream, iostream, max_descriptors, iostream_attach, iostream_select}
use vsop.Drivers.{driver_register}
use vsop.Kernel.{Kernel, add_stream, put_stream, iodescr, put_descr}
use vsop.Paging.{paging_map, page_present, page_writable, page_usermode}
use vsop.Process.{Process, proc_get_by_name}
use vsop.Stream.{Stream, stream_read, stream_write, stream_read_length}

-- The registers of the caller, with what stands in its memory: the text at `ebx` and the `edx`
-- bytes at `ecx`.
pub record Request : Type 0 where
  pub eax : ℕ
  pub ebx : ℕ
  pub ecx : ℕ
  pub edx : ℕ
  pub text : List ℕ
  pub bytes : List ℕ

-- How a call ends: with a result and the bytes that it stored at `ecx`; waiting, with the bytes
-- stored so far; or with an access that no model of the descriptors covers.
pub data Answer : Type 0 where
  returned : ℤ → List ℕ → Answer
  blocked : List ℕ → Answer
  faulted : Answer

abbrev pub result_only : ℤ → Answer
result_only r = returned r []

abbrev pub nothing : ℤ
nothing = negsuc 0

abbrev pub proc_max_name_len : ℕ
proc_max_name_len = 64

-- `proc_register`: the name is copied with its 0. From 64 bytes on the copy leaves the array.
unfoldable pub syscall_register : Request → Kernel → Answer × Kernel
syscall_register r k = elim (get_or k.processes k.cur none) [
  | none ↦ (faulted, k)
  | some p ↦
      if ltb (length r.text) proc_max_name_len
      then (
        result_only (pos 0),
        record k { processes = set k.processes k.cur (some (record p { name = r.text })) },
      )
      else (faulted, k)
]

-- `SYSCALL_CONNECT` once the other process is found: two streams, crossed over at the two ends.
unfoldable pub connect_to : Process → Kernel → Answer × Kernel
unfolding iostream_attach
connect_to target k =
    let input = suc k.made in
    let output = suc input in
    let k₂ = add_stream (add_stream k) in
    let (_, there) = iostream_attach (iodescr k₂ target.pid) output input in
    let k₃ = put_descr k₂ target.pid there in
    let (result, here) = iostream_attach (iodescr k₃ k.cur) input output in
    (result_only result, put_descr k₃ k.cur here)

unfoldable pub syscall_connect : Request → Kernel → Answer × Kernel
unfolding proc_get_by_name connect_to
syscall_connect r k = elim (proc_get_by_name r.text k.processes) [
  | none ↦ (result_only nothing, k)
  | some target ↦ connect_to target k
]

unfoldable pub syscall_select : Kernel → Answer × Kernel
unfolding iostream_select
syscall_select k =
    let result = iostream_select k.streams (iodescr k k.cur) in
    if eq_ℤ result nothing then (blocked [], k) else (result_only result, k)

-- `cur_proc->iodescr.iostreams[descr]`; the index is not checked.
abbrev pub descriptor : Kernel → ℕ → IoStream
descriptor k d = get_or (iodescr k k.cur) d (iostream 0 0)

unfoldable pub syscall_read : Request → Kernel → Answer × Kernel
unfolding stream_read
syscall_read r k =
    let s = (descriptor k r.ebx).input in
    let (bytes, left, s') = stream_read (k.streams s) r.edx in
    let k' = put_stream k s s' in
    if s == 0
    then (faulted, k)
    else (if left == 0 then (returned (pos 0) bytes, k') else (blocked bytes, k'))

abbrev pub is_empty : List ℕ → Bool
is_empty [] = true
is_empty (b ∷ bs) = false

unfoldable pub syscall_write : Request → Kernel → Answer × Kernel
unfolding stream_write
syscall_write r k =
    let s = (descriptor k r.ebx).output in
    let (left, s') = stream_write (k.streams s) r.bytes in
    let k' = put_stream k s s' in
    if s == 0
    then (faulted, k)
    else (if is_empty left then (result_only (pos 0), k') else (blocked [], k'))

unfoldable pub syscall_mmap : Request → Kernel → Answer × Kernel
unfolding paging_map
syscall_mmap r k =
    elim (paging_map k.machine r.ebx r.ecx (page_usermode + page_writable + page_present)) [
      | none ↦ (faulted, k)
      | some m ↦ (result_only nothing, record k { machine = m })
    ]

unfoldable pub syscall_handle : Request → Kernel → Answer × Kernel
unfolding driver_register
syscall_handle r k = let (result, k') = driver_register k k.cur r.ebx in (result_only result, k')

unfoldable pub syscall_peek : Request → Kernel → Answer × Kernel
unfolding stream_read_length
syscall_peek r k =
    let s = (descriptor k r.ebx).input in
    if s == 0 then (faulted, k) else (result_only (pos (stream_read_length (k.streams s))), k)

-- The `switch` of `syscall`. The calls 0 (exit), and all others without a case, answer -1.
unfoldable pub syscall : Request → Kernel → Answer × Kernel
unfolding syscall_register syscall_connect syscall_select syscall_read syscall_write syscall_mmap
    syscall_handle syscall_peek
syscall r k =
    if r.eax == 1
    then (if ltb 0 r.ebx then (blocked [], k) else (result_only nothing, k))
    else (if r.eax == 2
        then syscall_connect r k
        else (if r.eax == 3
            then syscall_select k
            else (if r.eax == 4
                then syscall_register r k
                else (if r.eax == 5
                    then syscall_read r k
                    else (if r.eax == 6
                        then syscall_write r k
                        else (if r.eax == 7
                            then syscall_mmap r k
                            else (if r.eax == 8
                                then syscall_handle r k
                                else (if r.eax == 9
                                    then syscall_peek r k
                                    else (if r.eax == 10
                                        then (result_only (pos k.ticks), k)
                                        else (result_only nothing, k))))))))))
