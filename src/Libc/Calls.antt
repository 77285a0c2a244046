-- ===== src/Libc/Calls.antt =====
-- The calls of the library at the kernel.
use vsop.Base.{ℕ, ◌≡◌, ◌≢◌, ◌≤◌, refl, some, List, [], length, ltb, if◌then◌else◌}
use vsop.Descriptors.Laws.{FirstFree}
use vsop.Kernel.Tables.{Lives}
use vsop.Process.{Process, proc_get_by_name}
use vsop.Syscall.Transfer.{connect-write-read}
use vsop.Base.Int.{pos}
use vsop.Syscall.{returned}
use vsop.Kernel.{Kernel, iodescr}
use vsop.Syscall.{
  Request, blocked, result_only, nothing, syscall, syscall_connect, syscall_select,
  syscall_register, syscall_read, syscall_write, syscall_mmap, syscall_handle, syscall_peek,
}
use vsop.Libc.{exit, wait, register_process, read, write, select, connect, mmap, handle, peek, time}

-- Whatever the registers hold, each call of the library makes the kernel run the function of its name
-- on its arguments: exit answers -1 and changes nothing, a wait of no ticks answers -1 and any other
-- waits, and time answers the ticks.
pub library-syscall :
    (r : Request) (k : Kernel) (a b c : ℕ) (data_bytes : List ℕ)
    → (syscall (exit r a) k ≡ (result_only nothing, k))
      × (syscall (wait r a) k ≡ (if ltb 0 a then (blocked [], k) else (result_only nothing, k)))
      × (syscall (connect r a data_bytes) k ≡ syscall_connect (connect r a data_bytes) k)
      × (syscall (select r) k ≡ syscall_select k)
      × (syscall (register_process r a data_bytes) k
          ≡ syscall_register (register_process r a data_bytes) k)
      × (syscall (read r a b c) k ≡ syscall_read (read r a b c) k)
      × (syscall (write r a b c data_bytes) k ≡ syscall_write (write r a b c data_bytes) k)
      × (syscall (mmap r a b) k ≡ syscall_mmap (mmap r a b) k)
      × (syscall (handle r a) k ≡ syscall_handle (handle r a) k)
      × (syscall (peek r a) k ≡ syscall_peek (peek r a) k)
      × (syscall (time r) k ≡ (result_only (pos k.ticks), k))
unfolding syscall exit wait connect select register_process read write mmap handle peek time
library-syscall r k a b c data_bytes =
    (refl, refl, refl, refl, refl, refl, refl, refl, refl, refl, refl)

-- A program that runs as process k.cur connects to the process of a name and writes up to 1022 bytes
-- to the descriptor that it got, and the program of that process, when it runs, reads as many from
-- its new descriptor, all by the calls of the library: each returns, and the bytes read are those
-- written.
pub library-transfer :
    (r s : Request) (k : Kernel) (target : Process) (here there name from to : ℕ)
    (text sent : List ℕ)
    → proc_get_by_name text k.processes ≡ some target
    → Lives k k.cur
    → Lives k target.pid
    → target.pid ≢ k.cur
    → FirstFree (iodescr k k.cur) here
    → FirstFree (iodescr k target.pid) there
    → length sent ≤ 1022
    → let (connected, l) = syscall (connect r name text) k in
      let (written, m) = syscall (write r here from (length sent) sent) l in
      (connected ≡ result_only (pos here))
      × (written ≡ result_only (pos 0))
      × ((syscall (read s there to (length sent)) (record m { cur = target.pid })).0
          ≡ returned (pos 0) sent)
unfolding connect write read
library-transfer r s k target here there name from to text sent found a b apart f g fits =
    connect-write-read (connect r name text) (write r here from (length sent) sent)
      (read s there to (length sent)) k target here there refl refl refl found a b apart f g refl
      refl fits refl
