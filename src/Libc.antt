-- ===== src/Libc.antt =====
-- libc/syscalls.c: the calls of the C library. Each puts its arguments into registers and its number
-- into `eax`, leaves the other registers as they are, and raises the interrupt that the kernel
-- answers. A text is passed with what stands in memory at its address.
pub mod Calls
mod Tests
use vsop.Base.{ℕ, List}
use vsop.Syscall.{Request}

-- `syscall` of the library: the registers at the interrupt.
unfoldable pub raise : ℕ → Request → Request
raise number r = record r { eax = number }

unfoldable pub exit : Request → ℕ → Request
unfolding raise
exit r error_code = raise 0 (record r { ebx = error_code })

unfoldable pub wait : Request → ℕ → Request
unfolding raise
wait r ticks = raise 1 (record r { ebx = ticks })

unfoldable pub register_process : Request → ℕ → List ℕ → Request
unfolding raise
register_process r name text = raise 4 (record r { ebx = name; text = text })

unfoldable pub read : Request → ℕ → ℕ → ℕ → Request
unfolding raise
read r descr buf size = raise 5 (record r { ebx = descr; ecx = buf; edx = size })

-- The `size` bytes at `buf` are `bytes`.
unfoldable pub write : Request → ℕ → ℕ → ℕ → List ℕ → Request
unfolding raise
write r descr buf size bytes =
    raise 6 (record r { ebx = descr; ecx = buf; edx = size; bytes = bytes })

unfoldable pub select : Request → Request
unfolding raise
select r = raise 3 r

unfoldable pub connect : Request → ℕ → List ℕ → Request
unfolding raise
connect r name text = raise 2 (record r { ebx = name; text = text })

unfoldable pub mmap : Request → ℕ → ℕ → Request
unfolding raise
mmap r virt_addr phys_addr = raise 7 (record r { ebx = virt_addr; ecx = phys_addr })

unfoldable pub handle : Request → ℕ → Request
unfolding raise
handle r irq = raise 8 (record r { ebx = irq })

unfoldable pub peek : Request → ℕ → Request
unfolding raise
peek r descr = raise 9 (record r { ebx = descr })

unfoldable pub time : Request → Request
unfolding raise
time r = raise 10 r
