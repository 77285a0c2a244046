-- ===== src/Palloc/Bounds.antt =====
-- The map as a set of free pages: what `mem_phys_free` and `mem_phys_reserve` do to it.
use vsop.Base.{ℕ, ◌/◌, ◌%◌, ◌^◌, ◌-◌, ◌<◌, ◌≡◌, arith, ◌==◌, if◌then◌else◌}
use vsop.Base.Bits.{
  bit, bit-bit_or, bit-bit_and, bit-le, bit-pow, bit-mask, bit_or-lt, bit_and-lt, pow-lt-pow,
}
use vsop.Palloc.{page_size, bits, entries, Palloc, mem_phys_init, mem_phys_free, mem_phys_reserve}

-- 1 if page `n` is free, 0 if it is taken.
abbrev pub is_free : Palloc → ℕ → ℕ
is_free p n = bit (p.memory_map (n / bits)) (n % bits)

-- The entries are 32-bit words, and the guard stands behind the last.
pub record IsValid (p : Palloc) : Type 0 where
  pub words : (i : ℕ) → p.memory_map i < 2 ^ 32
  pub guard : p.memory_map entries ≡ 2 ^ 32 - 1

-- Every 32-bit address has its page in the map, below the guard.
pub page_in_map : (addr : ℕ) → addr < 2 ^ 32 → addr / page_size / bits < entries
page_in_map addr h = omega arith

-- After `mem_phys_free(addr)` the page of `addr` is free, and every other is as it was.
pub is_free-mem_phys_free :
    (p : Palloc) (addr n : ℕ)
    → is_free (mem_phys_free p addr) n ≡ (if addr / page_size == n then 1 else is_free p n)
unfolding mem_phys_free
is_free-mem_phys_free p addr n =
    let page = addr / page_size in
    let w = p.memory_map (page / bits) in
    ground (
      arith,
      bit-bit_or w (2 ^ (page % bits)) (n % bits),
      bit-pow (page % bits) (n % bits),
      bit-le w (n % bits),
    )

-- After `mem_phys_reserve(addr)` the page of `addr` is taken, and every other is as it was.
pub is_free-mem_phys_reserve :
    (p : Palloc) (addr n : ℕ)
    → is_free (mem_phys_reserve p addr) n ≡ (if addr / page_size == n then 0 else is_free p n)
unfolding mem_phys_reserve
is_free-mem_phys_reserve p addr n =
    let page = addr / page_size in
    let w = p.memory_map (page / bits) in
    ground (
      arith,
      bit-bit_and w (2 ^ bits - 1 - 2 ^ (page % bits)) (n % bits),
      bit-mask bits (page % bits) (n % bits),
      bit-le w (n % bits),
    )

-- A valid map stays valid as the page of a 32-bit address is freed or reserved.
pub mem_phys_free-IsValid :
    {p : Palloc} (addr : ℕ) → addr < 2 ^ 32 → IsValid p → IsValid (mem_phys_free p addr)
unfolding mem_phys_free
mem_phys_free-IsValid {p} addr h v =
    let page = addr / page_size in
    let w = p.memory_map (page / bits) in
    record {
      words = λ i. ground (
        arith,
        v.words i,
        bit_or-lt 32 w (2 ^ (page % bits)) (v.words _) (pow-lt-pow (page % bits) 32 (omega arith)),
      );
      guard = ground (arith, v.guard, page_in_map addr h);
    }

pub mem_phys_reserve-IsValid :
    {p : Palloc} (addr : ℕ) → addr < 2 ^ 32 → IsValid p → IsValid (mem_phys_reserve p addr)
unfolding mem_phys_reserve
mem_phys_reserve-IsValid {p} addr h v =
    let page = addr / page_size in
    let w = p.memory_map (page / bits) in
    let mask = 2 ^ bits - 1 - 2 ^ (page % bits) in
    record {
      words = λ i. ground (arith, v.words i, bit_and-lt 32 w mask (v.words _) (omega arith));
      guard = ground (arith, v.guard, page_in_map addr h);
    }

-- `mem_phys_init` on the zeroed array of the program's start.
pub mem_phys_init-IsValid :
    (p : Palloc) → ((i : ℕ) → p.memory_map i < 2 ^ 32) → IsValid (mem_phys_init p)
unfolding mem_phys_init
mem_phys_init-IsValid p h = record { words = λ i. ground (arith, h i); guard = ground arith }
