-- ===== src/Palloc.antt =====
-- kernel/palloc.c: physical pages, as a bitmap with a bit for each page that is free.
-- The array `memory_map` is a function of its index; `Bounds` shows which indices are used.
pub mod Bounds
pub mod Ranges
pub mod Alloc
mod Tests
use vsop.Base.{
  ℕ, zero, suc, ◌+◌, ◌-◌, ◌*◌, ◌/◌, ◌%◌, ◌^◌, Option, none, some, ◌==◌, if◌then◌else◌, bit_or,
  bit_and,
}
use vsop.Base.Loops.{iterate}
use vsop.Locks.{section_enter, section_leave}

abbrev pub page_size : ℕ
page_size = 4096

-- `1 << (32 - PAGE_SHIFT)`
abbrev pub pages : ℕ
pages = 1048576

abbrev pub bits : ℕ
bits = 32

abbrev pub entries : ℕ
entries = 32768

pub record Palloc : Type 0 where
  pub memory_map : ℕ → ℕ
  pub lock : ℕ

-- `memory_map[id] = w`
abbrev pub update : (ℕ → ℕ) → ℕ → ℕ → ℕ → ℕ
update m id w i = if id == i then w else m i

-- The entry behind the last page ends the search of `mem_phys_alloc`.
unfoldable pub mem_phys_init : Palloc → Palloc
mem_phys_init p = record p { memory_map = update p.memory_map entries (2 ^ 32 - 1) }

unfoldable pub mem_phys_free : Palloc → ℕ → Palloc
mem_phys_free p addr =
    let page = addr / page_size in
    let id = page / bits in
    record p { memory_map = update p.memory_map id (bit_or (p.memory_map id) (2 ^ (page % bits))) }

-- `~(1 << bit)` is the word of all ones less that bit.
unfoldable pub mem_phys_reserve : Palloc → ℕ → Palloc
mem_phys_reserve p addr =
    let page = addr / page_size in
    let id = page / bits in
    let mask = 2 ^ bits - 1 - 2 ^ (page % bits) in
    record p { memory_map = update p.memory_map id (bit_and (p.memory_map id) mask) }

-- `while (!memory_map[i]) ++i;`, on fuel.
unfoldable pub find_entry : ℕ → (ℕ → ℕ) → ℕ → Option ℕ
find_entry zero m i = none
find_entry (suc fuel) m i =
    let rest = find_entry fuel m (i + 1) in if m i == 0 then rest else some i

-- `while (tmp % 2 == 0) { tmp >>= 1; ++bit; }`, on fuel.
unfoldable pub find_bit : ℕ → ℕ → ℕ → Option ℕ
find_bit zero tmp bit = none
find_bit (suc fuel) tmp bit =
    let rest = find_bit fuel (tmp / 2) (bit + 1) in if tmp % 2 == 0 then rest else some bit

-- How a call of `mem_phys_alloc` ends.
pub data Result : Type 0 where
  -- the lock is held, and the call spins
  spins : Result
  -- a search does not end, or leaves the array
  runs_off : Result
  returns : ℕ → Palloc → Result

-- PAGE_SIZE * (BITS * i + bit), in 32 bits
abbrev pub page_address : ℕ → ℕ → ℕ
page_address i bit = page_size * (bits * i + bit) % 2 ^ 32

-- Page `bit` of entry `i` is taken, and the lock is given back.
unfoldable pub take_page : Palloc → ℕ → ℕ → Result
take_page p i bit =
    let p' = mem_phys_reserve p (page_address i bit) in
    returns (page_address i bit) (record p' { lock = section_leave p'.lock })

-- The page of lowest number in entry `i`. With no page left the function returns with the lock
-- still held.
unfoldable pub take_from : Palloc → ℕ → Result
unfolding take_page
take_from p i =
    if i == entries then returns 0xdeadc0de p else (elim (find_bit bits (p.memory_map i) 0) [
      | none ↦ runs_off
      | some bit ↦ take_page p i bit
    ])

unfoldable pub alloc_locked : Palloc → Result
unfolding take_from find_entry
alloc_locked p = elim (find_entry (entries + 1) p.memory_map 0) [
  | none ↦ runs_off
  | some i ↦ take_from p i
]

unfoldable pub mem_phys_alloc : Palloc → Result
unfolding alloc_locked
mem_phys_alloc p = elim (section_enter p.lock) [
  | none ↦ spins
  | some l ↦ alloc_locked (record p { lock = l })
]

-- `addr + PAGE_SIZE * i` wraps at 32 bits.
abbrev pub nth_page : ℕ → ℕ → ℕ
nth_page addr i = (addr + page_size * i) % 2 ^ 32

unfoldable pub mem_phys_free_range : Palloc → ℕ → ℕ → Palloc
unfolding iterate
mem_phys_free_range p addr n = iterate (λ i q. mem_phys_free q (nth_page addr i)) 0 n p

unfoldable pub mem_phys_reserve_range : Palloc → ℕ → ℕ → Palloc
unfolding iterate
mem_phys_reserve_range p addr n = iterate (λ i q. mem_phys_reserve q (nth_page addr i)) 0 n p
