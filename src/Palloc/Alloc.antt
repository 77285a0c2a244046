-- ===== src/Palloc/Alloc.antt =====
-- `mem_phys_alloc`: both searches end, the page of lowest number is taken, and what happens to the
-- lock when there is none.
use vsop.Base.{
  ℕ, zero, suc, ◌+◌, ◌*◌, ◌/◌, ◌%◌, ◌^◌, ◌≤◌, ◌<◌, ◌≡◌, refl, ◌≢◌, ◌⊎◌, inl, inr, arith, some, ◌==◌,
  if◌then◌else◌,
}
use native.Mathlib.Decide.{ℕ_discrete}
use native.Mathlib.Nat.{pow-suc, zero-add}
use vsop.Base.Bits.{bit, bit_zero}
use vsop.Base.Loops.{below-suc}
use vsop.Locks.{section_enter, section_leave}
use vsop.Palloc.{
  page_size, pages, bits, entries, Palloc, find_entry, find_bit, Result, spins, returns,
  page_address, take_page, take_from, alloc_locked, mem_phys_alloc,
}
use vsop.Palloc.Bounds.{is_free, IsValid, is_free-mem_phys_reserve, mem_phys_reserve-IsValid}

-- The first entry that is not zero.
record FirstEntry (m : ℕ → ℕ) (i k : ℕ) : Type 0 where
  nonzero : m k ≢ 0
  earlier : (j : ℕ) → i ≤ j → j < k → m j ≡ 0

-- A nonzero entry within reach ends the first search.
find_entry-FirstEntry :
    (fuel : ℕ) (m : ℕ → ℕ) (i g : ℕ)
    → i ≤ g
    → g < i + fuel
    → m g ≢ 0
    → (k : ℕ) × (find_entry fuel m i ≡ some k) × (k ≤ g) × FirstEntry m i k
unfolding find_entry
find_entry-FirstEntry zero m i g lo hi h = absurd (omega arith)
find_entry-FirstEntry (suc fuel) m i g lo hi h = elim (ℕ_discrete (m i) 0) [
  | no n ↦ (i, ground arith, lo, record { nonzero = n; earlier = λ j p q. absurd (omega arith) })
  | yes e ↦
      let more : i ≢ g = λ same. h (rw (← same) e) in
      let (k, found, le, first) =
        find_entry-FirstEntry fuel m (i + 1) g (omega (arith, more)) (omega arith) h in
      (
        k,
        ground (arith, found),
        le,
        record {
          nonzero = first.nonzero;
          earlier = λ j p q. elim (ℕ_discrete i j) [
            | yes s ↦ rw (← s) e
            | no s ↦ first.earlier j (omega arith) q
          ];
        },
      )
]

-- A nonzero word ends the second search at its lowest bit.
find_bit_lem :
    (fuel tmp b : ℕ)
    → tmp ≢ 0
    → tmp < 2 ^ fuel
    → (k : ℕ) × (find_bit fuel tmp b ≡ some (b + k))
      × (k < fuel)
      × (bit tmp k ≡ 1)
      × ((j : ℕ) → j < k → bit tmp j ≡ 0)
unfolding find_bit
find_bit_lem zero tmp b n h = absurd (omega arith)
find_bit_lem (suc fuel) tmp b n h = elim (ℕ_discrete (tmp % 2) 0) [
  | no odd ↦ (0, ground arith, omega arith, omega arith, λ j q. absurd (omega arith))
  | yes even ↦
      let (k, found, lt, one, low) =
        find_bit_lem fuel (tmp / 2) (b + 1) (omega arith) (omega (arith, pow-suc 2 fuel)) in
      (suc k, ground (arith, found), omega arith, one, below-suc _ k even low)
]

-- What a successful call returns and leaves.
pub record Allocated (p : Palloc) (addr : ℕ) (q : Palloc) : Type 0 where
  pub aligned : addr ≡ page_size * (addr / page_size)
  pub in_memory : addr / page_size < pages
  pub was_free : is_free p (addr / page_size) ≡ 1
  pub lowest : (n : ℕ) → n < addr / page_size → is_free p n ≡ 0
  pub taken : (n : ℕ) → is_free q n ≡ (if addr / page_size == n then 0 else is_free p n)
  pub unlocked : q.lock ≡ 0
  pub valid : IsValid q

-- `take_page` at the lowest bit of the first entry that is not zero.
take_page-Allocated :
    {p : Palloc} (i b : ℕ)
    → IsValid p
    → i < entries
    → FirstEntry p.memory_map 0 i
    → b < bits
    → bit (p.memory_map i) b ≡ 1
    → ((j : ℕ) → j < b → bit (p.memory_map i) j ≡ 0)
    → (addr : ℕ) × (q : Palloc) × (take_page p i b ≡ returns addr q) × Allocated p addr q
unfolding take_page section_leave
take_page-Allocated {p} i b v hi first hb one low =
    let page : page_address i b / page_size ≡ bits * i + b = omega arith in
    let entry : (bits * i + b) / bits ≡ i = omega arith in
    let place : (bits * i + b) % bits ≡ b = omega arith in
    (
      page_address i b,
      _,
      refl,
      record {
        aligned = omega arith;
        in_memory = omega arith;
        was_free = rw (page, entry, place) one;
        lowest = λ n h. elim (ℕ_discrete (n / bits) i) [
          | yes same ↦ rw same (low (n % bits) (omega (arith, page)))
          | no other ↦
              rw (first.earlier (n / bits) (omega arith) (omega (arith, page, other)))
                (bit_zero (n % bits))
        ];
        taken = λ n. is_free-mem_phys_reserve p (page_address i b) n;
        unlocked = refl;
        valid =
            let r = mem_phys_reserve-IsValid (page_address i b) (omega arith) v in
            record { words = r.words; guard = r.guard };
      },
    )

take_from-entries : (p : Palloc) → take_from p entries ≡ returns 0xdeadc0de p
unfolding take_from
take_from-entries p = refl

take_from-bit :
    (p : Palloc) (i b : ℕ)
    → i ≢ entries
    → find_bit bits (p.memory_map i) 0 ≡ some b
    → take_from p i ≡ take_page p i b
unfolding take_from
take_from-bit p i b h e = ground (arith, e)

alloc_locked-some :
    (p : Palloc) (i : ℕ)
    → find_entry (entries + 1) p.memory_map 0 ≡ some i
    → alloc_locked p ≡ take_from p i
unfolding alloc_locked
alloc_locked-some p i e = rw (e, alloc_locked)

mem_phys_alloc-unlocked :
    (p : Palloc) → p.lock ≡ 0 → mem_phys_alloc p ≡ alloc_locked (record p { lock = 1 })
unfolding mem_phys_alloc section_enter
mem_phys_alloc-unlocked p e = rw (e, mem_phys_alloc)

mem_phys_alloc-locked : (p : Palloc) → p.lock ≡ 1 → mem_phys_alloc p ≡ spins
unfolding mem_phys_alloc section_enter
mem_phys_alloc-locked p e = rw (e, mem_phys_alloc)

-- Only entries that are zero stand before the guard: no page is free.
none_free :
    (p : Palloc) {i : ℕ}
    → FirstEntry p.memory_map 0 i
    → i ≡ entries
    → (n : ℕ) → n < pages
    → is_free p n ≡ 0
none_free p first e n h =
    rw (first.earlier (n / bits) (omega arith) (omega arith)) (bit_zero (n % bits))

Allocates : Palloc → Result → Type 0
Allocates p r =
    ((addr : ℕ) × (q : Palloc) × (r ≡ returns addr q) × Allocated p addr q)
    ⊎ ((r ≡ returns 0xdeadc0de p) × ((n : ℕ) → n < pages → is_free p n ≡ 0))

alloc_locked-Allocates : (p : Palloc) → IsValid p → Allocates p (alloc_locked p)
unfolding Allocates
alloc_locked-Allocates p v =
    let (i, found, le, first) =
      find_entry-FirstEntry (entries + 1) p.memory_map 0 entries (omega arith) (omega arith)
        (omega (arith, v.guard)) in
    rw (alloc_locked-some p i found) (elim (ℕ_discrete i entries) [
      | yes e ↦ inr (rw e (take_from-entries p), none_free p first e)
      | no h ↦
          let (b, bit_found, lt, one, low) =
            find_bit_lem bits (p.memory_map i) 0 first.nonzero (v.words i) in
          rw (take_from-bit p i b h (rw zero-add at bit_found))
            (inl (take_page-Allocated i b v (omega (arith, le, h)) first lt one low))
    ])

-- A call with the lock free either takes the free page of lowest number, leaves every other page as
-- it was and gives the lock back, or finds no page free, returns 0xDEADC0DE and keeps the lock.
pub mem_phys_alloc_lem :
    (p : Palloc)
    → IsValid p
    → p.lock ≡ 0
    → ((addr : ℕ) × (q : Palloc) × (mem_phys_alloc p ≡ returns addr q) × Allocated p addr q)
      ⊎ ((mem_phys_alloc p ≡ returns 0xdeadc0de (record p { lock = 1 }))
          × ((n : ℕ) → n < pages → is_free p n ≡ 0))
unfolding Allocates
mem_phys_alloc_lem p v unlocked =
    rw (mem_phys_alloc-unlocked p unlocked)
      (elim (alloc_locked-Allocates (record p { lock = 1 })
        (record { words = v.words; guard = v.guard })) [
          | inl (addr, q, e, a) ↦ inl (
            addr,
            q,
            e,
            record {
              aligned = a.aligned;
              in_memory = a.in_memory;
              was_free = a.was_free;
              lowest = a.lowest;
              taken = a.taken;
              unlocked = a.unlocked;
              valid = a.valid;
            },
          )
          | inr none ↦ inr none
        ])

-- Once a call has found no page free, every later call spins for ever: the lock is never given back.
pub mem_phys_alloc-exhausted :
    (p : Palloc)
    → IsValid p
    → p.lock ≡ 0
    → ((n : ℕ) → n < pages → is_free p n ≡ 0)
    → (q : Palloc) × (mem_phys_alloc p ≡ returns 0xdeadc0de q) × (mem_phys_alloc q ≡ spins)
mem_phys_alloc-exhausted p v unlocked full = elim (mem_phys_alloc_lem p v unlocked) [
  | inl (addr, r, e, a) ↦ absurd (omega (arith, full (addr / page_size) a.in_memory, a.was_free))
  | inr (e, _) ↦ (record p { lock = 1 }, e, mem_phys_alloc-locked (record p { lock = 1 }) refl)
]
