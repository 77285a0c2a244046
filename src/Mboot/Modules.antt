-- ===== src/Mboot/Modules.antt =====
-- The pages of the modules.
use vsop.Base.{
  ℕ, zero, suc, ◌+◌, ◌*◌, ◌/◌, ◌^◌, ◌≤◌, ◌<◌, ◌≡◌, List, [], ◌∷◌, length, get_or, arith,
}
use vsop.Memory.{page_align}
use vsop.Palloc.{Palloc, page_size, mem_phys_reserve_range}
use vsop.Palloc.Bounds.{is_free, IsValid, is_free-mem_phys_reserve, mem_phys_reserve-IsValid}
use vsop.Palloc.Ranges.{is_free-mem_phys_reserve_range}
use vsop.Mboot.{ModuleInfo, module_pages, reserve_module, reserve_modules}

-- A module that ends behind its start and a page before the end of memory.
pub record Fits (m : ModuleInfo) : Type 0 where
  pub ordered : m.mod_start ≤ m.mod_end
  pub bounded : m.mod_end + 4096 < 2 ^ 32

-- What a reservation leaves: the map valid, no page free that was not, page `k` taken if it has
-- bytes of the module, and the page of the entry taken.
record Reserved (mod_info : ℕ) (m : ModuleInfo) (p q : Palloc) : Type 0 where
  valid : IsValid q
  kept : (k : ℕ) → is_free p k ≡ 0 → is_free q k ≡ 0
  taken : (k : ℕ) → m.mod_start / 4096 ≤ k → k * 4096 < m.mod_end → is_free q k ≡ 0
  entry : is_free q (mod_info / 4096) ≡ 0

reserve_module-Reserved :
    (mod_info : ℕ) (m : ModuleInfo) (p : Palloc)
    → Fits m
    → mod_info < 2 ^ 32
    → IsValid p
    → Reserved mod_info m p (reserve_module mod_info m p)
unfolding reserve_module
reserve_module-Reserved mod_info m p f h v =
    let n = module_pages m in
    let q = mem_phys_reserve_range p (page_align m.mod_start) n in
    let fits : page_align m.mod_start / page_size + n ≤ 2 ^ 20 =
      omega (arith, f.ordered, f.bounded) in
    let (w, range) = is_free-mem_phys_reserve_range {p = p} (page_align m.mod_start) n fits v in
    let small : page_align mod_info < 2 ^ 32 = omega arith in
    let last = is_free-mem_phys_reserve q (page_align mod_info) in
    record {
      valid = mem_phys_reserve-IsValid (page_align mod_info) small w;
      kept = λ k z. ground (arith, last k, range k);
      taken = λ k low high.
          let inside : page_align m.mod_start / page_size ≤ k = omega arith in
          let inside' : k < page_align m.mod_start / page_size + n =
            omega (arith, f.ordered, f.bounded) in
          ground (arith, last k, range k);
      entry = ground (arith, last (mod_info / 4096));
    }

-- The same for a list of modules with their entries from `mod_info` on.
pub record Protected (mod_info : ℕ) (ms : List ModuleInfo) (p q : Palloc) : Type 0 where
  pub valid : IsValid q
  pub kept : (k : ℕ) → is_free p k ≡ 0 → is_free q k ≡ 0
  pub taken :
      (i : ℕ) (m : ModuleInfo) (k : ℕ)
      → i < length ms
      → (get_or ms i m).mod_start / 4096 ≤ k
      → k * 4096 < (get_or ms i m).mod_end
      → is_free q k ≡ 0
  pub entries : (i : ℕ) → i < length ms → is_free q ((mod_info + 16 * i) / 4096) ≡ 0

Protected-cons :
    (mod_info : ℕ) (m : ModuleInfo) (ms : List ModuleInfo) (p q r : Palloc)
    → Reserved mod_info m p q
    → Protected (mod_info + 16) ms q r
    → Protected mod_info (m ∷ ms) p r
Protected-cons mod_info m ms p q r one rest = record {
  valid = rest.valid;
  kept = λ k z. rest.kept k (one.kept k z);
  taken = taken_pages;
  entries = entry_pages;
}
  where
    taken_pages :
        (i : ℕ) (d : ModuleInfo) (k : ℕ)
        → i < suc (length ms)
        → (get_or (m ∷ ms) i d).mod_start / 4096 ≤ k
        → k * 4096 < (get_or (m ∷ ms) i d).mod_end
        → is_free r k ≡ 0
    taken_pages zero d k h a b = rest.kept k (one.taken k a b)
    taken_pages (suc i) d k h a b = rest.taken i d k (omega arith) a b

    entry_pages : (i : ℕ) → i < suc (length ms) → is_free r ((mod_info + 16 * i) / 4096) ≡ 0
    entry_pages zero h =
        let e : (mod_info + 16 * 0) / 4096 ≡ mod_info / 4096 = omega arith in
        rw e (rest.kept (mod_info / 4096) one.entry)
    entry_pages (suc i) h =
        let e : (mod_info + 16 * suc i) / 4096 ≡ (mod_info + 16 + 16 * i) / 4096 = omega arith in
        rw e (rest.entries i (omega arith))

-- The loop of mboot_parse over modules that each end behind their start and a page before the end
-- of memory, from a valid page map and with the entries below 2 ^ 32: the map stays valid, no page
-- gets free, and each page with bytes of a module or the start of an entry is taken.
pub reserve_modules_lem :
    (mod_info : ℕ) (ms : List ModuleInfo) (p : Palloc)
    → ((i : ℕ) (m : ModuleInfo) → i < length ms → Fits (get_or ms i m))
    → mod_info + 16 * length ms ≤ 2 ^ 32
    → IsValid p
    → Protected mod_info ms p (reserve_modules mod_info ms p)
unfolding reserve_modules
reserve_modules_lem mod_info [] p f h v = record {
  valid = v;
  kept = λ k z. z;
  taken = λ i m k low a b. absurd (omega arith);
  entries = λ i low. absurd (omega arith);
}
reserve_modules_lem mod_info (m ∷ ms) p f h v =
    let q = reserve_module mod_info m p in
    let r = reserve_module-Reserved mod_info m p (f 0 m (omega arith)) (omega arith) v in
    Protected-cons mod_info m ms p q (reserve_modules (mod_info + 16) ms q) r (
      reserve_modules_lem (mod_info + 16) ms q (λ i d low. f (suc i) d (omega arith)) (omega arith)
        r.valid)
