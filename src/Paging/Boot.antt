-- ===== src/Paging/Boot.antt =====
-- The directory that kernel/entry.s builds, and the one of the running kernel.
use vsop.Base.{
  ℕ, zero, suc, ◌+◌, ◌-◌, ◌*◌, ◌^◌, ◌<◌, ◌≡◌, refl, ◌∙◌, sym, ap, ◌⊎◌, inl, inr, true, false, arith,
  ◌==◌, ltb, if◌then◌else◌,
}
use vsop.Palloc.{Palloc, mem_phys_init, mem_phys_free}
use vsop.Palloc.Bounds.{
  is_free, IsValid, is_free-mem_phys_free, mem_phys_init-IsValid, mem_phys_free-IsValid,
}
use vsop.Paging.{Machine, is_present, frame}
use vsop.Paging.Walk.{dir_entry}
use vsop.Paging.Mapping.{IsOwned, home_table}

-- The words of `kpage_dir`, which stands in page `dir`, with `kpage_table` in the page behind it.
abbrev pub kpage_dir : ℕ → ℕ → ℕ
kpage_dir dir i =
    if i == 0
    then (dir + 1) * 4096 + 7
    else (if i == 768 then (dir + 1) * 4096 + 7 else (if i == 1023 then dir * 4096 + 7 else 0))

-- The words of `kpage_table`: the first 4 MiB of memory.
abbrev pub kpage_table : ℕ → ℕ
kpage_table i = i * 4096 + 7

-- What `start` leaves before it calls `kmain`, on memory `mem`.
unfoldable pub start : (ℕ → ℕ) → ℕ → Palloc → Machine
start mem dir palloc = record {
  mem = λ i.
      if ltb i (dir * 1024)
      then mem i
      else (if ltb i (dir * 1024 + 1024)
          then kpage_dir dir (i - dir * 1024)
          else (if ltb i (dir * 1024 + 2048)
              then kpage_table (i - (dir * 1024 + 1024))
              else mem i));
  cr3 = dir * 4096;
  palloc = palloc;
}

module _ (mem : ℕ → ℕ) (dir : ℕ) (palloc : Palloc) (h : dir + 1 < 2 ^ 20) where
  start-entry : (i : ℕ) → i < 1024 → dir_entry (start mem dir palloc) i ≡ kpage_dir dir i
  unfolding start
  start-entry i l = let at : frame (dir * 4096) ≡ dir = omega arith in rw at (words i l)
    where
      words :
          (j : ℕ)
          → j < 1024
          → (if ltb (dir * 1024 + j) (dir * 1024)
              then mem (dir * 1024 + j)
              else (if ltb (dir * 1024 + j) (dir * 1024 + 1024)
                  then kpage_dir dir (dir * 1024 + j - dir * 1024)
                  else (if ltb (dir * 1024 + j) (dir * 1024 + 2048)
                      then kpage_table (dir * 1024 + j - (dir * 1024 + 1024))
                      else mem (dir * 1024 + j))))
            ≡ kpage_dir dir j
      words j k =
          let below : ltb (dir * 1024 + j) (dir * 1024) ≡ false = ground arith in
          let within : ltb (dir * 1024 + j) (dir * 1024 + 1024) ≡ true = ground arith in
          let same : dir * 1024 + j - dir * 1024 ≡ j = omega arith in rw (below, within, same) refl

  -- Each entry that is there leads to the table, or is the last one.
  start-tables :
      (i : ℕ)
      → is_present (kpage_dir dir i) ≡ true
      → ((home_table i ≡ 768) × (frame (kpage_dir dir i) ≡ dir + 1))
        ⊎ ((home_table i ≡ 1023) × (frame (kpage_dir dir i) ≡ dir))
  start-tables i p = ground arith

  start-distinct :
      (i j : ℕ)
      → is_present (kpage_dir dir i) ≡ true
      → is_present (kpage_dir dir j) ≡ true
      → frame (kpage_dir dir i) ≡ frame (kpage_dir dir j)
      → home_table i ≡ home_table j
  start-distinct i j p q e = elim (start-tables i p) [
    | inl x ↦ elim (start-tables j q) [
      | inl y ↦ x.0 ∙ sym y.0
      | inr y ↦ absurd (omega (arith, sym x.1 ∙ e ∙ y.1))
    ]
    | inr x ↦ elim (start-tables j q) [
      | inl y ↦ absurd (omega (arith, sym x.1 ∙ e ∙ y.1))
      | inr y ↦ x.0 ∙ sym y.0
    ]
  ]

  -- The directory of the start is owned, with the pages of the directory and the table taken.
  pub start-IsOwned :
      is_free palloc dir ≡ 0
      → is_free palloc (dir + 1) ≡ 0
      → IsValid palloc
      → palloc.lock ≡ 0
      → IsOwned (start mem dir palloc)
  unfolding start
  start-IsOwned a b v u =
      let at : (i : ℕ) → i < 1024 → dir_entry (start mem dir palloc) i ≡ kpage_dir dir i =
        start-entry in
      let cr : frame (dir * 4096) ≡ dir = omega arith in
      record {
        recursive = record {
          present = ap is_present (at 1023 (omega arith)) ∙ last_present;
          self = ap frame (at 1023 (omega arith)) ∙ last_frame ∙ sym cr;
        };
        shared = record {
          low = ap is_present (at 0 (omega arith)) ∙ first_present;
          high = ap is_present (at 768 (omega arith)) ∙ first_present;
          table = ap frame (at 0 (omega arith)) ∙ sym (ap frame (at 768 (omega arith)));
        };
        distinct = λ i j l k p q e.
            start-distinct i j (sym (ap is_present (at i l)) ∙ p) (sym (ap is_present (at j k)) ∙ q)
              (sym (ap frame (at i l)) ∙ e ∙ ap frame (at j k));
        taken = λ i l p.
            let tables = start-tables i (sym (ap is_present (at i l)) ∙ p) in
            ap (λ w. is_free palloc (frame w)) (at i l) ∙ elim tables [
              | inl x ↦ ap (is_free palloc) x.1 ∙ b
              | inr x ↦ ap (is_free palloc) x.1 ∙ a
            ];
        valid = v;
        unlocked = u;
      }
    where
      last_present : is_present (dir * 4096 + 7) ≡ true
      last_present = ground arith

      last_frame : frame (dir * 4096 + 7) ≡ dir
      last_frame = omega arith

      first_present : is_present ((dir + 1) * 4096 + 7) ≡ true
      first_present = ground arith

-- A directory of the running kernel, which stands in page 1: that of the start, with the tables of
-- the windows of page_dir_clone and of the heap in pages 3, 4 and 5.
abbrev pub running : Palloc → Machine
running palloc = record {
  mem = λ i.
      if i == 1024
      then 8199
      else (if i == 1792
          then 8199
          else (if i == 2047
              then 4103
              else (if i == 1843
                  then 12295
                  else (if i == 1911
                      then 16391
                      else (if i == 1804
                          then 20487
                          else (if ltb i 2048
                              then 0
                              else (if ltb i 3072 then kpage_table (i - 2048) else 0)))))));
  cr3 = 4096;
  palloc = palloc;
}

-- The entry of each table.
home_of : ℕ → ℕ
home_of f =
    if f == 2
    then 768
    else (if f == 1 then 1023 else (if f == 3 then 819 else (if f == 4 then 887 else 780)))

running-home :
    (palloc : Palloc) (i : ℕ)
    → i < 1024
    → is_present (dir_entry (running palloc) i) ≡ true
    → (home_table i ≡ home_of (frame (dir_entry (running palloc) i)))
      × (frame (dir_entry (running palloc) i) < 6)
unfolding home_of
running-home palloc i h p = ground arith

pub running-IsOwned :
    (palloc : Palloc)
    → ((page : ℕ) → page < 6 → is_free palloc page ≡ 0)
    → IsValid palloc
    → palloc.lock ≡ 0
    → IsOwned (running palloc)
running-IsOwned palloc t v u = record {
  recursive = record { present = refl; self = refl };
  shared = record { low = refl; high = refl; table = refl };
  distinct = λ i j h k p q e.
      (running-home palloc i h p).0 ∙ ap home_of e ∙ sym (running-home palloc j k q).0;
  taken = λ i h p. t (frame (dir_entry (running palloc) i)) (running-home palloc i h p).1;
  valid = v;
  unlocked = u;
}

-- A map in which page 70 alone is free.
pub empty : Palloc
unfolding mem_phys_init
empty = mem_phys_init (record { memory_map = λ i. 0; lock = 0 })

abbrev pub one_page : Palloc
one_page = mem_phys_free empty 286720

pub one_page-IsValid : IsValid one_page
unfolding empty
one_page-IsValid =
    mem_phys_free-IsValid 286720 (omega arith) (mem_phys_init-IsValid _ (λ i. omega arith))

pub one_page-low : (page : ℕ) → page < 6 → is_free one_page page ≡ 0
unfolding empty
one_page-low zero h = ground (arith, is_free-mem_phys_free empty 286720 0)
one_page-low (suc zero) h = ground (arith, is_free-mem_phys_free empty 286720 1)
one_page-low (suc (suc zero)) h = ground (arith, is_free-mem_phys_free empty 286720 2)
one_page-low (suc (suc (suc zero))) h = ground (arith, is_free-mem_phys_free empty 286720 3)
one_page-low (suc (suc (suc (suc zero)))) h = ground (arith, is_free-mem_phys_free empty 286720 4)
one_page-low (suc (suc (suc (suc (suc zero))))) h =
    ground (arith, is_free-mem_phys_free empty 286720 5)
one_page-low (suc (suc (suc (suc (suc (suc page)))))) h = absurd (omega arith)

pub one_page-free : is_free one_page 70 ≡ 1
unfolding empty
one_page-free = ground (arith, is_free-mem_phys_free empty 286720 70)

pub one_page-unlocked : one_page.lock ≡ 0
unfolding empty mem_phys_free
one_page-unlocked = refl

pub running-one_page : IsOwned (running one_page)
running-one_page = running-IsOwned one_page one_page-low one_page-IsValid one_page-unlocked
