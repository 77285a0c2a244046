-- ===== src/Paging/NewTable.antt =====
-- A directory after a new table has been entered and cleared.
use vsop.Base.{
  ℕ, ◌+◌, ◌*◌, ◌/◌, ◌%◌, ◌^◌, ◌≤◌, ◌<◌, ◌≡◌, ◌≢◌, ◌∙◌, sym, ap, ◌⊎◌, inl, inr, true, false, some,
  arith,
}
use vsop.Palloc.{Palloc, returns, mem_phys_alloc}
use vsop.Palloc.Bounds.{is_free}
use vsop.Palloc.Alloc.{Allocated}
use vsop.Paging.{
  Machine, is_present, frame, dir_word, table_word, write_word, elem, page_dir_virt_addr,
  page_table_virt_addr, page_entry, new_table, clear_words,
}
use vsop.Paging.Entries.{page_entry-frame, page_entry-is_present}
use vsop.Paging.Walk.{dir_entry, IsRecursive, walk-dir, store-at}
use vsop.Paging.Lookup.{translate}
use vsop.Paging.Mapping.{
  IsOwned, IsShared, entries-IsShared, home_table, write_word-other, write_word_self, table-ne-dir,
  translate-same, translate-to, translate-none,
}
use vsop.Paging.Clearing.{Cleared}

-- A word of one frame lies outside another.
pub beside :
    (a b i : ℕ) → a ≢ b → i < 1024 → (a * 1024 + i < b * 1024) ⊎ (b * 1024 + 1024 ≤ a * 1024 + i)
beside a b i n h = ground arith

same_or_other : (i j : ℕ) → (j ≡ i) ⊎ (i ≢ j)
same_or_other i j = ground arith

-- The new table has been entered at `index` and cleared.
pub record Added (m n : Machine) (index : ℕ) : Type 0 where
  pub owned : IsOwned n
  pub present : is_present (dir_entry n index) ≡ true
  pub same : (v : ℕ) → v < 0xffc00000 → translate n v ≡ translate m v

-- A page that has just been taken is none of the directory's frames.
module _ (m : Machine) (page : ℕ) (q : Palloc) (o : IsOwned m) (a : Allocated m.palloc page q) where
  pub page_frame : frame page ≡ page / 4096
  page_frame = omega (arith, a.in_memory)

  -- The frames of the tables that are there are not the new one.
  pub table-ne-page :
      (i : ℕ) → i < 1024 → is_present (dir_entry m i) ≡ true → frame (dir_entry m i) ≢ page / 4096
  table-ne-page i h p e =
      let t : is_free m.palloc (page / 4096) ≡ 0 = rw e at (o.taken i h p) in
      omega (arith, t, a.was_free)

  pub dir-ne-page : frame m.cr3 ≢ page / 4096
  dir-ne-page e = table-ne-page 1023 (omega arith) o.recursive.present (o.recursive.self ∙ e)

module _ (m : Machine) (index page : ℕ) (q : Palloc) (n : Machine) (o : IsOwned m)
    (small : index < 1023) (absent : is_present (dir_entry m index) ≡ false)
    (a : Allocated m.palloc page q) where
  abbrev pub with_entry : Machine
  with_entry = record m {
    mem = write_word m.mem (frame m.cr3 * 1024 + index) (page_entry page 7);
    palloc = q;
  }

  with_entry-other : (i : ℕ) → index ≢ i → dir_entry with_entry i ≡ dir_entry m i
  with_entry-other i h =
      write_word-other m.mem (frame m.cr3 * 1024 + index) (page_entry page 7)
        (frame m.cr3 * 1024 + i) (λ e. h (omega (arith, e)))

  pub with_entry_self : dir_entry with_entry index ≡ page_entry page 7
  with_entry_self = write_word_self m.mem (frame m.cr3 * 1024 + index) (page_entry page 7)

  pub with_entry-IsRecursive : IsRecursive with_entry
  with_entry-IsRecursive =
      let e = with_entry-other 1023 (omega arith) in
      record { present = rw e o.recursive.present; self = rw e o.recursive.self }

  module _ (c : Cleared with_entry n (page / 4096 * 1024) 1024) where
    cleared-entry : (i : ℕ) → i < 1024 → dir_entry n i ≡ dir_entry with_entry i
    cleared-entry i h = rw c.cr3 (
        c.outside (frame m.cr3 * 1024 + i)
          (beside (frame m.cr3) (page / 4096) i (dir-ne-page m page q o a) h))

    entry-cases :
        (i : ℕ)
        → i < 1024
        → ((i ≡ index) × (dir_entry n i ≡ page_entry page 7))
          ⊎ ((index ≢ i) × (dir_entry n i ≡ dir_entry m i))
    entry-cases i h = elim (same_or_other index i) [
      | inl e ↦ inl (e, cleared-entry i h ∙ rw e with_entry_self)
      | inr e ↦ inr (e, cleared-entry i h ∙ with_entry-other i e)
    ]

    entry-distinct :
        (i j : ℕ)
        → i < 1024
        → j < 1024
        → is_present (dir_entry n i) ≡ true
        → is_present (dir_entry n j) ≡ true
        → frame (dir_entry n i) ≡ frame (dir_entry n j)
        → home_table i ≡ home_table j
    entry-distinct i j h k p r e = elim (entry-cases i h) [
      | inl x ↦ elim (entry-cases j k) [
        | inl y ↦ ap home_table (x.0 ∙ sym y.0)
        | inr y ↦ absurd (
            table-ne-page m page q o a j k (rw y.1 at r)
              (sym (rw (x.1, y.1, page_entry-frame page 7, (page_frame m page q o a)) at e)))
      ]
      | inr x ↦ elim (entry-cases j k) [
        | inl y ↦ absurd (
            table-ne-page m page q o a i h (rw x.1 at p)
              (rw (x.1, y.1, page_entry-frame page 7, (page_frame m page q o a)) at e))
        | inr y ↦ o.distinct i j h k (rw x.1 at p) (rw y.1 at r) (rw (x.1, y.1) at e)
      ]
    ]

    entry-taken :
        (i : ℕ)
        → i < 1024
        → is_present (dir_entry n i) ≡ true
        → is_free q (frame (dir_entry n i)) ≡ 0
    entry-taken i h p = elim (entry-cases i h) [
      | inl b ↦
          rw (b.1, page_entry-frame page 7, (page_frame m page q o a))
            (ground (arith, a.taken (page / 4096)))
      | inr b ↦
          let old : is_present (dir_entry m i) ≡ true = rw b.1 at p in
          rw b.1 (ground (arith, a.taken (frame (dir_entry m i)), o.taken i h old))
    ]

    -- The new entry is none of the two that were there.
    old-entry :
        (i : ℕ) → i < 1024 → is_present (dir_entry m i) ≡ true → dir_entry n i ≡ dir_entry m i
    old-entry i h p = elim (entry-cases i h) [
      | inl x ↦ absurd (apart (sym p ∙ ap (λ k. is_present (dir_entry m k)) x.0 ∙ absent))
      | inr x ↦ x.1
    ]
      where
        apart : true ≡ false → ⊥
        apart e = cc

    cleared-IsShared : IsShared n
    cleared-IsShared =
        entries-IsShared m n (old-entry 0 (omega arith) o.shared.low)
          (old-entry 768 (omega arith) o.shared.high) o.shared

    cleared-IsOwned : IsOwned n
    cleared-IsOwned =
        let last = cleared-entry 1023 (omega arith) ∙ with_entry-other 1023 (omega arith) in
        record {
          recursive = record {
            present = rw last o.recursive.present;
            self = rw (last, c.cr3) o.recursive.self;
          };
          shared = cleared-IsShared;
          distinct = entry-distinct;
          taken = λ i h p. rw c.palloc (entry-taken i h p);
          valid = rw c.palloc a.valid;
          unlocked = rw c.palloc a.unlocked;
        }

    -- The other tables keep their words.
    cleared-word :
        (i x : ℕ)
        → i < 1023
        → x < 1024
        → is_present (dir_entry m i) ≡ true
        → n.mem (frame (dir_entry m i) * 1024 + x) ≡ m.mem (frame (dir_entry m i) * 1024 + x)
    cleared-word i x h k p =
        let t = frame (dir_entry m i) in
        let ne = table-ne-dir m i o h p in
        c.outside (t * 1024 + x)
          (beside t (page / 4096) x (table-ne-page m page q o a i (omega arith) p) k)
        ∙ write_word-other m.mem (frame m.cr3 * 1024 + index) (page_entry page 7) (t * 1024 + x)
            (λ e. ne (omega (arith, e, k)))

    cleared-same : (v : ℕ) → v < 0xffc00000 → translate n v ≡ translate m v
    cleared-same v h =
        let i = v / 2 ^ 22 in
        let before : dir_word m.cr3 v ≡ frame m.cr3 * 1024 + i = omega arith in
        let after : dir_word n.cr3 v ≡ frame n.cr3 * 1024 + i = omega arith in
        elim (entry-cases i (omega arith)) [
          | inl e ↦
              let pde = page_entry page 7 in
              let absent' : is_present (dir_entry m i) ≡ false = rw e.0 absent in
              let zero_entry : n.mem (table_word pde v) ≡ 0 =
                c.inside (table_word pde v)
                  (omega (arith, page_entry-frame page 7, (page_frame m page q o a)))
                  (omega (arith, page_entry-frame page 7, (page_frame m page q o a))) in
              translate-to n v pde 0 (rw after e.1) (page_entry-is_present page 7) zero_entry
              ∙ sym (translate-none m v (rw before absent'))
          | inr e ↦ translate-same m n v (rw (before, after) e.1) (λ p.
              rw before
                (cleared-word i (v / 2 ^ 12 % 1024) (omega arith) (omega arith) (rw before at p)))
        ]

    pub cleared-Added : Added m n index
    cleared-Added =
        let last = cleared-entry index (omega arith) ∙ with_entry_self in
        record {
          owned = cleared-IsOwned;
          present = rw last (page_entry-is_present page 7);
          same = cleared-same;
        }

  pub new_table-runs :
      (l : Machine)
      → mem_phys_alloc m.palloc ≡ returns page q
      → clear_words (page_table_virt_addr index) 0 1024 with_entry ≡ some l
      → new_table m index ≡ some l
  unfolding new_table
  new_table-runs l alloc clear =
      let m' = record m { palloc = q } in
      let r' : IsRecursive m' = record { present = o.recursive.present; self = o.recursive.self } in
      let s =
        store-at m' (elem page_dir_virt_addr index) (frame m.cr3 * 1024 + index) (page_entry page 7)
          (walk-dir m' index r' (omega arith)) in
      rw (alloc, s, new_table) clear
