-- ===== src/Paging/NewDir.antt =====
-- `page_dir_clone`, where the tables for its two windows are there and a page is free: its steps one
-- after the other, from `m₀` behind the allocation to `m₆`.
use vsop.Base.{
  ℕ, ◌+◌, ◌*◌, ◌/◌, ◌%◌, ◌^◌, ◌≤◌, ◌<◌, ◌≡◌, refl, ◌≢◌, ◌∙◌, sym, ap, inl, inr, true, some, arith,
  bit_and,
}
use vsop.Palloc.{Palloc, returns, mem_phys_alloc, pages}
use vsop.Palloc.Bounds.{is_free}
use vsop.Palloc.Alloc.{Allocated, mem_phys_alloc_lem}
use vsop.Paging.{
  Machine, is_present, frame, dir_word, table_word, store, elem, page_entry, copy_words,
  page_dir_clone,
}
use vsop.Paging.Walk.{dir_entry}
use vsop.Paging.Lookup.{translate}
use vsop.Paging.Mapping.{
  home_page, entered-Maps, translate-same, IsOwned, SameDir, SameDir-IsOwned, write_word-other,
  table-ne-dir, entered,
}
use vsop.Paging.NewTable.{table-ne-page, dir-ne-page, page_frame, beside}
use vsop.Paging.Present.{alloc-IsOwned, map_runs, map-SameDir, map-IsOwned, map-Window}
use vsop.Paging.Fill.{Filled, fill, Filled-SameDir, frame-masked, Window-at}
use vsop.Paging.Clone.{olddir_virt, newdir_virt, Window, Window-write}
use vsop.Paging.Steps.{
  HasWindows, page_dir_clone-runs, translate-palloc, switched-entry, switched-IsRecursive, Cloned,
}

-- A page behind the shared tables is the only one of its home.
window-alone :
    (v page : ℕ)
    → v < 0xffc00000
    → 0xc0400 ≤ page
    → page < 2 ^ 20
    → v / 4096 ≢ page
    → home_page (v / 4096) ≢ home_page page
window-alone v page h low high n e = n (home-above page (v / 4096) low e)
  where
    home-above : (p r : ℕ) → 0xc0400 ≤ p → home_page r ≡ home_page p → r ≡ p
    home-above p r l q = ground arith

module _ (m : Machine) (olddir newdir : ℕ) (q : Palloc) (o : IsOwned m) (w : HasWindows m olddir)
    (a : Allocated m.palloc newdir q) where
  abbrev m₀ : Machine
  m₀ = record m { palloc = q }

  abbrev m₁ : Machine
  m₁ = entered m₀ olddir_virt (bit_and olddir 0xfffff000) 3

  abbrev m₂ : Machine
  m₂ = entered m₁ newdir_virt (bit_and newdir 0xfffff000) 3

  m₀-IsOwned : IsOwned m₀
  m₀-IsOwned = alloc-IsOwned m newdir q o a

  m₁-IsOwned : IsOwned m₁
  m₁-IsOwned =
      map-IsOwned m₀ olddir_virt (bit_and olddir 0xfffff000) 3 m₀-IsOwned (omega arith)
        (omega arith) w.old_table

  m₁-SameDir : SameDir m₀ m₁
  m₁-SameDir =
      map-SameDir m₀ olddir_virt (bit_and olddir 0xfffff000) 3 m₀-IsOwned (omega arith)
        (omega arith) w.old_table

  m₁-new_table : is_present (dir_entry m₁ 887) ≡ true
  m₁-new_table = rw (m₁-SameDir.entry 887 (omega arith)) w.new_table

  m₂-IsOwned : IsOwned m₂
  m₂-IsOwned =
      map-IsOwned m₁ newdir_virt (bit_and newdir 0xfffff000) 3 m₁-IsOwned (omega arith)
        (omega arith) m₁-new_table

  m₂-SameDir : SameDir m₁ m₂
  m₂-SameDir =
      map-SameDir m₁ newdir_virt (bit_and newdir 0xfffff000) 3 m₁-IsOwned (omega arith)
        (omega arith) m₁-new_table

  -- The directory at the end of each stage has the entries it had in `m`.
  entry₂ : (i : ℕ) → i < 1024 → dir_entry m₂ i ≡ dir_entry m i
  entry₂ i h = m₂-SameDir.entry i h ∙ m₁-SameDir.entry i h

  tables-differ : frame (dir_entry m 887) ≢ frame (dir_entry m 819)
  tables-differ e =
      let same = o.distinct 887 819 (omega arith) (omega arith) w.new_table w.old_table e in
      ground (arith, same)

  old-Window : Window m₂ olddir_virt (frame (dir_entry m 819)) (frame olddir)
  old-Window =
      let entry = m₁-SameDir.entry 887 (omega arith) in
      let before : Window m₁ olddir_virt (frame (dir_entry m 819)) (frame olddir) =
        rw (← frame-masked olddir) (
          map-Window m₀ olddir_virt (bit_and olddir 0xfffff000) 3 m₀-IsOwned (omega arith)
            (omega arith) w.old_table refl) in
      Window-write m₁ olddir_virt (frame (dir_entry m 819)) (frame olddir)
        (frame (dir_entry m₁ 887)) (newdir_virt / 2 ^ 12 % 1024)
        (page_entry (bit_and newdir 0xfffff000) 3) before
        (table-ne-dir m₁ 887 m₁-IsOwned (omega arith) m₁-new_table) (rw entry tables-differ)
        (omega arith)

  new-Window : Window m₂ newdir_virt (frame (dir_entry m 887)) (newdir / 4096)
  new-Window =
      let entry = m₁-SameDir.entry 887 (omega arith) in
      let f = frame-masked newdir ∙ page_frame m newdir q o a in
      Window-at m₂ newdir_virt (frame (dir_entry m₁ 887)) (frame (dir_entry m 887))
        (frame (bit_and newdir 0xfffff000)) (newdir / 4096) (ap frame entry) f
        (map-Window m₁ newdir_virt (bit_and newdir 0xfffff000) 3 m₁-IsOwned (omega arith)
          (omega arith) m₁-new_table refl)

  -- The new page is none of the frames that the windows go through.
  page-ne-dir : newdir / 4096 ≢ frame m₂.cr3
  page-ne-dir e = dir-ne-page m newdir q o a (sym e)

  page-ne-old : newdir / 4096 ≢ frame (dir_entry m 819)
  page-ne-old e = table-ne-page m newdir q o a 819 (omega arith) w.old_table (sym e)

  page-ne-new : newdir / 4096 ≢ frame (dir_entry m 887)
  page-ne-new e = table-ne-page m newdir q o a 887 (omega arith) w.new_table (sym e)

  page-ne-olddir : newdir / 4096 ≢ frame olddir
  page-ne-olddir e =
      let t : is_free m.palloc (newdir / 4096) ≡ 0 = rw e w.in_use in omega (arith, t, a.was_free)

  -- A word of the old directory is not written before it is copied.
  old_word : (j : ℕ) → j < 1024 → m₂.mem (frame olddir * 1024 + j) ≡ m.mem (frame olddir * 1024 + j)
  old_word j h =
      let place = frame (dir_entry m₁ 887) * 1024 + newdir_virt / 2 ^ 12 % 1024 in
      let entry = m₁-SameDir.entry 887 (omega arith) in
      write_word-other m₁.mem place (page_entry (bit_and newdir 0xfffff000) 3)
        (frame olddir * 1024 + j) (λ e. w.not_new (omega (arith, e, entry)))
      ∙ write_word-other m.mem (frame (dir_entry m 819) * 1024 + olddir_virt / 2 ^ 12 % 1024)
          (page_entry (bit_and olddir 0xfffff000) 3) (frame olddir * 1024 + j)
          (λ e. w.not_old (omega (arith, e)))

  same₂ :
      (v : ℕ)
      → v < 0xffc00000
      → v / 4096 ≢ 0xcccc0
      → v / 4096 ≢ 0xdddd0
      → translate m₂ v ≡ translate m v
  same₂ v h x y =
      let first =
        (entered-Maps m₀ olddir_virt (bit_and olddir 0xfffff000) 3 m₀-IsOwned (omega arith)
            (omega arith) w.old_table).others
          v h (window-alone v 0xcccc0 h (omega arith) (omega arith) x) in
      let second =
        (entered-Maps m₁ newdir_virt (bit_and newdir 0xfffff000) 3 m₁-IsOwned (omega arith)
            (omega arith) m₁-new_table).others
          v h (window-alone v 0xdddd0 h (omega arith) (omega arith) y) in
      second ∙ first ∙ translate-palloc m q v

  module _ (m₄ : Machine) (c : Filled m₂ m₄ (frame olddir) (newdir / 4096) newdir) where
    m₄-SameDir : SameDir m₂ m₄
    m₄-SameDir = Filled-SameDir m₂ m₄ (frame olddir) (newdir / 4096) newdir c page-ne-dir

    m₄-IsOwned : IsOwned m₄
    m₄-IsOwned = SameDir-IsOwned m₂ m₄ m₄-SameDir m₂-IsOwned

    entry₄ : (i : ℕ) → i < 1024 → dir_entry m₄ i ≡ dir_entry m i
    entry₄ i h = m₄-SameDir.entry i h ∙ entry₂ i h

    m₄-old_table : is_present (dir_entry m₄ 819) ≡ true
    m₄-old_table = rw (entry₄ 819 (omega arith)) w.old_table

    same₄ : (v : ℕ) → v < 0xffc00000 → translate m₄ v ≡ translate m₂ v
    same₄ v h =
        let g = newdir / 4096 in
        let pde = m₂.mem (dir_word m₂.cr3 v) in
        let at : dir_word m₂.cr3 v ≡ frame m₂.cr3 * 1024 + v / 2 ^ 22 = omega arith in
        let entry : pde ≡ dir_entry m (v / 2 ^ 22) =
          ap m₂.mem at ∙ entry₂ (v / 2 ^ 22) (omega arith) in
        let dir : m₄.mem (dir_word m₄.cr3 v) ≡ pde = rw c.cr3 (
          c.outside (dir_word m₂.cr3 v) (
            beside (frame m₂.cr3) g (v / 2 ^ 22 % 1024) (λ e. page-ne-dir (sym e))
              (omega arith))) in
        translate-same m₂ m₄ v dir (λ p. c.outside (table_word pde v) (
          beside (frame pde) g (v / 2 ^ 12 % 1024)
            (λ e.
              table-ne-page m newdir q o a (v / 2 ^ 22) (omega arith)
                (sym (ap is_present entry) ∙ p) (sym (ap frame entry) ∙ e))
            (omega arith)))

    abbrev m₅ : Machine
    m₅ = entered m₄ olddir_virt 0 0

    abbrev m₆ : Machine
    m₆ = entered m₅ newdir_virt 0 0

    m₅-SameDir : SameDir m₄ m₅
    m₅-SameDir = map-SameDir m₄ olddir_virt 0 0 m₄-IsOwned (omega arith) (omega arith) m₄-old_table

    m₅-IsOwned : IsOwned m₅
    m₅-IsOwned = map-IsOwned m₄ olddir_virt 0 0 m₄-IsOwned (omega arith) (omega arith) m₄-old_table

    entry₅ : (i : ℕ) → i < 1024 → dir_entry m₅ i ≡ dir_entry m i
    entry₅ i h = m₅-SameDir.entry i h ∙ entry₄ i h

    m₅-new_table : is_present (dir_entry m₅ 887) ≡ true
    m₅-new_table = rw (entry₅ 887 (omega arith)) w.new_table

    entry₆ : (i : ℕ) → i < 1024 → dir_entry m₆ i ≡ dir_entry m i
    entry₆ i h =
        (map-SameDir m₅ newdir_virt 0 0 m₅-IsOwned (omega arith) (omega arith) m₅-new_table).entry i
          h
        ∙ entry₅ i h

    -- Closing the windows does not touch the new page.
    new_word :
        (j : ℕ) → j < 1024 → m₆.mem (newdir / 4096 * 1024 + j) ≡ m₄.mem (newdir / 4096 * 1024 + j)
    new_word j h =
        let entry = entry₅ 887 (omega arith) in
        let entry' = entry₄ 819 (omega arith) in
        let x = page-ne-new in
        let y = page-ne-old in
        write_word-other m₅.mem (frame (dir_entry m₅ 887) * 1024 + newdir_virt / 2 ^ 12 % 1024)
          (page_entry 0 0) (newdir / 4096 * 1024 + j) (λ e. x (omega (arith, e, entry)))
        ∙ write_word-other m₄.mem (frame (dir_entry m₄ 819) * 1024 + olddir_virt / 2 ^ 12 % 1024)
            (page_entry 0 0) (newdir / 4096 * 1024 + j) (λ e. y (omega (arith, e, entry')))

    same₆ :
        (v : ℕ)
        → v < 0xffc00000
        → v / 4096 ≢ 0xcccc0
        → v / 4096 ≢ 0xdddd0
        → translate m₆ v ≡ translate m v
    same₆ v h x y =
        let fifth =
          (entered-Maps m₄ olddir_virt 0 0 m₄-IsOwned (omega arith) (omega arith)
              m₄-old_table).others
            v h (window-alone v 0xcccc0 h (omega arith) (omega arith) x) in
        let sixth =
          (entered-Maps m₅ newdir_virt 0 0 m₅-IsOwned (omega arith) (omega arith)
              m₅-new_table).others
            v h (window-alone v 0xdddd0 h (omega arith) (omega arith) y) in
        sixth ∙ fifth ∙ same₄ v h ∙ same₂ v h x y

    m₆-Cloned : Cloned m m₆ olddir newdir
    m₆-Cloned =
        let f = page_frame m newdir q o a in
        record {
          in_memory = a.in_memory;
          was_free = a.was_free;
          taken = rw c.palloc (ground (arith, a.taken (newdir / 4096)));
          cr3 = c.cr3;
          entries = entry₆;
          owned =
              map-IsOwned m₅ newdir_virt 0 0 m₅-IsOwned (omega arith) (omega arith) m₅-new_table;
          recursive =
              switched-IsRecursive m₆ newdir
                (ap (λ g. m₆.mem (g * 1024 + 1023)) f ∙ new_word 1023 (omega arith) ∙ c.last);
          copied = λ j h.
              switched-entry m₆ newdir j
              ∙ ap (λ g. m₆.mem (g * 1024 + j)) f
              ∙ new_word j (omega arith)
              ∙ c.inside j h
              ∙ old_word j (omega arith);
          same = same₆;
        }

    clone_done :
        (l : Machine)
        → mem_phys_alloc m.palloc ≡ returns newdir q
        → copy_words olddir_virt newdir_virt 0 1023 m₂ ≡ some l
        → store l (elem newdir_virt 1023) (page_entry newdir 1) ≡ some m₄
        → page_dir_clone m olddir ≡ some (newdir, m₆)
    clone_done l alloc copy last =
        page_dir_clone-runs m olddir newdir q m₁ m₂ l m₄ m₅ m₆ alloc
          (map_runs m₀ olddir_virt (bit_and olddir 0xfffff000) 3 m₀-IsOwned (omega arith)
            (omega arith) w.old_table)
          (map_runs m₁ newdir_virt (bit_and newdir 0xfffff000) 3 m₁-IsOwned (omega arith)
            (omega arith) m₁-new_table)
          copy last
          (map_runs m₄ olddir_virt 0 0 m₄-IsOwned (omega arith) (omega arith) m₄-old_table)
          (map_runs m₅ newdir_virt 0 0 m₅-IsOwned (omega arith) (omega arith) m₅-new_table)

-- In an owned directory with the tables of the two windows, with a page free, `page_dir_clone` of a
-- directory whose page is in use and is none of the two tables ends without a fault: its new page
-- was free, that directory has the entries of the old one but leads to itself, and every page
-- below the windows of the tables but the two windows leads where it did.
pub page_dir_clone_lem :
    (m : Machine) (olddir k : ℕ)
    → IsOwned m
    → HasWindows m olddir
    → k < pages
    → is_free m.palloc k ≡ 1
    → (newdir : ℕ) × (n : Machine) × (page_dir_clone m olddir ≡ some (newdir, n))
      × Cloned m n olddir newdir
page_dir_clone_lem m olddir k o w inside free =
    elim (mem_phys_alloc_lem m.palloc o.valid o.unlocked) [
      | inl (newdir, q, alloc, a) ↦
          let s = frame (dir_entry m 819) in
          let t = frame (dir_entry m 887) in
          let (l, m₄, copy, last, c) =
            fill (m₂ m olddir newdir q o w a) s t (frame olddir) (newdir / 4096) newdir
              (old-Window m olddir newdir q o w a) (new-Window m olddir newdir q o w a)
              (page-ne-dir m olddir newdir q o w a) (page-ne-old m olddir newdir q o w a)
              (page-ne-new m olddir newdir q o w a) (page-ne-olddir m olddir newdir q o w a) in
          (
            newdir,
            m₆ m olddir newdir q o w a m₄ c,
            clone_done m olddir newdir q o w a m₄ c l alloc copy last,
            m₆-Cloned m olddir newdir q o w a m₄ c,
          )
      | inr (alloc, none_free) ↦ absurd (omega (arith, none_free k inside, free))
    ]
