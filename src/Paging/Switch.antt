-- ===== src/Paging/Switch.antt =====
-- A clone of the directory in use, once it is in use itself.
use vsop.Base.{
  ℕ, ◌+◌, ◌*◌, ◌/◌, ◌^◌, ◌<◌, ◌≡◌, refl, ◌≢◌, ◌∙◌, sym, ap, ◌⊎◌, inl, inr, true, some, arith,
}
use vsop.Palloc.{pages}
use vsop.Palloc.Bounds.{is_free}
use vsop.Paging.{Machine, is_present, frame, dir_word, page_dir_switch, page_dir_clone}
use vsop.Paging.Walk.{dir_entry}
use vsop.Paging.Lookup.{translate}
use vsop.Paging.Mapping.{IsOwned, entries-IsShared, home_table, translate-same}
use vsop.Paging.Steps.{HasWindows, Cloned}
use vsop.Paging.NewDir.{page_dir_clone_lem}

last_or_below : (i : ℕ) → i < 1024 → (i ≡ 1023) ⊎ (i < 1023)
last_or_below i h = ground arith

module _ (m n : Machine) (olddir newdir : ℕ) (o : IsOwned m) (in_use : frame olddir ≡ frame m.cr3)
    (c : Cloned m n olddir newdir) where
  abbrev switched : Machine
  switched = page_dir_switch n newdir

  newdir-frame : frame newdir ≡ newdir / 4096
  newdir-frame = omega (arith, c.in_memory)

  entry-below : (j : ℕ) → j < 1023 → dir_entry switched j ≡ dir_entry m j
  entry-below j h = c.copied j h ∙ ap (λ f. m.mem (f * 1024 + j)) in_use

  -- The last entry leads to the new page.
  entry-last : frame (dir_entry switched 1023) ≡ newdir / 4096
  unfolding page_dir_switch
  entry-last = c.recursive.self ∙ newdir-frame

  below-ne-last :
      (j : ℕ)
      → j < 1023
      → is_present (dir_entry switched j) ≡ true
      → frame (dir_entry switched j) ≢ frame (dir_entry switched 1023)
  below-ne-last j h p e =
      let q : is_present (dir_entry m j) ≡ true = sym (ap is_present (entry-below j h)) ∙ p in
      let same : frame (dir_entry m j) ≡ newdir / 4096 =
        sym (ap frame (entry-below j h)) ∙ e ∙ entry-last in
      let t : is_free m.palloc (newdir / 4096) ≡ 0 = rw same at (o.taken j (omega arith) q) in
      omega (arith, t, c.was_free)

  switched-distinct :
      (i j : ℕ)
      → i < 1024
      → j < 1024
      → is_present (dir_entry switched i) ≡ true
      → is_present (dir_entry switched j) ≡ true
      → frame (dir_entry switched i) ≡ frame (dir_entry switched j)
      → home_table i ≡ home_table j
  switched-distinct i j h k p q e = elim (last_or_below i h) [
    | inl x ↦ elim (last_or_below j k) [
      | inl y ↦ ap home_table (x ∙ sym y)
      | inr y ↦ absurd (below-ne-last j y q (sym e ∙ ap (λ a. frame (dir_entry switched a)) x))
    ]
    | inr x ↦ elim (last_or_below j k) [
      | inl y ↦ absurd (below-ne-last i x p (e ∙ ap (λ a. frame (dir_entry switched a)) y))
      | inr y ↦
          o.distinct i j h k (sym (ap is_present (entry-below i x)) ∙ p)
            (sym (ap is_present (entry-below j y)) ∙ q)
            (sym (ap frame (entry-below i x)) ∙ e ∙ ap frame (entry-below j y))
    ]
  ]

  switched-taken :
      (i : ℕ)
      → i < 1024
      → is_present (dir_entry switched i) ≡ true
      → is_free n.palloc (frame (dir_entry switched i)) ≡ 0
  switched-taken i h p = elim (last_or_below i h) [
    | inl x ↦
        ap (λ a. is_free n.palloc (frame (dir_entry switched a))) x
        ∙ ap (is_free n.palloc) entry-last
        ∙ c.taken
    | inr x ↦
        let same : dir_entry switched i ≡ dir_entry n i = entry-below i x ∙ sym (c.entries i h) in
        ap (λ e. is_free n.palloc (frame e)) same ∙ c.owned.taken i h (sym (ap is_present same) ∙ p)
  ]

  switched-IsOwned : IsOwned switched
  unfolding page_dir_switch
  switched-IsOwned = record {
    recursive = c.recursive;
    shared =
        entries-IsShared m switched (entry-below 0 (omega arith)) (entry-below 768 (omega arith))
          o.shared;
    distinct = switched-distinct;
    taken = switched-taken;
    valid = c.owned.valid;
    unlocked = c.owned.unlocked;
  }

  switched-translate : (v : ℕ) → v < 0xffc00000 → translate switched v ≡ translate n v
  unfolding page_dir_switch
  switched-translate v h =
      let i = v / 2 ^ 22 in
      let before : dir_word n.cr3 v ≡ frame n.cr3 * 1024 + i = omega arith in
      let after : dir_word newdir v ≡ frame newdir * 1024 + i = omega arith in
      let same : dir_entry switched i ≡ dir_entry n i =
        entry-below i (omega arith) ∙ sym (c.entries i (omega arith)) in
      translate-same n switched v (ap n.mem after ∙ same ∙ sym (ap n.mem before)) (λ p. refl)

-- In an owned directory that is in use, with the tables of the two windows and a page free,
-- page_dir_clone of it ends, and once its answer is the directory in use that is owned, and
-- each page below the windows of the tables but the two windows leads where it did.
pub page_dir_clone-page_dir_switch :
    (m : Machine) (olddir k : ℕ)
    → IsOwned m
    → frame olddir ≡ frame m.cr3
    → HasWindows m olddir
    → k < pages
    → is_free m.palloc k ≡ 1
    → (newdir : ℕ) × (n : Machine) × (page_dir_clone m olddir ≡ some (newdir, n))
      × IsOwned (page_dir_switch n newdir)
      × ((v : ℕ)
          → v < 0xffc00000
          → v / 4096 ≢ 0xcccc0
          → v / 4096 ≢ 0xdddd0
          → translate (page_dir_switch n newdir) v ≡ translate m v)
page_dir_clone-page_dir_switch m olddir k o in_use w inside free =
    let (newdir, n, done, c) = page_dir_clone_lem m olddir k o w inside free in
    (
      newdir,
      n,
      done,
      switched-IsOwned m n olddir newdir o in_use c,
      λ v h a b. switched-translate m n olddir newdir o in_use c v h ∙ c.same v h a b,
    )
