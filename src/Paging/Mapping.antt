-- ===== src/Paging/Mapping.antt =====
-- Mapping a page whose table exists.
use vsop.Base.{
  ℕ, ◌+◌, ◌*◌, ◌/◌, ◌%◌, ◌^◌, ◌<◌, ◌≡◌, refl, ◌≢◌, ◌∙◌, sym, inl, inr, true, false, Bool-cases,
  if◌then◌else◌, ◌==◌, ltb, none, some, arith, ap, ◌⊎◌,
}
use vsop.Palloc.Bounds.{is_free, IsValid}
use vsop.Paging.{
  Machine, is_present, frame, dir_word, table_word, write_word, elem, page_dir_index,
  page_dir_virt_addr, page_table_virt_addr, page_entry, table_for, paging_map,
}
use vsop.Paging.Entries.{
  present_bit-is_present, page_table_index-mod, page_entry-frame, page_entry-is_present,
}
use vsop.Paging.Walk.{dir_entry, IsRecursive, walk-dir, walk-table, load-at, store-at}
use vsop.Paging.Lookup.{translate}

-- kernel/entry.s enters one table twice, for the first 4 MiB and for those from 0xC0000000 on, and
-- each clone has both entries. Of each two entries and of each two pages that are one for this
-- reason, the one from 0xC0000000 on stands for both.
abbrev pub home_table : ℕ → ℕ
home_table i = if i == 0 then 768 else i

abbrev pub home_page : ℕ → ℕ
home_page page = if ltb page 1024 then page + 786432 else page

-- Entries 0 and 768 lead to one table.
pub record IsShared (m : Machine) : Type 0 where
  pub low : is_present (dir_entry m 0) ≡ true
  pub high : is_present (dir_entry m 768) ≡ true
  pub table : frame (dir_entry m 0) ≡ frame (dir_entry m 768)

-- The directory leads to itself, entries 0 and 768 lead to one table and no other two entries do,
-- and the frames of the tables are taken in a valid map of pages, whose lock is free.
pub record IsOwned (m : Machine) : Type 0 where
  pub recursive : IsRecursive m
  pub shared : IsShared m
  pub distinct :
      (i j : ℕ)
      → i < 1024
      → j < 1024
      → is_present (dir_entry m i) ≡ true
      → is_present (dir_entry m j) ≡ true
      → frame (dir_entry m i) ≡ frame (dir_entry m j)
      → home_table i ≡ home_table j
  pub taken :
      (i : ℕ)
      → i < 1024
      → is_present (dir_entry m i) ≡ true
      → is_free m.palloc (frame (dir_entry m i)) ≡ 0
  pub valid : IsValid m.palloc
  pub unlocked : m.palloc.lock ≡ 0

-- Machine `n` has the directory of `m`, and its map of pages.
pub record SameDir (m n : Machine) : Type 0 where
  pub cr3 : n.cr3 ≡ m.cr3
  pub entry : (i : ℕ) → i < 1024 → dir_entry n i ≡ dir_entry m i
  pub palloc : n.palloc ≡ m.palloc

pub SameDir-IsRecursive : (m n : Machine) → SameDir m n → IsRecursive m → IsRecursive n
SameDir-IsRecursive m n s r = record {
  present = rw (s.entry 1023 (omega arith)) r.present;
  self = rw (s.entry 1023 (omega arith), s.cr3) r.self;
}

-- Entries as they were.
pub entries-IsShared :
    (m n : Machine)
    → dir_entry n 0 ≡ dir_entry m 0
    → dir_entry n 768 ≡ dir_entry m 768
    → IsShared m
    → IsShared n
entries-IsShared m n e f s = record {
  low = ap is_present e ∙ s.low;
  high = ap is_present f ∙ s.high;
  table = ap frame e ∙ s.table ∙ sym (ap frame f);
}

pub SameDir-IsOwned : (m n : Machine) → SameDir m n → IsOwned m → IsOwned n
SameDir-IsOwned m n s o = record {
  recursive = SameDir-IsRecursive m n s o.recursive;
  shared = entries-IsShared m n (s.entry 0 (omega arith)) (s.entry 768 (omega arith)) o.shared;
  distinct = λ i j h k p q e.
      o.distinct i j h k (rw (s.entry i h) at p) (rw (s.entry j k) at q)
        (rw (s.entry i h, s.entry j k) at e);
  taken = λ i h p. rw (s.palloc, s.entry i h) (o.taken i h (rw (s.entry i h) at p));
  valid = rw s.palloc o.valid;
  unlocked = rw s.palloc o.unlocked;
}

pub write_word-other : (mem : ℕ → ℕ) (i w j : ℕ) → i ≢ j → write_word mem i w j ≡ mem j
write_word-other mem i w j h = ground arith

pub write_word_self : (mem : ℕ → ℕ) (i w : ℕ) → write_word mem i w i ≡ w
write_word_self mem i w = ground arith

-- A write into a table that is not the directory.
pub write-SameDir :
    (m : Machine) (index t w : ℕ)
    → frame (dir_entry m index) ≢ frame m.cr3
    → t < 1024
    → SameDir m (record m { mem = write_word m.mem (frame (dir_entry m index) * 1024 + t) w })
write-SameDir m index t w n h = record {
  cr3 = refl;
  entry = λ i k.
      write_word-other m.mem (frame (dir_entry m index) * 1024 + t) w (frame m.cr3 * 1024 + i)
        (λ e. n (omega (arith, e, h, k)));
  palloc = refl;
}

-- A table other than the last is not the directory.
pub table-ne-dir :
    (m : Machine) (index : ℕ)
    → IsOwned m
    → index < 1023
    → is_present (dir_entry m index) ≡ true
    → frame (dir_entry m index) ≢ frame m.cr3
table-ne-dir m index o h p e =
    let same =
      o.distinct index 1023 (omega arith) (omega arith) p o.recursive.present
        (e ∙ sym o.recursive.self) in
    below_last index h same
  where
    below_last : (i : ℕ) → i < 1023 → home_table i ≡ home_table 1023 → ⊥
    below_last i l q = ground arith

-- Two entries of one home lead to one table.
pub home-entry :
    (m : Machine) (i j : ℕ)
    → IsShared m
    → home_table i ≡ home_table j
    → is_present (dir_entry m i) ≡ true
    → (is_present (dir_entry m j) ≡ true) × (frame (dir_entry m i) ≡ frame (dir_entry m j))
home-entry m i j s e p = elim (home-cases i j e) [
  | inl same ↦
      (ap (λ k. is_present (dir_entry m k)) (sym same) ∙ p, ap (λ k. frame (dir_entry m k)) same)
  | inr (inl (low, high)) ↦ (
    ap (λ k. is_present (dir_entry m k)) high ∙ s.high,
    ap (λ k. frame (dir_entry m k)) low ∙ s.table ∙ sym (ap (λ k. frame (dir_entry m k)) high),
  )
  | inr (inr (high, low)) ↦ (
    ap (λ k. is_present (dir_entry m k)) low ∙ s.low,
    ap (λ k. frame (dir_entry m k)) high ∙ sym s.table ∙ sym (ap (λ k. frame (dir_entry m k)) low),
  )
]
  where
    home-cases :
        (a b : ℕ)
        → home_table a ≡ home_table b
        → (a ≡ b) ⊎ (((a ≡ 0) × (b ≡ 768)) ⊎ ((a ≡ 768) × (b ≡ 0)))
    home-cases a b q = ground arith

-- The parts of pages of one home.
pub home_page-parts :
    (v w : ℕ)
    → v < 2 ^ 32
    → w < 2 ^ 32
    → home_page (v / 4096) ≡ home_page (w / 4096)
    → (home_table (v / 2 ^ 22) ≡ home_table (w / 2 ^ 22)) × (v / 2 ^ 12 % 1024 ≡ w / 2 ^ 12 % 1024)
home_page-parts v w h k e = (ground arith, ground arith)

pub parts-home_page :
    (v w : ℕ)
    → v < 2 ^ 32
    → w < 2 ^ 32
    → home_table (v / 2 ^ 22) ≡ home_table (w / 2 ^ 22)
    → v / 2 ^ 12 % 1024 ≡ w / 2 ^ 12 % 1024
    → home_page (v / 4096) ≡ home_page (w / 4096)
parts-home_page v w h k e f = ground arith

-- What a virtual page leads to, by the words that the walk reads.
pub translate-same :
    (m n : Machine) (virt : ℕ)
    → n.mem (dir_word n.cr3 virt) ≡ m.mem (dir_word m.cr3 virt)
    → (is_present (m.mem (dir_word m.cr3 virt)) ≡ true
        → n.mem (table_word (m.mem (dir_word m.cr3 virt)) virt)
          ≡ m.mem (table_word (m.mem (dir_word m.cr3 virt)) virt))
    → translate n virt ≡ translate m virt
unfolding translate
translate-same m n virt d t = elim (Bool-cases (is_present (m.mem (dir_word m.cr3 virt)))) [
  | inl p ↦ rw (d, p, t p) refl
  | inr p ↦ rw (d, p) refl
]

pub translate-to :
    (m : Machine) (virt pde pte : ℕ)
    → m.mem (dir_word m.cr3 virt) ≡ pde
    → is_present pde ≡ true
    → m.mem (table_word pde virt) ≡ pte
    → translate m virt ≡ (if is_present pte then some (frame pte * 4096) else none)
unfolding translate
translate-to m virt pde pte d p t = rw (d, p, t) refl

pub translate-none :
    (m : Machine) (virt : ℕ)
    → is_present (m.mem (dir_word m.cr3 virt)) ≡ false
    → translate m virt ≡ none
unfolding translate
translate-none m virt d = rw d refl

-- What a mapping leaves: `virt`, and the page that is one with it, lead to the page of `phys` if
-- the flags have the present bit, and to none otherwise; every other page below the windows of the
-- tables leads where it did.
pub record Maps (m n : Machine) (virt phys flags : ℕ) : Type 0 where
  pub owned : IsOwned n
  pub target :
      (v : ℕ)
      → v < 0xffc00000
      → home_page (v / 4096) ≡ home_page (virt / 4096)
      → translate n v ≡ (if flags % 2 == 1 then some (frame phys * 4096) else none)
  pub others :
      (v : ℕ)
      → v < 0xffc00000
      → home_page (v / 4096) ≢ home_page (virt / 4096)
      → translate n v ≡ translate m v

-- The last write of `paging_map`, at a machine where the table exists.
abbrev pub entered : Machine → ℕ → ℕ → ℕ → Machine
entered m virt phys flags = record m {
  mem =
      write_word m.mem (frame (dir_entry m (virt / 2 ^ 22)) * 1024 + virt / 2 ^ 12 % 1024)
        (page_entry phys flags);
}

module _ (m : Machine) (virt phys flags : ℕ) (o : IsOwned m) (small : virt < 2 ^ 32)
    (index : virt / 2 ^ 22 < 1023) (p : is_present (dir_entry m (virt / 2 ^ 22)) ≡ true) where
  entered-others :
      (v : ℕ)
      → v < 0xffc00000
      → home_page (v / 4096) ≢ home_page (virt / 4096)
      → translate (entered m virt phys flags) v ≡ translate m v
  entered-others v h n =
      let d = virt / 2 ^ 22 in
      let place = frame (dir_entry m d) * 1024 + virt / 2 ^ 12 % 1024 in
      let w = page_entry phys flags in
      let ne = table-ne-dir m d o index p in
      let vd : dir_word m.cr3 v ≡ frame m.cr3 * 1024 + v / 2 ^ 22 = omega arith in
      translate-same m (entered m virt phys flags) v
        (write_word-other m.mem place w (dir_word m.cr3 v) (λ e. ne (omega (arith, e))))
        (λ q. write_word-other m.mem place w (table_word (m.mem (dir_word m.cr3 v)) v) (λ e.
          let q' : is_present (dir_entry m (v / 2 ^ 22)) ≡ true = rw vd at q in
          let same : frame (dir_entry m d) ≡ frame (m.mem (dir_word m.cr3 v)) = omega (arith, e) in
          let index_same =
            o.distinct d (v / 2 ^ 22) (omega arith) (omega arith) p q' (rw vd at same) in
          n (parts-home_page v virt (omega arith) small (sym index_same) (omega (arith, e, same)))))

  entered-target :
      (v : ℕ)
      → v < 0xffc00000
      → home_page (v / 4096) ≡ home_page (virt / 4096)
      → translate (entered m virt phys flags) v
        ≡ (if flags % 2 == 1 then some (frame phys * 4096) else none)
  entered-target v h e =
      let d = virt / 2 ^ 22 in
      let i = v / 2 ^ 22 in
      let n = entered m virt phys flags in
      let w = page_entry phys flags in
      let place = frame (dir_entry m d) * 1024 + virt / 2 ^ 12 % 1024 in
      let parts = home_page-parts v virt (omega arith) small e in
      let (present, table) = home-entry m d i o.shared (sym parts.0) p in
      let same =
        write-SameDir m d (virt / 2 ^ 12 % 1024) w (table-ne-dir m d o index p) (omega arith) in
      let at : dir_word m.cr3 v ≡ frame m.cr3 * 1024 + i = omega arith in
      let entry : n.mem (dir_word m.cr3 v) ≡ dir_entry m i =
        ap n.mem at ∙ same.entry i (omega arith) in
      let word : table_word (dir_entry m i) v ≡ place = omega (arith, table, parts.1) in
      translate-to n v (dir_entry m i) w entry present
        (ap n.mem word ∙ write_word_self m.mem place w)
      ∙ rw (page_entry-is_present phys flags, page_entry-frame phys flags) refl

  pub entered-Maps : Maps m (entered m virt phys flags) virt phys flags
  entered-Maps =
      let d = virt / 2 ^ 22 in
      let place = frame (dir_entry m d) * 1024 + virt / 2 ^ 12 % 1024 in
      let w = page_entry phys flags in
      let ne = table-ne-dir m d o index p in
      let same = write-SameDir m d (virt / 2 ^ 12 % 1024) w ne (omega arith) in
      record {
        owned = SameDir-IsOwned m (entered m virt phys flags) same o;
        target = entered-target;
        others = entered-others;
      }

  pub table_for-present : table_for m (page_dir_index virt) ≡ some m
  unfolding table_for
  table_for-present =
      let l =
        load-at m (elem page_dir_virt_addr (virt / 2 ^ 22)) (frame m.cr3 * 1024 + virt / 2 ^ 22)
          (walk-dir m (virt / 2 ^ 22) o.recursive (omega arith)) in
      rw (l, present_bit-is_present (dir_entry m (virt / 2 ^ 22)), p, table_for) refl

-- The end of `paging_map`, once the table is there.
pub paging_map-entered :
    (m n : Machine) (virt phys flags : ℕ)
    → table_for m (page_dir_index virt) ≡ some n
    → IsRecursive n
    → virt / 2 ^ 22 < 1023
    → is_present (dir_entry n (virt / 2 ^ 22)) ≡ true
    → paging_map m virt phys flags ≡ some (entered n virt phys flags)
unfolding paging_map
paging_map-entered m n virt phys flags t r index p =
    let s =
      store-at n (elem (page_table_virt_addr (virt / 2 ^ 22)) (virt / 2 ^ 12 % 1024))
        (frame (dir_entry n (virt / 2 ^ 22)) * 1024 + virt / 2 ^ 12 % 1024) (page_entry phys flags)
        (walk-table n (virt / 2 ^ 22) (virt / 2 ^ 12 % 1024) r (omega arith) (omega arith) p) in
    rw (t, page_table_index-mod virt, s, paging_map) refl
