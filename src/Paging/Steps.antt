-- ===== src/Paging/Steps.antt =====
-- What `page_dir_clone` needs and leaves, and its steps taken together.
use vsop.Base.{ℕ, ◌+◌, ◌*◌, ◌/◌, ◌<◌, ◌≡◌, refl, ◌≢◌, true, some, bit_and}
use vsop.Palloc.{Palloc, returns, mem_phys_alloc, pages}
use vsop.Palloc.Bounds.{is_free}
use vsop.Paging.{
  Machine, is_present, frame, store, elem, page_entry, paging_map, page_dir_switch, copy_words,
  page_dir_clone,
}
use vsop.Paging.Entries.{page_entry-frame, page_entry-is_present}
use vsop.Paging.Walk.{dir_entry, IsRecursive}
use vsop.Paging.Lookup.{translate}
use vsop.Paging.Mapping.{IsOwned}
use vsop.Paging.Clone.{olddir_virt, newdir_virt}

-- The tables of the two windows are there, and `olddir` is a page in use that is none of them.
pub record HasWindows (m : Machine) (olddir : ℕ) : Type 0 where
  pub old_table : is_present (dir_entry m 819) ≡ true
  pub new_table : is_present (dir_entry m 887) ≡ true
  pub in_use : is_free m.palloc (frame olddir) ≡ 0
  pub not_old : frame olddir ≢ frame (dir_entry m 819)
  pub not_new : frame olddir ≢ frame (dir_entry m 887)

pub page_dir_clone-runs :
    (m : Machine) (olddir newdir : ℕ) (q : Palloc) (m₁ m₂ m₃ m₄ m₅ m₆ : Machine)
    → mem_phys_alloc m.palloc ≡ returns newdir q
    → paging_map (record m { palloc = q }) olddir_virt (bit_and olddir 0xfffff000) 3 ≡ some m₁
    → paging_map m₁ newdir_virt (bit_and newdir 0xfffff000) 3 ≡ some m₂
    → copy_words olddir_virt newdir_virt 0 1023 m₂ ≡ some m₃
    → store m₃ (elem newdir_virt 1023) (page_entry newdir 1) ≡ some m₄
    → paging_map m₄ olddir_virt 0 0 ≡ some m₅
    → paging_map m₅ newdir_virt 0 0 ≡ some m₆
    → page_dir_clone m olddir ≡ some (newdir, m₆)
unfolding page_dir_clone
page_dir_clone-runs m olddir newdir q m₁ m₂ m₃ m₄ m₅ m₆ h h₁ h₂ h₃ h₄ h₅ h₆ =
    rw (h, h₁, h₂, h₃, h₄, h₅, h₆, page_dir_clone) refl

pub translate-palloc :
    (m : Machine) (q : Palloc) (v : ℕ) → translate (record m { palloc = q }) v ≡ translate m v
unfolding translate
translate-palloc m q v = refl

pub switched-entry :
    (n : Machine) (newdir j : ℕ)
    → dir_entry (page_dir_switch n newdir) j ≡ n.mem (frame newdir * 1024 + j)
unfolding page_dir_switch
switched-entry n newdir j = refl

-- A directory whose last entry leads to itself, once it is in use.
pub switched-IsRecursive :
    (n : Machine) (newdir : ℕ)
    → n.mem (frame newdir * 1024 + 1023) ≡ page_entry newdir 1
    → IsRecursive (page_dir_switch n newdir)
unfolding page_dir_switch
switched-IsRecursive n newdir h = record {
  present = rw h (page_entry-is_present newdir 1);
  self = rw h (page_entry-frame newdir 1);
}

-- What the clone leaves: its page was free, its directory is the old one's but leads to itself, and
-- every page below the windows of the tables but its two windows leads where it did.
pub record Cloned (m n : Machine) (olddir newdir : ℕ) : Type 0 where
  pub in_memory : newdir / 4096 < pages
  pub was_free : is_free m.palloc (newdir / 4096) ≡ 1
  pub taken : is_free n.palloc (newdir / 4096) ≡ 0
  pub cr3 : n.cr3 ≡ m.cr3
  pub entries : (i : ℕ) → i < 1024 → dir_entry n i ≡ dir_entry m i
  pub owned : IsOwned n
  pub recursive : IsRecursive (page_dir_switch n newdir)
  pub copied :
      (j : ℕ) → j < 1023 → dir_entry (page_dir_switch n newdir) j ≡ m.mem (frame olddir * 1024 + j)
  pub same :
      (v : ℕ)
      → v < 0xffc00000
      → v / 4096 ≢ 0xcccc0
      → v / 4096 ≢ 0xdddd0
      → translate n v ≡ translate m v
