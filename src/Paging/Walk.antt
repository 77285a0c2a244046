-- ===== src/Paging/Walk.antt =====
-- The kernel's windows: the virtual addresses of the directory and of the tables lead to their
-- words, since the last entry of the directory leads to the directory itself.
use vsop.Base.{ℕ, ◌+◌, ◌*◌, ◌/◌, ◌%◌, ◌<◌, ◌≡◌, refl, ◌∙◌, true, some, arith}
use vsop.Paging.{
  Machine, is_present, frame, dir_word, table_word, walk, load, store, write_word, elem,
  page_dir_virt_addr, page_table_virt_addr,
}

-- Word `i` of the directory in use.
abbrev pub dir_entry : Machine → ℕ → ℕ
dir_entry m i = m.mem (frame m.cr3 * 1024 + i)

-- The last entry of the directory is present and leads to the directory.
pub record IsRecursive (m : Machine) : Type 0 where
  pub present : is_present (dir_entry m 1023) ≡ true
  pub self : frame (dir_entry m 1023) ≡ frame m.cr3

-- A walk whose two entries are known.
pub walk_lem :
    (m : Machine) (virt d t : ℕ)
    → dir_word m.cr3 virt ≡ d
    → is_present (m.mem d) ≡ true
    → table_word (m.mem d) virt ≡ t
    → is_present (m.mem t) ≡ true
    → walk m virt ≡ some (frame (m.mem t) * 1024 + virt % 4096 / 4)
unfolding walk
walk_lem m virt d t e p f q = rw (e, p, f, q) refl

pub walk-dir :
    (m : Machine) (i : ℕ)
    → IsRecursive m
    → i < 1024
    → walk m (elem page_dir_virt_addr i) ≡ some (frame m.cr3 * 1024 + i)
walk-dir m i r h =
    let last = frame m.cr3 * 1024 + 1023 in
    let word : (page_dir_virt_addr + 4 * i) % 4096 / 4 ≡ i = omega arith in
    walk_lem m (elem page_dir_virt_addr i) last last (omega arith) r.present (omega (arith, r.self))
      r.present
    ∙ rw (r.self, word) refl

pub walk-table :
    (m : Machine) (index t : ℕ)
    → IsRecursive m
    → index < 1024
    → t < 1024
    → is_present (dir_entry m index) ≡ true
    → walk m (elem (page_table_virt_addr index) t) ≡ some (frame (dir_entry m index) * 1024 + t)
walk-table m index t r h k p =
    let last = frame m.cr3 * 1024 + 1023 in
    let word : (page_table_virt_addr index + 4 * t) % 4096 / 4 ≡ t = omega arith in
    walk_lem m (elem (page_table_virt_addr index) t) last (frame m.cr3 * 1024 + index) (omega arith)
      r.present (omega (arith, r.self)) p
    ∙ rw word refl

pub load-at : (m : Machine) (virt i : ℕ) → walk m virt ≡ some i → load m virt ≡ some (m.mem i)
unfolding load
load-at m virt i h = rw (h, load) refl

pub store-at :
    (m : Machine) (virt i w : ℕ)
    → walk m virt ≡ some i
    → store m virt w ≡ some (record m { mem = write_word m.mem i w })
unfolding store
store-at m virt i w h = rw (h, store) refl
