-- ===== src/Paging/Present.antt =====
-- Mapping where the table is there, and taking a page.
use vsop.Base.{ℕ, ◌+◌, ◌*◌, ◌/◌, ◌%◌, ◌^◌, ◌<◌, ◌≡◌, refl, true, some, arith}
use vsop.Palloc.{Palloc}
use vsop.Palloc.Alloc.{Allocated}
use vsop.Paging.{Machine, is_present, frame, dir_word, page_entry, paging_map}
use vsop.Paging.Entries.{page_entry-frame, page_entry-is_present}
use vsop.Paging.Walk.{dir_entry}
use vsop.Paging.Mapping.{
  IsOwned, SameDir, SameDir-IsOwned, write_word_self, write-SameDir, table-ne-dir, entered,
  table_for-present, paging_map-entered,
}
use vsop.Paging.Clone.{Window}

-- Taking a page keeps the directory owned.
pub alloc-IsOwned :
    (m : Machine) (page : ℕ) (q : Palloc)
    → IsOwned m
    → Allocated m.palloc page q
    → IsOwned (record m { palloc = q })
alloc-IsOwned m page q o a = record {
  recursive = record { present = o.recursive.present; self = o.recursive.self };
  shared = record { low = o.shared.low; high = o.shared.high; table = o.shared.table };
  distinct = o.distinct;
  taken = λ i h p. ground (arith, a.taken (frame (dir_entry m i)), o.taken i h p);
  valid = a.valid;
  unlocked = a.unlocked;
}

-- `paging_map` where the table is there.
module _ (m : Machine) (virt phys flags : ℕ) (o : IsOwned m) (small : virt < 2 ^ 32)
    (index : virt / 2 ^ 22 < 1023) (p : is_present (dir_entry m (virt / 2 ^ 22)) ≡ true) where
  pub map_runs : paging_map m virt phys flags ≡ some (entered m virt phys flags)
  map_runs =
      paging_map-entered m m virt phys flags (table_for-present m virt phys flags o small index p)
        o.recursive index p

  pub map-SameDir : SameDir m (entered m virt phys flags)
  map-SameDir =
      write-SameDir m (virt / 2 ^ 22) (virt / 2 ^ 12 % 1024) (page_entry phys flags)
        (table-ne-dir m (virt / 2 ^ 22) o index p) (omega arith)

  pub map-IsOwned : IsOwned (entered m virt phys flags)
  map-IsOwned = SameDir-IsOwned m (entered m virt phys flags) map-SameDir o

  pub map-Window :
      flags % 2 ≡ 1
      → Window (entered m virt phys flags) virt (frame (dir_entry m (virt / 2 ^ 22))) (frame phys)
  map-Window odd =
      let d = virt / 2 ^ 22 in
      let t = frame (dir_entry m d) in
      let n = entered m virt phys flags in
      let at : dir_word m.cr3 virt ≡ frame m.cr3 * 1024 + d = omega arith in
      let dir : n.mem (dir_word m.cr3 virt) ≡ dir_entry m d =
        rw at (map-SameDir.entry d (omega arith)) in
      let word : n.mem (t * 1024 + virt / 2 ^ 12 % 1024) ≡ page_entry phys flags =
        write_word_self m.mem (t * 1024 + virt / 2 ^ 12 % 1024) (page_entry phys flags) in
      record {
        table = rw dir p;
        table_frame = rw dir refl;
        page = rw (word, page_entry-is_present phys flags, odd) refl;
        page_frame = rw word (page_entry-frame phys flags);
      }
