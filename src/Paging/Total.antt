-- ===== src/Paging/Total.antt =====
-- `paging_map`, with a table or without.
use vsop.Base.{
  ℕ, ◌+◌, ◌*◌, ◌/◌, ◌^◌, ◌<◌, ◌≡◌, refl, ◌∙◌, sym, ◌⊎◌, inl, inr, Bool, true, false, Bool-cases,
  some, arith,
}
use mathlib.Core.Path.{subst}
use vsop.Palloc.{Palloc, pages}
use vsop.Palloc.Bounds.{is_free}
use vsop.Palloc.Alloc.{mem_phys_alloc_lem}
use vsop.Paging.{
  Machine, is_present, frame, elem, page_dir_virt_addr, page_entry, table_for, new_table,
  paging_map,
}
use vsop.Paging.Entries.{present_bit-is_present, page_entry-frame, page_entry-is_present}
use vsop.Paging.Walk.{dir_entry, IsRecursive, walk-dir, load-at}
use vsop.Paging.Mapping.{
  IsOwned, Maps, entered, entered-Maps, paging_map-entered, table_for-present,
}
use vsop.Paging.Clearing.{Cleared, clear_words-Cleared}
use vsop.Paging.NewTable.{
  Added, with_entry, with_entry-IsRecursive, with_entry_self, dir-ne-page, page_frame,
  cleared-Added, new_table-runs,
}

table_for-absent :
    (m : Machine) (index : ℕ)
    → IsRecursive m
    → index < 1024
    → is_present (dir_entry m index) ≡ false
    → table_for m index ≡ new_table m index
unfolding table_for
table_for-absent m index r h p =
    let l =
      load-at m (elem page_dir_virt_addr index) (frame m.cr3 * 1024 + index)
        (walk-dir m index r h) in
    rw (l, present_bit-is_present (dir_entry m index), p, table_for) refl

-- Without a table and with a page free, one is made.
new_table-Added :
    (m : Machine) (index k : ℕ)
    → IsOwned m
    → index < 1023
    → is_present (dir_entry m index) ≡ false
    → k < pages
    → is_free m.palloc k ≡ 1
    → (n : Machine) × (new_table m index ≡ some n) × Added m n index
new_table-Added m index k o h p inside free =
    elim (mem_phys_alloc_lem m.palloc o.valid o.unlocked) [
      | inl (page, q, alloc, a) ↦
          let w = with_entry m index page q m o h p a in
          let (n, done, c) =
            clear_words-Cleared 1024 0 w index (page_entry page 7)
              (with_entry-IsRecursive m index page q m o h p a) (omega arith)
              (with_entry_self m index page q m o h p a) (page_entry-is_present page 7)
              (λ e.
                dir-ne-page m page q o a
                  (sym e ∙ page_entry-frame page 7 ∙ page_frame m page q o a))
              (omega arith) in
          let place : frame (page_entry page 7) * 1024 + 0 ≡ page / 4096 * 1024 =
            omega (arith, page_entry-frame page 7, page_frame m page q o a) in
          (
            n,
            new_table-runs m index page q n o h p a n alloc done,
            cleared-Added m index page q n o h p a (subst (λ f. Cleared w n f 1024) place c),
          )
      | inr (alloc, none_free) ↦ absurd (omega (arith, none_free k inside, free))
    ]

free_page :
    {b : Bool} (p : Palloc)
    → (b ≡ true) ⊎ ((k : ℕ) × (k < pages) × (is_free p k ≡ 1))
    → b ≡ false
    → (k : ℕ) × (k < pages) × (is_free p k ≡ 1)
free_page p (inl t) f = absurd (cc)
free_page p (inr k) f = k

-- In an owned directory, for an address below the windows of the tables and with the table there
-- or a page free for it, `paging_map` ends without a fault and keeps the directory owned. It maps
-- that page, with the other one of its home in the shared table, and no other.
pub paging_map_lem :
    (m : Machine) (virt phys flags : ℕ)
    → IsOwned m
    → virt < 0xffc00000
    → (is_present (dir_entry m (virt / 2 ^ 22)) ≡ true)
      ⊎ ((k : ℕ) × (k < pages) × (is_free m.palloc k ≡ 1))
    → (n : Machine) × (paging_map m virt phys flags ≡ some n) × Maps m n virt phys flags
paging_map_lem m virt phys flags o h room =
    let index = virt / 2 ^ 22 in
    elim (Bool-cases (is_present (dir_entry m index))) [
      | inl p ↦ (
        entered m virt phys flags,
        paging_map-entered m m virt phys flags
            (table_for-present m virt phys flags o (omega arith) (omega arith) p) o.recursive
            (omega arith) p,
        entered-Maps m virt phys flags o (omega arith) (omega arith) p,
      )
      | inr p ↦
          let bound : index < 1023 = omega arith in
          let widened : index < 1024 = omega arith in
          let small : virt < 2 ^ 32 = omega arith in
          let (k, inside, free) = free_page m.palloc room p in
          let (n, made, a) = new_table-Added m index k o bound p inside free in
          let maps = entered-Maps n virt phys flags a.owned small bound a.present in
          (
            entered n virt phys flags,
            paging_map-entered m n virt phys flags
                (table_for-absent m index o.recursive widened p ∙ made) a.owned.recursive bound
                a.present,
            record {
              owned = maps.owned;
              target = maps.target;
              others = λ v b ne. maps.others v b ne ∙ a.same v b;
            },
          )
    ]
