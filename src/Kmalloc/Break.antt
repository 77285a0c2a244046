-- ===== src/Kmalloc/Break.antt =====
-- Moving the kernel's break by a page.
use vsop.Base.{
  ℕ, ◌+◌, ◌*◌, ◌/◌, ◌%◌, ◌^◌, ◌<◌, ◌≡◌, refl, ◌≢◌, ◌∙◌, ap, inl, inr, true, false, none, some,
  arith,
}
use vsop.Palloc.{Palloc, returns, mem_phys_alloc, pages}
use vsop.Palloc.Bounds.{is_free}
use vsop.Palloc.Alloc.{mem_phys_alloc_lem}
use vsop.Paging.{Machine, is_present, paging_is_mapped, paging_map}
use vsop.Paging.Walk.{dir_entry}
use vsop.Paging.Lookup.{translate, found, paging_is_mapped-translate}
use vsop.Paging.Mapping.{IsOwned, home_page}
use vsop.Paging.Total.{paging_map_lem}
use vsop.Paging.Present.{alloc-IsOwned}
use vsop.Paging.Steps.{translate-palloc}
use vsop.Paging.NewTable.{page_frame}
use vsop.Kmalloc.{Heap, map_page, break_from, kbrk}

-- What the break's page leads to, and what is left as it was.
pub record Grown (h g : Heap) : Type 0 where
  pub moved : g.heap ≡ (h.heap + 4096) % 2 ^ 32
  pub owned : IsOwned g.machine
  pub backed :
      (page : ℕ) × (is_free h.machine.palloc (page / 4096) ≡ 1)
      × (translate g.machine h.heap ≡ some (page / 4096 * 4096))
  pub others :
      (v : ℕ)
      → v < 0xffc00000
      → home_page (v / 4096) ≢ home_page (h.heap / 4096)
      → translate g.machine v ≡ translate h.machine v

map_page-runs :
    (m n : Machine) (heap page : ℕ) (q : Palloc)
    → mem_phys_alloc m.palloc ≡ returns page q
    → paging_map (record m { palloc = q }) heap page 3 ≡ some n
    → map_page m heap ≡ some n
unfolding map_page
map_page-runs m n heap page q e f = rw (e, f, map_page) refl

kbrk-unmapped :
    (h : Heap) (n : Machine)
    → paging_is_mapped h.machine h.heap ≡ some false
    → map_page h.machine h.heap ≡ some n
    → kbrk 1 h ≡ some (h.heap, record h { heap = (h.heap + 4096) % 2 ^ 32; machine = n })
unfolding kbrk break_from
kbrk-unmapped h n e f = rw (e, f, kbrk) refl

-- In an owned directory, at a break below the windows of the tables that has its table but no page,
-- with a page free, kbrk of one page answers the break and moves it by a page; the page at the
-- break is one that was free, the directory stays owned, and the pages of other homes lead where
-- they did.
pub kbrk_lem :
    (h : Heap) (k : ℕ)
    → IsOwned h.machine
    → h.heap < 0xffc00000
    → is_present (dir_entry h.machine (h.heap / 2 ^ 22)) ≡ true
    → translate h.machine h.heap ≡ none
    → k < pages
    → is_free h.machine.palloc k ≡ 1
    → (g : Heap) × (kbrk 1 h ≡ some (h.heap, g)) × Grown h g
kbrk_lem h k o low table absent inside free =
    let m = h.machine in
    elim (mem_phys_alloc_lem m.palloc o.valid o.unlocked) [
      | inl (page, q, alloc, a) ↦
          let m' = record m { palloc = q } in
          let small : h.heap < 2 ^ 32 = omega arith in
          let (n, mapped, maps) =
            paging_map_lem m' h.heap page 3 (alloc-IsOwned m page q o a) low (inl table) in
          let unmapped : paging_is_mapped m h.heap ≡ some false =
            paging_is_mapped-translate m h.heap o.recursive small
            ∙ ap (λ t. some (found t)) absent in
          (
            record h { heap = (h.heap + 4096) % 2 ^ 32; machine = n },
            kbrk-unmapped h n unmapped (map_page-runs m n h.heap page q alloc mapped),
            record {
              moved = refl;
              owned = maps.owned;
              backed = (
                page,
                a.was_free,
                maps.target h.heap low refl ∙ ap (λ f. some (f * 4096)) (page_frame m page q o a),
              );
              others = λ v b ne. maps.others v b ne ∙ translate-palloc m q v;
            },
          )
      | inr (alloc, none_free) ↦ absurd (omega (arith, none_free k inside, free))
    ]
