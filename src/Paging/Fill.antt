-- ===== src/Paging/Fill.antt =====
-- Filling the page of a new directory: the loop of `page_dir_clone` and the write behind it.
use vsop.Base.{ℕ, ◌+◌, ◌*◌, ◌≤◌, ◌<◌, ◌≡◌, refl, ◌≢◌, ◌∙◌, sym, ◌⊎◌, some, arith, bit_and}
use vsop.Paging.{Machine, frame, store, write_word, elem, page_entry, copy_words}
use vsop.Paging.Entries.{page_of_entry}
use vsop.Paging.Walk.{store-at}
use vsop.Paging.Mapping.{SameDir, write_word-other, write_word_self}
use vsop.Paging.NewTable.{beside}
use vsop.Paging.Clone.{olddir_virt, newdir_virt, Window, walk-Window, copy_words-Copied}

-- The new directory's frame `g` has the words of frame `f`, but for the last, which leads to
-- `newdir`; all else is as in `m`.
pub record Filled (m n : Machine) (f g newdir : ℕ) : Type 0 where
  pub inside : (j : ℕ) → j < 1023 → n.mem (g * 1024 + j) ≡ m.mem (f * 1024 + j)
  pub last : n.mem (g * 1024 + 1023) ≡ page_entry newdir 1
  pub outside : (w : ℕ) → (w < g * 1024) ⊎ (g * 1024 + 1024 ≤ w) → n.mem w ≡ m.mem w
  pub cr3 : n.cr3 ≡ m.cr3
  pub palloc : n.palloc ≡ m.palloc

-- The loop and the write behind it.
pub fill :
    (m : Machine) (s t f g newdir : ℕ)
    → Window m olddir_virt s f
    → Window m newdir_virt t g
    → g ≢ frame m.cr3
    → g ≢ s
    → g ≢ t
    → g ≢ f
    → (l : Machine) × (n : Machine) × (copy_words olddir_virt newdir_virt 0 1023 m ≡ some l)
      × (store l (elem newdir_virt 1023) (page_entry newdir 1) ≡ some n)
      × Filled m n f g newdir
fill m s t f g newdir old new a b c d =
    let (l, done, copied, old', new') =
      copy_words-Copied 1023 0 m s t f g old new a b c d (omega arith) in
    let place = g * 1024 + 1023 in
    let w = page_entry newdir 1 in
    (
      l,
      record l { mem = write_word l.mem place w },
      done,
      store-at l (elem newdir_virt 1023) place w
          (walk-Window l newdir_virt t g 1023 new' refl (omega arith)),
      record {
        inside = λ j h.
            write_word-other l.mem place w (g * 1024 + j) (λ e. omega (arith, e, h))
            ∙ copied.inside j (omega arith) (omega arith);
        last = write_word_self l.mem place w;
        outside = λ v h.
            write_word-other l.mem place w v (ground arith) ∙ copied.outside v (ground arith);
        cr3 = copied.cr3;
        palloc = copied.palloc;
      },
    )

pub Filled-SameDir :
    (m n : Machine) (f g newdir : ℕ) → Filled m n f g newdir → g ≢ frame m.cr3 → SameDir m n
Filled-SameDir m n f g newdir c ne = record {
  cr3 = c.cr3;
  entry = λ i h.
      rw c.cr3 (c.outside (frame m.cr3 * 1024 + i) (beside (frame m.cr3) g i (λ e. ne (sym e)) h));
  palloc = c.palloc;
}

pub frame-masked : (e : ℕ) → frame (bit_and e 0xfffff000) ≡ frame e
frame-masked e = omega (arith, page_of_entry e)

pub Window-at :
    (m : Machine) (virt s t f g : ℕ) → s ≡ t → f ≡ g → Window m virt s f → Window m virt t g
Window-at m virt s t f g e h w = rw (← e, ← h) w
