-- ===== src/Paging/Clone.antt =====
-- The loop of `page_dir_clone`: a directory copied through two windows of a page each.
use vsop.Base.{
  ℕ, zero, suc, ◌+◌, ◌*◌, ◌/◌, ◌%◌, ◌^◌, ◌≤◌, ◌<◌, ◌≡◌, refl, ◌≢◌, ◌∙◌, ap, ◌⊎◌, inl, inr, true,
  some, arith,
}
use vsop.Paging.{
  Machine, is_present, frame, dir_word, table_word, walk, load, store, write_word, elem, copy_words,
}
use vsop.Paging.Walk.{walk_lem, load-at, store-at}
use vsop.Paging.Mapping.{write_word-other, write_word_self}

abbrev pub olddir_virt : ℕ
olddir_virt = 0xcccc0000

abbrev pub newdir_virt : ℕ
newdir_virt = 0xdddd0000

-- The page at `virt` is mapped to the frame `f`, by a table whose frame is `t`.
pub record Window (m : Machine) (virt t f : ℕ) : Type 0 where
  pub table : is_present (m.mem (dir_word m.cr3 virt)) ≡ true
  pub table_frame : frame (m.mem (dir_word m.cr3 virt)) ≡ t
  pub page : is_present (m.mem (t * 1024 + virt / 2 ^ 12 % 1024)) ≡ true
  pub page_frame : frame (m.mem (t * 1024 + virt / 2 ^ 12 % 1024)) ≡ f

-- Word `i` of a window.
pub walk-Window :
    (m : Machine) (virt t f i : ℕ)
    → Window m virt t f
    → virt % 4096 ≡ 0
    → i < 1024
    → walk m (elem virt i) ≡ some (f * 1024 + i)
walk-Window m virt t f i w aligned h =
    let d : dir_word m.cr3 (elem virt i) ≡ dir_word m.cr3 virt = omega arith in
    let x : table_word (m.mem (dir_word m.cr3 virt)) (elem virt i)
        ≡ t * 1024 + virt / 2 ^ 12 % 1024 =
      omega (arith, w.table_frame) in
    walk_lem m (elem virt i) (dir_word m.cr3 virt) (t * 1024 + virt / 2 ^ 12 % 1024) d w.table x
      w.page
    ∙ ap some (omega (arith, w.page_frame))

-- A write into another frame than the directory's and the table's leaves the window.
pub Window-write :
    (m : Machine) (virt t f g i v : ℕ)
    → Window m virt t f
    → g ≢ frame m.cr3
    → g ≢ t
    → i < 1024
    → Window (record m { mem = write_word m.mem (g * 1024 + i) v }) virt t f
Window-write m virt t f g i v w a b h =
    let d =
      write_word-other m.mem (g * 1024 + i) v (dir_word m.cr3 virt)
        (λ e. a (omega (arith, e, h))) in
    let x =
      write_word-other m.mem (g * 1024 + i) v (t * 1024 + virt / 2 ^ 12 % 1024)
        (λ e. b (omega (arith, e, h))) in
    record {
      table = rw d w.table;
      table_frame = rw d w.table_frame;
      page = rw x w.page;
      page_frame = rw x w.page_frame;
    }

-- Words `i` to `i + count - 1` of frame `g` are those of frame `f`, and all else is as in `m`.
pub record Copied (m n : Machine) (f g i count : ℕ) : Type 0 where
  pub inside : (j : ℕ) → i ≤ j → j < i + count → n.mem (g * 1024 + j) ≡ m.mem (f * 1024 + j)
  pub outside : (w : ℕ) → (w < g * 1024 + i) ⊎ (g * 1024 + i + count ≤ w) → n.mem w ≡ m.mem w
  pub cr3 : n.cr3 ≡ m.cr3
  pub palloc : n.palloc ≡ m.palloc

copy_words-zero : (from to i : ℕ) (m : Machine) → copy_words from to i zero m ≡ some m
unfolding copy_words
copy_words-zero from to i m = refl

copy_words-step :
    (from to i count w : ℕ) (m n : Machine)
    → load m (elem from i) ≡ some w
    → store m (elem to i) w ≡ some n
    → copy_words from to i (suc count) m ≡ copy_words from to (i + 1) count n
unfolding copy_words
copy_words-step from to i count w m n h k = rw (h, k, copy_words) refl

first_or_after : (first j : ℕ) → first ≤ j → (j ≡ first) ⊎ (first + 1 ≤ j)
first_or_after first j h = ground arith

-- The loop reaches its end where the new directory's frame is none of the others'.
pub copy_words-Copied :
    (count i : ℕ) (m : Machine) (s t f g : ℕ)
    → Window m olddir_virt s f
    → Window m newdir_virt t g
    → g ≢ frame m.cr3
    → g ≢ s
    → g ≢ t
    → g ≢ f
    → i + count ≤ 1024
    → (n : Machine) × (copy_words olddir_virt newdir_virt i count m ≡ some n)
      × Copied m n f g i count
      × Window n olddir_virt s f
      × Window n newdir_virt t g
copy_words-Copied zero i m s t f g old new a b c d fits = (
  m,
  copy_words-zero olddir_virt newdir_virt i m,
  record {
    inside = λ j h k. absurd (omega arith);
    outside = λ w h. refl;
    cr3 = refl;
    palloc = refl;
  },
  old,
  new,
)
copy_words-Copied (suc count) i m s t f g old new a b c d fits =
    let w = m.mem (f * 1024 + i) in
    let m' = record m { mem = write_word m.mem (g * 1024 + i) w } in
    let read =
      load-at m (elem olddir_virt i) (f * 1024 + i)
        (walk-Window m olddir_virt s f i old refl (omega arith)) in
    let written =
      store-at m (elem newdir_virt i) (g * 1024 + i) w
        (walk-Window m newdir_virt t g i new refl (omega arith)) in
    let (n, done, copied, old', new') =
      copy_words-Copied count (i + 1) m' s t f g
        (Window-write m olddir_virt s f g i w old a b (omega arith))
        (Window-write m newdir_virt t g g i w new a c (omega arith)) a b c d (omega arith) in
    (
      n,
      copy_words-step olddir_virt newdir_virt i count w m m' read written ∙ done,
      record {
        inside = λ j h k. elim (first_or_after i j h) [
          | inl e ↦
              copied.outside (g * 1024 + j) (inl (omega arith))
              ∙ rw e (write_word_self m.mem (g * 1024 + i) w)
          | inr l ↦
              copied.inside j l (omega arith)
              ∙ write_word-other m.mem (g * 1024 + i) w (f * 1024 + j)
                  (λ e. d (omega (arith, e, fits, k)))
        ];
        outside = λ v h.
            copied.outside v (ground arith)
            ∙ write_word-other m.mem (g * 1024 + i) w v (ground arith);
        cr3 = copied.cr3;
        palloc = copied.palloc;
      },
      old',
      new',
    )
