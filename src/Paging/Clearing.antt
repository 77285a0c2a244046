-- ===== src/Paging/Clearing.antt =====
-- Clearing a new table through its window.
use vsop.Base.{
  ℕ, zero, suc, ◌+◌, ◌*◌, ◌≤◌, ◌<◌, ◌≡◌, refl, ◌≢◌, ◌∙◌, ◌⊎◌, inl, inr, true, some, arith,
}
use vsop.Paging.{
  Machine, is_present, frame, walk, store, write_word, elem, page_table_virt_addr, clear_words,
}
use vsop.Paging.Walk.{dir_entry, IsRecursive, walk-table, store-at}
use vsop.Paging.Mapping.{
  SameDir, SameDir-IsRecursive, write_word-other, write_word_self, write-SameDir,
}

-- Words `first` to `first + count - 1` of memory are 0 in `n`, and all else is as in `m`.
pub record Cleared (m n : Machine) (first count : ℕ) : Type 0 where
  pub inside : (j : ℕ) → first ≤ j → j < first + count → n.mem j ≡ 0
  pub outside : (j : ℕ) → (j < first) ⊎ (first + count ≤ j) → n.mem j ≡ m.mem j
  pub cr3 : n.cr3 ≡ m.cr3
  pub palloc : n.palloc ≡ m.palloc

clear_words-zero : (page i : ℕ) (m : Machine) → clear_words page i zero m ≡ some m
unfolding clear_words
clear_words-zero page i m = refl

clear_words-step :
    (page i count : ℕ) (m n : Machine)
    → store m (elem page i) 0 ≡ some n
    → clear_words page i (suc count) m ≡ clear_words page (i + 1) count n
unfolding clear_words
clear_words-step page i count m n h = rw (h, clear_words) refl

first_or_after : (first j : ℕ) → first ≤ j → (j ≡ first) ⊎ (first + 1 ≤ j)
first_or_after first j h = ground arith

Cleared-step :
    (m n : Machine) (first count : ℕ)
    → Cleared (record m { mem = write_word m.mem first 0 }) n (first + 1) count
    → Cleared m n first (suc count)
Cleared-step m n first count c = record {
  inside = λ j h k. elim (first_or_after first j h) [
    | inl e ↦ c.outside j (inl (omega arith)) ∙ rw e (write_word_self m.mem first 0)
    | inr l ↦ c.inside j l (omega arith)
  ];
  outside = λ j h. c.outside j (ground arith) ∙ write_word-other m.mem first 0 j (ground arith);
  cr3 = c.cr3;
  palloc = c.palloc;
}

-- The loop of `kmemset32` reaches its end, and clears its words only.
pub clear_words-Cleared :
    (count i : ℕ) (m : Machine) (index t : ℕ)
    → IsRecursive m
    → index < 1024
    → dir_entry m index ≡ t
    → is_present t ≡ true
    → frame t ≢ frame m.cr3
    → i + count ≤ 1024
    → (n : Machine) × (clear_words (page_table_virt_addr index) i count m ≡ some n)
      × Cleared m n (frame t * 1024 + i) count
clear_words-Cleared zero i m index t r h e p ne fits = (
  m,
  clear_words-zero (page_table_virt_addr index) i m,
  record {
    inside = λ j a b. absurd (omega arith);
    outside = λ j a. refl;
    cr3 = refl;
    palloc = refl;
  },
)
clear_words-Cleared (suc count) i m index t r h e p ne fits =
    let word = frame t * 1024 + i in
    let m' = record m { mem = write_word m.mem word 0 } in
    let at : walk m (elem (page_table_virt_addr index) i) ≡ some word =
      rw (← e) (walk-table m index i r h (omega arith) (rw e p)) in
    let same : SameDir m m' = rw (← e) (write-SameDir m index i 0 (rw e ne) (omega arith)) in
    let (n, done, c) =
      clear_words-Cleared count (i + 1) m' index t (SameDir-IsRecursive m m' same r) h
        (same.entry index h ∙ e) p ne (omega arith) in
    let c' : Cleared m' n (word + 1) count = rw (add_step (frame t * 1024) i) c in
    (
      n,
      clear_words-step (page_table_virt_addr index) i count m m'
            (store-at m (elem (page_table_virt_addr index) i) word 0 at)
          ∙ done,
      Cleared-step m n word count c',
    )
  where
    add_step : (a b : ℕ) → a + b + 1 ≡ a + (b + 1)
    add_step a b = omega arith
