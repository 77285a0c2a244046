-- ===== src/Paging/Lookup.antt =====
-- The kernel's lookups against the processor's walk.
use vsop.Base.{
  ℕ, ◌+◌, ◌*◌, ◌/◌, ◌%◌, ◌^◌, ◌<◌, ◌≡◌, refl, ◌∙◌, ap, ◌⊎◌, inl, inr, Bool, true, false, Bool-cases,
  if◌then◌else◌, Option, none, some, arith, bit_and,
}
use vsop.Paging.{
  Machine, is_present, frame, dir_word, table_word, load, elem, page_dir_index, page_table_index,
  page_dir_virt_addr, page_table_virt_addr, present_bit, paging_is_mapped, paging_get_phys,
}
use vsop.Paging.Entries.{present_bit-is_present, page_table_index-mod, page_of_entry}
use vsop.Paging.Walk.{dir_entry, IsRecursive, walk-dir, walk-table, load-at}

-- Where the walk finds a virtual page: its physical address.
unfoldable pub translate : Machine → ℕ → Option ℕ
translate m virt =
    let pde = m.mem (dir_word m.cr3 virt) in
    let pte = m.mem (table_word pde virt) in
    if is_present pde then (if is_present pte then some (frame pte * 4096) else none) else none

-- What a lookup answers for a page, or for none.
abbrev pub found : Option ℕ → Bool
found none = false
found (some a) = true

abbrev pub found_or_zero : Option ℕ → ℕ
found_or_zero none = 0
found_or_zero (some a) = a

is_mapped-none :
    (m : Machine) (virt pde : ℕ)
    → load m (elem page_dir_virt_addr (page_dir_index virt)) ≡ some pde
    → present_bit pde ≡ false
    → paging_is_mapped m virt ≡ some false
unfolding paging_is_mapped
is_mapped-none m virt pde h p = rw (h, p, paging_is_mapped) refl

is_mapped-table :
    (m : Machine) (virt pde pte : ℕ)
    → load m (elem page_dir_virt_addr (page_dir_index virt)) ≡ some pde
    → present_bit pde ≡ true
    → load m (elem (page_table_virt_addr (page_dir_index virt)) (page_table_index virt)) ≡ some pte
    → paging_is_mapped m virt ≡ some (present_bit pte)
unfolding paging_is_mapped
is_mapped-table m virt pde pte h p k = rw (h, p, k, paging_is_mapped) refl

get_phys-none :
    (m : Machine) (virt : ℕ)
    → paging_is_mapped m virt ≡ some false
    → paging_get_phys m virt ≡ some 0
unfolding paging_get_phys
get_phys-none m virt h = rw (h, paging_get_phys) refl

get_phys-some :
    (m : Machine) (virt pte : ℕ)
    → paging_is_mapped m virt ≡ some true
    → load m (elem (page_table_virt_addr (page_dir_index virt)) (page_table_index virt)) ≡ some pte
    → paging_get_phys m virt ≡ some (bit_and pte 0xfffff000)
unfolding paging_get_phys
get_phys-some m virt pte h k = rw (h, k, paging_get_phys) refl

found-present :
    (m : Machine) (virt : ℕ)
    → is_present (m.mem (dir_word m.cr3 virt)) ≡ true
    → is_present (m.mem (table_word (m.mem (dir_word m.cr3 virt)) virt)) ≡ found (translate m virt)
unfolding translate
found-present m virt p =
    elim (Bool-cases (is_present (m.mem (table_word (m.mem (dir_word m.cr3 virt)) virt)))) [
      | inl q ↦ rw (p, q) refl
      | inr q ↦ rw (p, q) refl
    ]

found-absent :
    (m : Machine) (virt : ℕ)
    → is_present (m.mem (dir_word m.cr3 virt)) ≡ false
    → false ≡ found (translate m virt)
unfolding translate
found-absent m virt p = rw p refl

translate-cases :
    (m : Machine) (virt : ℕ)
    → (translate m virt ≡ none)
      ⊎ ((is_present (m.mem (dir_word m.cr3 virt)) ≡ true)
          × (translate m virt
              ≡ some (frame (m.mem (table_word (m.mem (dir_word m.cr3 virt)) virt)) * 4096)))
unfolding translate
translate-cases m virt =
    let pde = m.mem (dir_word m.cr3 virt) in
    elim (Bool-cases (is_present pde)) [
      | inl p ↦ elim (Bool-cases (is_present (m.mem (table_word pde virt)))) [
        | inl q ↦ inr (p, rw (p, q) refl)
        | inr q ↦ inl (rw (p, q) refl)
      ]
      | inr p ↦ inl (rw p refl)
    ]

module _ (m : Machine) (virt : ℕ) (r : IsRecursive m) (small : virt < 2 ^ 32) where
  load-dir :
      load m (elem page_dir_virt_addr (page_dir_index virt)) ≡ some (m.mem (dir_word m.cr3 virt))
  load-dir =
      let e : dir_word m.cr3 virt ≡ frame m.cr3 * 1024 + page_dir_index virt = omega arith in
      rw e (
        load-at m (elem page_dir_virt_addr (page_dir_index virt))
          (frame m.cr3 * 1024 + page_dir_index virt)
          (walk-dir m (page_dir_index virt) r (omega arith)))

  load-table :
      is_present (m.mem (dir_word m.cr3 virt)) ≡ true
      → load m (elem (page_table_virt_addr (page_dir_index virt)) (page_table_index virt))
        ≡ some (m.mem (table_word (m.mem (dir_word m.cr3 virt)) virt))
  load-table p =
      let e : dir_word m.cr3 virt ≡ frame m.cr3 * 1024 + page_dir_index virt = omega arith in
      let q : is_present (dir_entry m (page_dir_index virt)) ≡ true = rw e at p in
      rw (e, page_table_index-mod virt)
        (load-at m (elem (page_table_virt_addr (page_dir_index virt)) (virt / 2 ^ 12 % 1024))
          (frame (dir_entry m (page_dir_index virt)) * 1024 + virt / 2 ^ 12 % 1024)
          (walk-table m (page_dir_index virt) (virt / 2 ^ 12 % 1024) r (omega arith) (omega arith)
            q))

  -- `paging_is_mapped` answers whether the walk finds the page, and never faults.
  pub paging_is_mapped-translate : paging_is_mapped m virt ≡ some (found (translate m virt))
  paging_is_mapped-translate =
      let pde = m.mem (dir_word m.cr3 virt) in
      let pte = m.mem (table_word pde virt) in
      elim (Bool-cases (is_present pde)) [
        | inl p ↦
            is_mapped-table m virt pde pte load-dir (present_bit-is_present pde ∙ p) (load-table p)
            ∙ ap some (present_bit-is_present pte ∙ found-present m virt p)
        | inr p ↦
            is_mapped-none m virt pde load-dir (present_bit-is_present pde ∙ p)
            ∙ ap some (found-absent m virt p)
      ]

  -- `paging_get_phys` answers the physical page that the walk finds, or 0 for none, and never
  -- faults.
  pub paging_get_phys-translate : paging_get_phys m virt ≡ some (found_or_zero (translate m virt))
  paging_get_phys-translate =
      let pde = m.mem (dir_word m.cr3 virt) in
      let pte = m.mem (table_word pde virt) in
      elim (translate-cases m virt) [
        | inl h ↦ get_phys-none m virt (paging_is_mapped-translate ∙ rw h refl) ∙ rw h refl
        | inr h ↦
            get_phys-some m virt pte (paging_is_mapped-translate ∙ rw h.1 refl) (load-table h.0)
            ∙ rw (page_of_entry pte, h.1) refl
      ]
