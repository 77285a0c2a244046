-- ===== src/Loading/Scan.antt =====
-- What the loop of `elf_load` finds.
use vsop.Base.{
  ℕ, zero, suc, arith, ◌+◌, ◌≡◌, refl, ◌∙◌, ap, List, Bool, true, false, ◌||◌, if◌then◌else◌,
}
use vsop.Base.Loops.{iterate}
use vsop.Process.{ProcSection, Sections, no_section, no_sections}
use vsop.Loading.{
  elf_header, elf_section, section_name, is_called, placed, scan_section, scan, dot_text, dot_data,
  dot_bss, dot_rodata,
}

-- The place of the last of the first `count` sections whose name is wanted, cleared if there is
-- none.
unfoldable pub last_of : (List ℕ → Bool) → ℕ → List ℕ → ℕ → ProcSection
unfolding elf_section section_name placed
last_of wanted buf file zero = no_section
last_of wanted buf file (suc count) =
    let before = last_of wanted buf file count in
    if wanted (section_name file (elf_section file count))
    then placed buf (elf_section file count)
    else before

-- The names under which the code stores a section as data.
abbrev pub is_data : List ℕ → Bool
is_data name = is_called name dot_bss || is_called name dot_data

-- A loop's last round.
iterate-suc {ℓ} :
    {S : Type ℓ} (step : ℕ → S → S) (first count last : ℕ) (s : S)
    → first + count ≡ last
    → iterate step first (suc count) s ≡ step last (iterate step first count s)
unfolding iterate
iterate-suc step first zero last s e =
    let same : first ≡ last = omega arith in ap (λ i. step i s) same
iterate-suc step first (suc count) last s e =
    iterate-suc step (first + 1) count last (step first s) (omega arith)

abbrev found_in : ℕ → List ℕ → ℕ → Sections
found_in buf file count = record {
  text = last_of (λ n. is_called n dot_text) buf file count;
  data_section = last_of is_data buf file count;
  bss = no_section;
  rodata = last_of (λ n. is_called n dot_rodata) buf file count;
}

branches :
    (a b c d : Bool) (p : ProcSection) (r : Sections)
    → (let r₁ = if a then record r { text = p } else r in
        let r₂ = if b then record r₁ { data_section = p } else r₁ in
        let r₃ = if c then record r₂ { data_section = p } else r₂ in
        if d then record r₃ { rodata = p } else r₃)
      ≡ record {
        text = if a then p else r.text;
        data_section = if c || b then p else r.data_section;
        bss = r.bss;
        rodata = if d then p else r.rodata;
      }
branches true true true true p r = refl
branches true true true false p r = refl
branches true true false true p r = refl
branches true true false false p r = refl
branches true false true true p r = refl
branches true false true false p r = refl
branches true false false true p r = refl
branches true false false false p r = refl
branches false true true true p r = refl
branches false true true false p r = refl
branches false true false true p r = refl
branches false true false false p r = refl
branches false false true true p r = refl
branches false false true false p r = refl
branches false false false true p r = refl
branches false false false false p r = refl

scan_section-found :
    (buf : ℕ) (file : List ℕ) (i : ℕ)
    → scan_section buf
        (section_name file (elf_section file i))
        (elf_section file i)
        (found_in buf file i)
      ≡ found_in buf file (suc i)
unfolding scan_section last_of
scan_section-found buf file i =
    let name = section_name file (elf_section file i) in
    branches (is_called name dot_text) (is_called name dot_data) (is_called name dot_bss)
      (is_called name dot_rodata) (placed buf (elf_section file i)) (found_in buf file i)

scan-from :
    (buf : ℕ) (file : List ℕ) (count : ℕ)
    → iterate
        (λ i r. scan_section buf (section_name file (elf_section file i)) (elf_section file i) r)
        0
        count
        no_sections
      ≡ found_in buf file count
unfolding iterate last_of
scan-from buf file zero = refl
scan-from buf file (suc count) =
    let step : ℕ → Sections → Sections =
      λ i r. scan_section buf (section_name file (elf_section file i)) (elf_section file i) r in
    iterate-suc step 0 count count no_sections (omega arith)
    ∙ ap (step count) (scan-from buf file count)
    ∙ scan_section-found buf file count

-- Of the sections of a file elf_load takes as text the last that is called .text, as data the last
-- that is called .data or .bss, as read-only data the last that is called .rodata, and clears those
-- that are missing; the section for .bss stays cleared whatever the file has.
pub scan_lem :
    (buf : ℕ) (file : List ℕ)
    → ((scan buf file).text
        ≡ last_of (λ n. is_called n dot_text) buf file (elf_header file).e_shnum)
      × ((scan buf file).data_section ≡ last_of is_data buf file (elf_header file).e_shnum)
      × ((scan buf file).bss ≡ no_section)
      × ((scan buf file).rodata
          ≡ last_of (λ n. is_called n dot_rodata) buf file (elf_header file).e_shnum)
unfolding scan
scan_lem buf file =
    let e = scan-from buf file (elf_header file).e_shnum in
    (ap (λ r. r.text) e, ap (λ r. r.data_section) e, ap (λ r. r.bss) e, ap (λ r. r.rodata) e)
