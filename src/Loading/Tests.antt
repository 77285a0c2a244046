-- ===== src/Loading/Tests.antt =====
-- A file of one section, `.bss`, and the theorem at it.
use vsop.Base.{ℕ, ◌≡◌, refl, List, [], ◌∷◌, ◌++◌, replicate}
use vsop.Process.{no_section}
use vsop.Loading.{elf_header, is_called, scan, dot_text, dot_rodata}
use vsop.Loading.Scan.{last_of, is_data, scan_lem}

abbrev header : List ℕ
header = replicate 32 0 ++ (52 ∷ replicate 15 0) ++ (1 ∷ 0 ∷ 0 ∷ 0 ∷ [])

abbrev section : List ℕ
section =
    replicate 12 0 ++ (0 ∷ 0 ∷ 160 ∷ 0 ∷ 92 ∷ 0 ∷ 0 ∷ 0 ∷ 16 ∷ 0 ∷ 0 ∷ 0 ∷ []) ++ replicate 16 0

-- The names stand behind the sections.
abbrev file : List ℕ
file = header ++ section ++ (46 ∷ 98 ∷ 115 ∷ 115 ∷ 0 ∷ [])

stored_as_data : (scan 1048576 file).data_section.virt_addr ≡ 10485760
unfolding scan vsop.Util.kstrcmp
stored_as_data = refl

scan_lem_example :
    ((scan 1048576 file).text
      ≡ last_of (λ n. is_called n dot_text) 1048576 file (elf_header file).e_shnum)
    × ((scan 1048576 file).data_section ≡ last_of is_data 1048576 file (elf_header file).e_shnum)
    × ((scan 1048576 file).bss ≡ no_section)
    × ((scan 1048576 file).rodata
        ≡ last_of (λ n. is_called n dot_rodata) 1048576 file (elf_header file).e_shnum)
scan_lem_example = scan_lem 1048576 file
