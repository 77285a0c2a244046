-- ===== src/Util/Tests.antt =====
-- Runs on texts, and the theorems at them.
use vsop.Base.{ℕ, ◌+◌, ◌<◌, ◌≤◌, ◌≡◌, refl, ◌⊎◌, List, [], ◌∷◌, some, none, arith, get_or}
use vsop.Util.{digit_char, digit_loop, int2str, print_arg, kprintf, kstrcmp, kmemset}
use vsop.Util.Digits.{value, value-int2str}
use vsop.Util.Compare.{Says, kstrcmp-Says}
use vsop.Util.Memory.{kmemset_lem}

hex : int2str 254 16 ≡ some (102 ∷ 101 ∷ [])
unfolding int2str digit_loop digit_char
hex = refl

-- "%i%%" lacks an argument; "a%xb" does not.
lacking : kprintf (37 ∷ 105 ∷ 37 ∷ 37 ∷ []) (record { word = 7; text = [] } ∷ []) ≡ none
unfolding kprintf print_arg int2str digit_loop digit_char
lacking = refl

printed :
    kprintf (97 ∷ 37 ∷ 120 ∷ 98 ∷ []) (record { word = 31; text = [] } ∷ [])
    ≡ some (97 ∷ 48 ∷ 120 ∷ 49 ∷ 102 ∷ 98 ∷ [])
unfolding kprintf print_arg int2str digit_loop digit_char
printed = refl

value-int2str_example : (ds : List ℕ) × (int2str 1203 10 ≡ some ds) × (value 10 ds 0 ≡ 1203)
value-int2str_example = value-int2str 1203 10 (omega arith) (omega arith) (omega arith)

kstrcmp-Says_example :
    Says (kstrcmp (115 ∷ 104 ∷ []) (115 ∷ 200 ∷ [])) (115 ∷ 104 ∷ []) (115 ∷ 200 ∷ [])
kstrcmp-Says_example =
    kstrcmp-Says (115 ∷ 104 ∷ []) (115 ∷ 200 ∷ [])
      (omega arith, omega arith, (omega arith, omega arith, tt))
      (omega arith, omega arith, (omega arith, omega arith, tt))

abbrev cells : List ℕ
cells = 1 ∷ 2 ∷ 3 ∷ 4 ∷ 5 ∷ []

kmemset_lem_example :
    (1 ≤ 2 → 2 < 1 + 3 → get_or (kmemset cells 1 0 3) 2 0 ≡ 0)
    × ((2 < 1) ⊎ (1 + 3 ≤ 2) → get_or (kmemset cells 1 0 3) 2 0 ≡ get_or cells 2 0)
kmemset_lem_example = kmemset_lem cells 1 0 3 2 (omega arith)
