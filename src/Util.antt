-- ===== src/Util.antt =====
-- kernel/util.c and libc/utils.c: text and memory. A text is the list of its bytes up to the one
-- that is 0, and a function that writes answers what it writes. `char` is signed on x86.
pub mod Digits
pub mod Compare
pub mod Memory
mod Tests
use vsop.Base.{
  ℕ, zero, suc, ◌+◌, ◌-◌, ◌*◌, ◌/◌, ◌%◌, List, [], ◌∷◌, ◌++◌, Bool, true, false, ◌&&◌, ltb, ◌==◌,
  if◌then◌else◌, get_or, set, replicate, length, Option, none, some,
}
use mathlib.Core.List.{reverse}
use mathlib.Core.Option.{map}
use vsop.Base.Int.{ℤ, ◌-ℤ◌, is_neg}

-- `digits[d]`
unfoldable pub digit_char : ℕ → ℕ
digit_char d = if ltb d 10 then 48 + d else 87 + d

-- What the first loop of `int2str` puts into its buffer behind the 0, on fuel.
unfoldable pub digit_loop : ℕ → ℕ → ℕ → List ℕ
unfolding digit_char
digit_loop zero n base = []
digit_loop (suc fuel) n base =
    let rest = digit_loop fuel (n / base) base in
    if n / base == 0 then digit_char (n % base) ∷ [] else digit_char (n % base) ∷ rest

-- The text that `int2str` writes: the buffer backwards. `n + 1` is more rounds than the number has
-- digits. The buffer has 32 bytes, the first for the 0: `none` is a write behind it.
unfoldable pub int2str : ℕ → ℕ → Option (List ℕ)
unfolding digit_loop
int2str n base =
    let buf = digit_loop (suc n) n base in if ltb (length buf) 32 then some (reverse buf) else none

-- The byte at the front of a text, 0 at its end.
abbrev pub first : List ℕ → ℕ
first [] = 0
first (c ∷ s) = c

-- A byte as a signed `char`, moved up by 128 so that the order is that of the numbers.
abbrev pub char_order : ℕ → ℕ
char_order c = (c + 128) % 256

pub data Order : Type 0 where
  less same greater : Order

-- The ends of `kstrcmp` and of `ksubstr`, with the bytes at the first difference or end.
unfoldable pub order_of : ℕ → ℕ → Order
order_of a b =
    if a == b then same else (if ltb (char_order a) (char_order b) then less else greater)

-- `kstrcmp`: -1, 0 and 1 are the orders.
unfoldable pub kstrcmp : List ℕ → List ℕ → Order
unfolding order_of
kstrcmp [] t = order_of 0 (first t)
kstrcmp (a ∷ s) [] = order_of a 0
kstrcmp (a ∷ s) (b ∷ t) = let rest = kstrcmp s t in if a == b then rest else order_of a b

unfoldable pub ksubstr : List ℕ → List ℕ → Bool
ksubstr [] t = true
ksubstr (a ∷ s) [] = true
ksubstr (a ∷ s) (b ∷ t) = let rest = ksubstr s t in if a == b then rest else false

unfoldable pub strlen : List ℕ → ℕ
strlen [] = 0
strlen (c ∷ s) = 1 + strlen s

-- An argument of `kprintf`: its word on the stack, and the text at that address.
pub record Arg : Type 0 where
  pub word : ℕ
  pub text : List ℕ

-- What the letter `c` behind `%` writes, `none` where `int2str` writes behind its buffer.
unfoldable pub print_arg : ℕ → Arg → Option (List ℕ)
unfolding int2str
print_arg c a =
    if c == 99
    then some ((a.word % 256) ∷ [])
    else (if c == 105
        then int2str a.word 10
        else (if c == 120
            then map (λ s. 48 ∷ 120 ∷ s) (int2str a.word 16)
            else (if c == 98
                then int2str a.word 2
                else (if c == 115 then some a.text else some []))))

-- One text behind the other.
abbrev pub append : Option (List ℕ) → Option (List ℕ) → Option (List ℕ)
append none t = none
append (some s) t = map (λ u. s ++ u) t

-- `kprintf`: what it writes before the 0 at the end, or `none` where it reads behind the arguments
-- or behind the format, or `int2str` writes behind its buffer.
unfoldable pub kprintf : List ℕ → List Arg → Option (List ℕ)
unfolding print_arg
kprintf [] args = some []
kprintf (c ∷ []) args = if c == 37 then none else some (c ∷ [])
kprintf (c ∷ d ∷ fs) [] =
    let rest = kprintf (d ∷ fs) [] in if c == 37 then none else map (λ s. c ∷ s) rest
kprintf (c ∷ d ∷ fs) (a ∷ args) =
    let rest = kprintf (d ∷ fs) (a ∷ args) in
    let after = kprintf fs args in
    if c == 37 then append (print_arg d a) after else map (λ s. c ∷ s) rest

-- `kmemset`, `kmemset16` and `kmemset32` at place `at` of a memory of cells of their width.
unfoldable pub kmemset : List ℕ → ℕ → ℕ → ℕ → List ℕ
kmemset mem at value zero = mem
kmemset mem at value (suc count) = kmemset (set mem at value) (at + 1) value count

-- `kmemcpy` from place `from` of one memory to place `to` of it, upwards.
unfoldable pub kmemcpy : List ℕ → ℕ → ℕ → ℕ → List ℕ
kmemcpy mem to from zero = mem
kmemcpy mem to from (suc count) = kmemcpy (set mem to (get_or mem from 0)) (to + 1) (from + 1) count

-- `kstrncpy`: the bytes it writes, for a source of text with its 0.
unfoldable pub kstrncpy : List ℕ → ℕ → List ℕ
kstrncpy [] count = 0 ∷ []
kstrncpy (c ∷ s) zero = c ∷ []
kstrncpy (c ∷ s) (suc count) = c ∷ kstrncpy s count

unfoldable pub truncate : ℤ → ℤ → ℤ → ℤ
truncate value min max =
    if is_neg (max -ℤ value) then max else (if is_neg (value -ℤ min) then min else value)
