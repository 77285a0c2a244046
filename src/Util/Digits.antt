-- ===== src/Util/Digits.antt =====
-- `int2str`: how much it writes, and the value of that.
use vsop.Base.{
  ℕ, zero, suc, ◌+◌, ◌-◌, ◌*◌, ◌/◌, ◌%◌, ◌^◌, ◌≤◌, ◌<◌, ◌≡◌, refl, ◌∙◌, ap, true, some, ◌⊎◌, inl,
  inr, List, [], ◌∷◌, ◌++◌, arith, length, ltb, if◌then◌else◌,
}
use mathlib.Core.List.{reverse, reverse-cons}
use native.Mathlib.Nat.{
  pow-zero, pow-suc, div-lt_self, mod-lt, div-add-mod', div-lt_iff_lt-mul, div-eq_of_lt,
}
use vsop.Util.{digit_char, digit_loop, int2str}

-- The number that a digit stands for, and that digits stand for, read from the left.
abbrev pub digit_value : ℕ → ℕ
digit_value c = if ltb c 58 then c - 48 else c - 87

abbrev pub value : ℕ → List ℕ → ℕ → ℕ
value base [] acc = acc
value base (c ∷ s) acc = value base s (acc * base + digit_value c)

-- The same from the right.
abbrev value_right : ℕ → List ℕ → ℕ
value_right base [] = 0
value_right base (c ∷ s) = value_right base s * base + digit_value c

value-append :
    (base c acc : ℕ) (s : List ℕ)
    → value base (s ++ c ∷ []) acc ≡ value base s acc * base + digit_value c
value-append base c acc [] = refl
value-append base c acc (d ∷ s) = value-append base c (acc * base + digit_value d) s

value-reverse : (base : ℕ) (s : List ℕ) → value base (reverse s) 0 ≡ value_right base s
value-reverse base [] = refl
value-reverse base (c ∷ s) =
    rw (reverse-cons c s, value-append base c 0 (reverse s), value-reverse base s) refl

digit_value-digit_char : (d : ℕ) → d < 16 → digit_value (digit_char d) ≡ d
unfolding digit_char
digit_value-digit_char d h = ground arith

digit_loop-last :
    (fuel n base : ℕ) → n / base ≡ 0 → digit_loop (suc fuel) n base ≡ digit_char (n % base) ∷ []
unfolding digit_loop
digit_loop-last fuel n base h = rw h refl

digit_loop-more :
    (fuel n base m : ℕ)
    → n / base ≡ suc m
    → digit_loop (suc fuel) n base ≡ digit_char (n % base) ∷ digit_loop fuel (suc m) base
unfolding digit_loop
digit_loop-more fuel n base m h = ground (arith, h)

div-cases : (q : ℕ) → (q ≡ 0) ⊎ ((m : ℕ) × (q ≡ suc m))
div-cases zero = inl refl
div-cases (suc q) = inr (q, refl)

quotient-lt : (n base m : ℕ) → 2 ≤ base → n / base ≡ suc m → suc m < n
quotient-lt zero base m two e =
    absurd (omega (arith, e, div-eq_of_lt {n = 0} {m = base} (omega arith)))
quotient-lt (suc n) base m two e =
    omega (arith, e, div-lt_self {n = suc n} {k = base} (omega arith) two)

-- With more rounds than its number the loop writes all the digits.
digit_loop-value :
    (fuel n base : ℕ)
    → 2 ≤ base
    → base ≤ 16
    → n < fuel
    → value_right base (digit_loop fuel n base) ≡ n
digit_loop-value zero n base two most f = absurd (omega arith)
digit_loop-value (suc fuel) n base two most f =
    let digit = mod-lt n {m = base} (omega arith) in
    let parts = div-add-mod' n base in
    let last = digit_value-digit_char (n % base) (omega arith) in
    elim (div-cases (n / base)) [
      | inl e ↦ rw (digit_loop-last fuel n base e, last) (rw e at parts)
      | inr e ↦
          let less = quotient-lt n base e.0 two e.1 in
          rw
            (
              digit_loop-more fuel n base e.0 e.1,
              last,
              digit_loop-value fuel (suc e.0) base two most (omega arith),
              ← e.1,
            )
            parts
    ]

digit_loop-most :
    (k fuel n base : ℕ)
    → 2 ≤ base
    → n < fuel
    → n < base ^ suc k
    → length (digit_loop fuel n base) ≤ suc k
digit_loop-most k zero n base two f high = absurd (omega arith)
digit_loop-most zero (suc fuel) n base two f high =
    let e =
      digit_loop-last fuel n base
        (div-eq_of_lt {n = n} {m = base} (grind (arith, high, pow-suc base 0, pow-zero base))) in
    omega (arith, ap length e)
digit_loop-most (suc k) (suc fuel) n base two f high =
    let bound : n / base < base ^ suc k =
      (div-lt_iff_lt-mul (omega arith)).1 (rw (pow-suc base (suc k)) at high) in
    elim (div-cases (n / base)) [
      | inl e ↦ omega (arith, ap length (digit_loop-last fuel n base e))
      | inr e ↦
          let less = quotient-lt n base e.0 two e.1 in
          let most = digit_loop-most k fuel (suc e.0) base two (omega arith) (rw e.1 at bound) in
          omega (arith, ap length (digit_loop-more fuel n base e.0 e.1), most)
    ]

int2str-some :
    (n base : ℕ)
    → length (digit_loop (suc n) n base) < 32
    → int2str n base ≡ some (reverse (digit_loop (suc n) n base))
unfolding int2str
int2str-some n base h =
    let fits : ltb (length (digit_loop (suc n) n base)) 32 ≡ true = ground arith in rw fits refl

-- In a base from 2 to 16 a number below base ^ 31 fits the buffer of int2str, and the digits that
-- it writes stand for that number.
pub value-int2str :
    (n base : ℕ)
    → 2 ≤ base
    → base ≤ 16
    → n < base ^ 31
    → (ds : List ℕ) × (int2str n base ≡ some ds) × (value base ds 0 ≡ n)
value-int2str n base two most high =
    let short = digit_loop-most 30 (suc n) n base two (omega arith) high in
    (
      reverse (digit_loop (suc n) n base),
      int2str-some n base (omega (arith, short)),
      value-reverse base (digit_loop (suc n) n base)
          ∙ digit_loop-value (suc n) n base two most (omega arith),
    )
