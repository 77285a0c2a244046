-- ===== src/Base/Words.antt =====
-- Fields of words: the masks, shifts and disjunctions that pack and unpack them.
use Prim.Native.Nat.{ℕ, zero, suc, ◌+◌, ◌-◌, ◌*◌, ◌/◌, ◌%◌, ◌^◌, ◌≤◌, ◌<◌, bit_and, bit_or}
use Prim.Native.Nat.{bit_or-bitwise}
use mathlib.Core.Path.{◌≡◌, refl, ◌∙◌, ap}
use native.Mathlib.Nat.{
  pow-suc, one-le-pow, div-add-mod, add-mul-mod_self_left, mod-eq_of_lt, mod-lt, div-div-eq-div-mul,
}
use native.Mathlib.Omega.{arith}
use vsop.Base.Bits.{and_step, or_step}

mod-double : (x m : ℕ) → 0 < m → x % (2 * m) ≡ x % 2 + 2 * (x / 2 % m)
mod-double x m h =
    let low = x % 2 + 2 * (x / 2 % m) in
    let less = mod-lt (x / 2) {m = m} h in
    let parts : x ≡ low + 2 * m * (x / 2 / m) = grind (arith, div-add-mod (x / 2) m) in
    ap (λ y. y % (2 * m)) parts
    ∙ add-mul-mod_self_left low (2 * m) (x / 2 / m)
    ∙ mod-eq_of_lt (omega (arith, less))

double_pow : (n : ℕ) → 2 ^ suc n ≡ 2 * 2 ^ n
double_pow n = omega (arith, pow-suc 2 n)

times_double : (b p : ℕ) → b * (2 * p) ≡ 2 * (b * p)
times_double b p = omega arith

times_pow : (b n : ℕ) → b * 2 ^ suc n ≡ 2 * (b * 2 ^ n)
times_pow b n = rw (double_pow n) (times_double b (2 ^ n))

and_none : (n x : ℕ) → x ≤ n → bit_and x 0 ≡ 0
and_none zero x h = let e : x ≡ 0 = omega arith in rw e refl
and_none (suc n) x h = omega (arith, and_step x 0, and_none n (x / 2) (omega arith))

or_none : (n x : ℕ) → x ≤ n → bit_or x 0 ≡ x
or_none zero x h = let e : x ≡ 0 = omega arith in rw e refl
or_none (suc n) x h = omega (arith, or_step x 0, or_none n (x / 2) (omega arith))

-- `x & (2 ^ n - 1)`
pub bit_and-ones : (n x : ℕ) → bit_and x (2 ^ n - 1) ≡ x % 2 ^ n
bit_and-ones zero x = omega (arith, and_none x x (omega arith))
bit_and-ones (suc n) x =
    let positive = one-le-pow n 2 (omega arith) in
    let half : (2 ^ suc n - 1) / 2 ≡ 2 ^ n - 1 = omega (arith, double_pow n, positive) in
    let ih : bit_and (x / 2) ((2 ^ suc n - 1) / 2) ≡ x / 2 % 2 ^ n =
      rw half (bit_and-ones n (x / 2)) in
    let rest : x % 2 ^ suc n ≡ x % 2 + 2 * (x / 2 % 2 ^ n) =
      rw (double_pow n) (mod-double x (2 ^ n) positive) in
    omega (arith, and_step x (2 ^ suc n - 1), ih, rest, double_pow n, positive)

-- `a | b << n`, for an n-bit word a
pub bit_or-high : (n a b : ℕ) → a < 2 ^ n → bit_or a (b * 2 ^ n) ≡ a + b * 2 ^ n
bit_or-high zero a b h =
    let e : a ≡ 0 = omega arith in
    let f : b * 2 ^ 0 ≡ b = omega arith in rw (e, f) (omega (arith, bit_or-bitwise 0 b))
bit_or-high (suc n) a b h =
    let double : b * 2 ^ suc n ≡ 2 * (b * 2 ^ n) = times_pow b n in
    let half : b * 2 ^ suc n / 2 ≡ b * 2 ^ n = omega (arith, double) in
    let ih : bit_or (a / 2) (b * 2 ^ suc n / 2) ≡ a / 2 + b * 2 ^ n =
      rw half (bit_or-high n (a / 2) b (omega (arith, h, double_pow n))) in
    omega (arith, or_step a (b * 2 ^ suc n), double, ih)

-- `x & (m << n)`
pub bit_and-high : (n x m : ℕ) → bit_and x (m * 2 ^ n) ≡ bit_and (x / 2 ^ n) m * 2 ^ n
bit_and-high zero x m =
    let e : x / 2 ^ 0 ≡ x = omega arith in
    let f : m * 2 ^ 0 ≡ m = omega arith in rw (e, f) (omega arith)
bit_and-high (suc n) x m =
    let double : m * 2 ^ suc n ≡ 2 * (m * 2 ^ n) = times_pow m n in
    let half : m * 2 ^ suc n / 2 ≡ m * 2 ^ n = omega (arith, double) in
    let quotient : x / 2 / 2 ^ n ≡ x / 2 ^ suc n =
      rw (double_pow n) (div-div-eq-div-mul x 2 (2 ^ n)) in
    let ih : bit_and (x / 2) (m * 2 ^ suc n / 2) ≡ bit_and (x / 2 ^ suc n) m * 2 ^ n =
      rw (half, ← quotient) (bit_and-high n (x / 2) m) in
    omega (arith, and_step x (m * 2 ^ suc n), double, ih, times_pow (bit_and (x / 2 ^ suc n) m) n)

-- `b << n | a`, for an n-bit word a
pub bit_or-low : (n a b : ℕ) → a < 2 ^ n → bit_or (b * 2 ^ n) a ≡ b * 2 ^ n + a
bit_or-low zero a b h =
    let e : a ≡ 0 = omega arith in
    let f : b * 2 ^ 0 ≡ b = omega arith in rw (e, f) (omega (arith, or_none b b (omega arith)))
bit_or-low (suc n) a b h =
    let double : b * 2 ^ suc n ≡ 2 * (b * 2 ^ n) = times_pow b n in
    let half : b * 2 ^ suc n / 2 ≡ b * 2 ^ n = omega (arith, double) in
    let ih : bit_or (b * 2 ^ suc n / 2) (a / 2) ≡ b * 2 ^ n + a / 2 =
      rw half (bit_or-low n (a / 2) b (omega (arith, h, double_pow n))) in
    omega (arith, or_step (b * 2 ^ suc n) a, double, ih)
