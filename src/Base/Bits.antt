-- ===== src/Base/Bits.antt =====
-- Bits of words: what `|`, `&` and `1 << b` do to each bit, for every width.
use Prim.Native.Nat.{
  ℕ, zero, suc, ◌+◌, ◌-◌, ◌*◌, ◌/◌, ◌%◌, ◌^◌, ◌≤◌, ◌<◌, min, max, bit_and, bit_or,
}
use Prim.Native.Nat.{digits, bit_and-bitwise, bit_or-bitwise}
use mathlib.Core.Path.{◌≡◌, refl}
use native.Mathlib.Nat.{pow-suc, one-le-pow, le_refl}
use native.Mathlib.Omega.{arith}
use vsop.Base.Tests.{◌==◌, if◌then◌else◌}

-- Bit `i` of the word `w`, 0 or 1.
abbrev pub bit : ℕ → ℕ → ℕ
bit w zero = w % 2
bit w (suc i) = bit (w / 2) i

-- The native operations recur on fuel, which may be any number that is large enough.
module _ (single : ℕ → ℕ) (join : ℕ → ℕ → ℕ) where
  enough : (x y k l : ℕ) → x ≤ k → x ≤ l → digits single join k x y ≡ digits single join l x y
  enough zero y zero zero p q = refl
  enough zero y zero (suc l) p q = refl
  enough zero y (suc k) zero p q = refl
  enough zero y (suc k) (suc l) p q = refl
  enough (suc x) y zero l p q = absurd (omega arith)
  enough (suc x) y (suc k) zero p q = absurd (omega arith)
  enough (suc x) y (suc k) (suc l) p q =
      rw (enough (suc x / 2) (y / 2) k l (omega arith) (omega arith))

-- The lowest bit of a disjunction, and the others.
pub or_step : (x y : ℕ) → bit_or x y ≡ max (x % 2) (y % 2) + 2 * bit_or (x / 2) (y / 2)
or_step zero b = omega (arith, bit_or-bitwise 0 b, bit_or-bitwise 0 (b / 2))
or_step (suc a) b = omega (
  arith,
  bit_or-bitwise (suc a) b,
  bit_or-bitwise (suc a / 2) (b / 2),
  enough (λ y. y) max (suc a / 2) (b / 2) a (suc a / 2) (omega arith) (le_refl _),
)

pub and_step : (x y : ℕ) → bit_and x y ≡ min (x % 2) (y % 2) + 2 * bit_and (x / 2) (y / 2)
and_step zero b = omega (arith, bit_and-bitwise 0 b, bit_and-bitwise 0 (b / 2))
and_step (suc a) b = omega (
  arith,
  bit_and-bitwise (suc a) b,
  bit_and-bitwise (suc a / 2) (b / 2),
  enough (λ y. 0) min (suc a / 2) (b / 2) a (suc a / 2) (omega arith) (le_refl _),
)

or-half : (a b : ℕ) → bit_or a b / 2 ≡ bit_or (a / 2) (b / 2)
or-half a b = omega (arith, or_step a b)

and-half : (a b : ℕ) → bit_and a b / 2 ≡ bit_and (a / 2) (b / 2)
and-half a b = omega (arith, and_step a b)

-- `|` and `&` work on each bit alone.
pub bit-bit_or : (a b i : ℕ) → bit (bit_or a b) i ≡ max (bit a i) (bit b i)
bit-bit_or a b zero = omega (arith, or_step a b)
bit-bit_or a b (suc i) = rw (or-half a b) (bit-bit_or (a / 2) (b / 2) i)

pub bit-bit_and : (a b i : ℕ) → bit (bit_and a b) i ≡ min (bit a i) (bit b i)
bit-bit_and a b zero = omega (arith, and_step a b)
bit-bit_and a b (suc i) = rw (and-half a b) (bit-bit_and (a / 2) (b / 2) i)

pub bit-le : (w i : ℕ) → bit w i ≤ 1
bit-le w zero = omega arith
bit-le w (suc i) = bit-le (w / 2) i

pub bit_zero : (i : ℕ) → bit 0 i ≡ 0
bit_zero zero = refl
bit_zero (suc i) = bit_zero i

-- `1 << b` has one bit.
pub bit-pow : (b i : ℕ) → bit (2 ^ b) i ≡ (if b == i then 1 else 0)
bit-pow zero zero = refl
bit-pow zero (suc i) = ground (arith, bit_zero i)
bit-pow (suc b) zero = ground (arith, pow-suc 2 b)
bit-pow (suc b) (suc i) =
    let e : 2 ^ suc b / 2 ≡ 2 ^ b = omega (arith, pow-suc 2 b) in rw e (ground (arith, bit-pow b i))

-- A word of n ones.
bit_ones : (n i : ℕ) → i < n → bit (2 ^ n - 1) i ≡ 1
bit_ones zero i p = absurd (omega arith)
bit_ones (suc n) zero p = omega (arith, pow-suc 2 n, one-le-pow n 2)
bit_ones (suc n) (suc i) p =
    let e : (2 ^ suc n - 1) / 2 ≡ 2 ^ n - 1 = omega (arith, pow-suc 2 n, one-le-pow n 2) in
    rw e (bit_ones n i (omega arith))

pub pow-lt-pow : (b n : ℕ) → b < n → 2 ^ b < 2 ^ n
pow-lt-pow b zero p = absurd (omega arith)
pow-lt-pow zero (suc n) p = omega (arith, pow-suc 2 n, one-le-pow n 2)
pow-lt-pow (suc b) (suc n) p = omega (arith, pow-suc 2 n, pow-suc 2 b, pow-lt-pow b n (omega arith))

-- `~(1 << b)`, as an n-bit word, has all bits but one.
pub bit-mask : (n b i : ℕ) → b < n → i < n → bit (2 ^ n - 1 - 2 ^ b) i ≡ (if b == i then 0 else 1)
bit-mask zero b i p q = absurd (omega arith)
bit-mask (suc n) zero zero p q = ground (arith, pow-suc 2 n, one-le-pow n 2)
bit-mask (suc n) zero (suc i) p q =
    let e : (2 ^ suc n - 1 - 1) / 2 ≡ 2 ^ n - 1 = omega (arith, pow-suc 2 n, one-le-pow n 2) in
    rw e (ground (arith, bit_ones n i))
bit-mask (suc n) (suc b) zero p q = ground (arith, pow-suc 2 n, pow-suc 2 b, pow-lt-pow b n)
bit-mask (suc n) (suc b) (suc i) p q =
    let e : (2 ^ suc n - 1 - 2 ^ suc b) / 2 ≡ 2 ^ n - 1 - 2 ^ b =
      omega (arith, pow-suc 2 n, pow-suc 2 b, pow-lt-pow b n (omega arith)) in
    rw e (ground (arith, bit-mask n b i))

-- Words stay words.
pub bit_or-lt : (n a b : ℕ) → a < 2 ^ n → b < 2 ^ n → bit_or a b < 2 ^ n
bit_or-lt zero a b p q =
    let e : a ≡ 0 = omega arith in let e' : b ≡ 0 = omega arith in rw (e, e') (omega arith)
bit_or-lt (suc n) a b p q = omega (arith, or_step a b, pow-suc 2 n, bit_or-lt n (a / 2) (b / 2))

pub bit_and-lt : (n a b : ℕ) → a < 2 ^ n → b < 2 ^ n → bit_and a b < 2 ^ n
bit_and-lt zero a b p q =
    let e : a ≡ 0 = omega arith in let e' : b ≡ 0 = omega arith in rw (e, e') (omega arith)
bit_and-lt (suc n) a b p q = omega (arith, and_step a b, pow-suc 2 n, bit_and-lt n (a / 2) (b / 2))
