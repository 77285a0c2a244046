-- ===== src/Base/Loops.antt =====
-- Counted loops, with their invariant rule.
use Prim.Native.Nat.{ℕ, zero, suc, ◌+◌, ◌≤◌, ◌<◌}
use mathlib.Core.Path.{◌≡◌}
use mathlib.Core.Path.{refl, ◌∙◌}
use mathlib.Core.Logic.{◌⊎◌, inl, inr}
use mathlib.Core.List.{List}
use native.Mathlib.Omega.{arith}
use vsop.Base.Lists.{length, get_or, set, get_or-set_self, get_or-set_ne, length-set}

-- `for (i = first; i < first + count; ++i) s = step(i, s);`
unfoldable pub iterate {ℓ} : {S : Type ℓ} → (ℕ → S → S) → (first count : ℕ) → S → S
iterate step first zero s = s
iterate step first (suc count) s = iterate step (first + 1) count (step first s)

-- What each round of the loop keeps holds at its end.
pub iterate_invariant {ℓ κ} :
    {S : Type ℓ} (Holds : ℕ → S → Type κ) {step : ℕ → S → S} (first count last : ℕ) {s : S}
    → first + count ≡ last
    → Holds first s
    → ((i : ℕ) (t : S) → first ≤ i → i < last → Holds i t → Holds (i + 1) (step i t))
    → Holds last (iterate step first count s)
unfolding iterate
iterate_invariant Holds first zero last e now keep =
    let done : first ≡ last = omega arith in rw (← done) now
iterate_invariant Holds first (suc count) last e now keep =
    iterate_invariant Holds (first + 1) count last (omega arith)
      (keep first _ (omega arith) (omega arith) now)
      (λ i t low high h. keep i t (omega arith) high h)

-- A property of all numbers below `suc k`, from 0 and the successors.
pub below-suc {ℓ} :
    (P : ℕ → Type ℓ) (k : ℕ) → P zero → ((j : ℕ) → j < k → P (suc j)) → (j : ℕ) → j < suc k → P j
below-suc P k first rest zero h = first
below-suc P k first rest (suc j) h = rest j (omega arith)

-- A loop that writes `f i` to cell `i` of an array.
abbrev pub fill {ℓ} : {A : Type ℓ} → (ℕ → A) → (first count : ℕ) → List A → List A
fill f first count xs = iterate (λ i ys. set ys i (f i)) first count xs

pub fill-outside {ℓ} :
    {A : Type ℓ} (f : ℕ → A) (first count : ℕ) (xs : List A) (j : ℕ) (d : A)
    → (j < first) ⊎ (first + count ≤ j)
    → get_or (fill f first count xs) j d ≡ get_or xs j d
unfolding iterate
fill-outside f first zero xs j d h = refl
fill-outside f first (suc count) xs j d h =
    fill-outside f (first + 1) count (set xs first (f first)) j d (ground arith)
    ∙ get_or-set_ne xs first j (f first) d (ground arith)

lowest-or_later : (first j : ℕ) → first ≤ j → (j ≡ first) ⊎ (first + 1 ≤ j)
lowest-or_later first j h = ground arith

pub fill-inside {ℓ} :
    {A : Type ℓ} (f : ℕ → A) (first count : ℕ) (xs : List A) (j : ℕ) (d : A)
    → first + count ≤ length xs
    → first ≤ j
    → j < first + count
    → get_or (fill f first count xs) j d ≡ f j
unfolding iterate
fill-inside f first zero xs j d fits low high = absurd (omega arith)
fill-inside f first (suc count) xs j d fits low high = elim (lowest-or_later first j low) [
  | inl e ↦
      fill-outside f (first + 1) count (set xs first (f first)) j d (inl (omega arith))
      ∙ rw e (get_or-set_self xs first (f first) d (omega arith))
  | inr l ↦
      fill-inside f (first + 1) count (set xs first (f first)) j d
        (omega (arith, length-set xs first (f first))) l (omega arith)
]
