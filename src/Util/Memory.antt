-- ===== src/Util/Memory.antt =====
-- What `kmemset`, `kmemcpy` and `kstrncpy` leave in memory.
use vsop.Base.{
  ℕ, zero, suc, ◌+◌, ◌≤◌, ◌<◌, ◌≡◌, refl, ◌⊎◌, inl, inr, ◌∙◌, ap, List, [], ◌∷◌, ◌++◌, arith,
  length, set, get_or, take, get_or-set_self, get_or-set_ne, length-set,
}
use vsop.Util.{kmemset, kmemcpy, kstrncpy}

pub length-kmemset : (mem : List ℕ) (at v n : ℕ) → length (kmemset mem at v n) ≡ length mem
unfolding kmemset
length-kmemset mem at v zero = refl
length-kmemset mem at v (suc n) = length-kmemset (set mem at v) (at + 1) v n ∙ length-set mem at v

-- `kmemset` changes no cell before or behind its range.
pub kmemset-outside :
    (mem : List ℕ) (at v n j d : ℕ)
    → (j < at) ⊎ (at + n ≤ j)
    → get_or (kmemset mem at v n) j d ≡ get_or mem j d
unfolding kmemset
kmemset-outside mem at v zero j d h = refl
kmemset-outside mem at v (suc n) j d h =
    kmemset-outside (set mem at v) (at + 1) v n j d (ground arith)
    ∙ get_or-set_ne mem at j v d (ground arith)

first_or_later : (at j : ℕ) → at ≤ j → (j ≡ at) ⊎ (at + 1 ≤ j)
first_or_later at j h = ground arith

pub kmemset-inside :
    (mem : List ℕ) (at v n j d : ℕ)
    → at + n ≤ length mem
    → at ≤ j
    → j < at + n
    → get_or (kmemset mem at v n) j d ≡ v
unfolding kmemset
kmemset-inside mem at v zero j d fits low high = absurd (omega arith)
kmemset-inside mem at v (suc n) j d fits low high = elim (first_or_later at j low) [
  | inl e ↦
      kmemset-outside (set mem at v) (at + 1) v n j d (inl (omega arith))
      ∙ rw e (get_or-set_self mem at v d (omega arith))
  | inr l ↦
      kmemset-inside (set mem at v) (at + 1) v n j d (omega (arith, length-set mem at v)) l
        (omega arith)
]

-- A range that lies inside the memory holds the value afterwards, and nothing else changes.
pub kmemset_lem :
    (mem : List ℕ) (at v n j : ℕ)
    → at + n ≤ length mem
    → (at ≤ j → j < at + n → get_or (kmemset mem at v n) j 0 ≡ v)
      × ((j < at) ⊎ (at + n ≤ j) → get_or (kmemset mem at v n) j 0 ≡ get_or mem j 0)
kmemset_lem mem at v n j fits = (kmemset-inside mem at v n j 0 fits, kmemset-outside mem at v n j 0)

pub kmemcpy-outside :
    (mem : List ℕ) (to from n j : ℕ)
    → (j < to) ⊎ (to + n ≤ j)
    → get_or (kmemcpy mem to from n) j 0 ≡ get_or mem j 0
unfolding kmemcpy
kmemcpy-outside mem to from zero j h = refl
kmemcpy-outside mem to from (suc n) j h =
    kmemcpy-outside (set mem to (get_or mem from 0)) (to + 1) (from + 1) n j (ground arith)
    ∙ get_or-set_ne mem to j (get_or mem from 0) 0 (ground arith)

kmemcpy-inside :
    (mem : List ℕ) (to from n i p q : ℕ)
    → from + n ≤ length mem
    → to ≤ from
    → i < n
    → p ≡ to + i
    → q ≡ from + i
    → get_or (kmemcpy mem to from n) p 0 ≡ get_or mem q 0
unfolding kmemcpy
kmemcpy-inside mem to from zero i p q fits down low e f = absurd (omega arith)
kmemcpy-inside mem to from (suc n) zero p q fits down low e f =
    let here : p ≡ to = omega arith in
    let there : q ≡ from = omega arith in
    rw (here, there)
      (kmemcpy-outside (set mem to (get_or mem from 0)) (to + 1) (from + 1) n to (inl (omega arith))
        ∙ get_or-set_self mem to (get_or mem from 0) 0 (omega arith))
kmemcpy-inside mem to from (suc n) (suc i) p q fits down low e f =
    let mem' = set mem to (get_or mem from 0) in
    kmemcpy-inside mem' (to + 1) (from + 1) n i p q
      (omega (arith, length-set mem to (get_or mem from 0))) (omega arith) (omega arith)
      (omega arith) (omega arith)
    ∙ get_or-set_ne mem to q (get_or mem from 0) 0 (omega arith)

-- A copy to a lower or the same place, the ranges overlapping or not: the cells of the target are
-- the source's before the call, and nothing else changes.
pub kmemcpy_lem :
    (mem : List ℕ) (to from n : ℕ)
    → from + n ≤ length mem
    → to ≤ from
    → ((i : ℕ) → i < n → get_or (kmemcpy mem to from n) (to + i) 0 ≡ get_or mem (from + i) 0)
      × ((j : ℕ) → (j < to) ⊎ (to + n ≤ j) → get_or (kmemcpy mem to from n) j 0 ≡ get_or mem j 0)
kmemcpy_lem mem to from n fits down = (
  λ i h. kmemcpy-inside mem to from n i (to + i) (from + i) fits down h refl refl,
  λ j h. kmemcpy-outside mem to from n j h,
)

-- `kstrncpy` writes the first `count + 1` bytes of the text with its 0: one more than it is given.
pub kstrncpy_lem : (s : List ℕ) (count : ℕ) → kstrncpy s count ≡ take (suc count) (s ++ 0 ∷ [])
unfolding kstrncpy
kstrncpy_lem [] zero = refl
kstrncpy_lem [] (suc count) = refl
kstrncpy_lem (c ∷ s) zero = refl
kstrncpy_lem (c ∷ s) (suc count) = ap (λ r. c ∷ r) (kstrncpy_lem s count)
