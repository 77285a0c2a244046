-- ===== src/Cpu/Search.antt =====
-- What the search for the multiprocessor tables finds.
use vsop.Base.{
  ℕ, zero, suc, ◌+◌, ◌-◌, ◌≤◌, ◌<◌, ◌≡◌, refl, sym, ◌∙◌, ◌⊎◌, inl, inr, Bool-cases, true, false,
  ◌==◌, arith,
}
use mathlib.Core.Path.{subst}
use vsop.Cpu.{is_signature, slide, mp_slide, or_else, mp_find}

-- Address `p` is the first from `from` on, below `to`, with the signature.
pub record FirstIn (mem : ℕ → ℕ) (from to p : ℕ) : Type 0 where
  pub above : from ≤ p
  pub below : p < to
  pub here : is_signature mem p ≡ true
  pub before : (j : ℕ) → from ≤ j → j < p → is_signature mem j ≡ false

-- No address from `from` on, below `to`, has the signature.
abbrev pub NoneIn : (ℕ → ℕ) → ℕ → ℕ → Type 0
NoneIn mem from to = (j : ℕ) → from ≤ j → j < to → is_signature mem j ≡ false

slide-here :
    (mem : ℕ → ℕ) (from count : ℕ)
    → is_signature mem from ≡ true
    → slide mem from (suc count) ≡ from
unfolding slide
slide-here mem from count h = rw (h, slide) refl

slide-later :
    (mem : ℕ → ℕ) (from count : ℕ)
    → is_signature mem from ≡ false
    → slide mem from (suc count) ≡ slide mem (from + 1) count
unfolding slide
slide-later mem from count h = rw (h, slide) refl

slide-zero : (mem : ℕ → ℕ) (from : ℕ) → slide mem from zero ≡ 0
unfolding slide
slide-zero mem from = refl

first_or_after : (first j : ℕ) → first ≤ j → (j ≡ first) ⊎ (first + 1 ≤ j)
first_or_after first j h = ground arith

step_before :
    (mem : ℕ → ℕ) (from to : ℕ)
    → is_signature mem from ≡ false
    → NoneIn mem (from + 1) to
    → NoneIn mem from to
step_before mem from to h n j low high = elim (first_or_after from j low) [
  | inl e ↦ rw e h
  | inr l ↦ n j l high
]

slide_lem :
    (mem : ℕ → ℕ) (from count : ℕ)
    → FirstIn mem from (from + count) (slide mem from count)
      ⊎ (NoneIn mem from (from + count) × (slide mem from count ≡ 0))
slide_lem mem from zero = inr ((λ j low high. absurd (omega arith)), slide-zero mem from)
slide_lem mem from (suc count) = elim (Bool-cases (is_signature mem from)) [
  | inl h ↦ inl (
      rw (slide-here mem from count h) (record {
        above = omega arith;
        below = omega arith;
        here = h;
        before = λ j low high. absurd (omega arith);
      }))
  | inr h ↦ elim (slide_lem mem (from + 1) count) [
    | inl f ↦ inl (
        rw (slide-later mem from count h) (record {
          above = omega (arith, f.above);
          below = omega (arith, f.below);
          here = f.here;
          before = step_before mem from (slide mem (from + 1) count) h f.before;
        }))
    | inr n ↦ inr (
      step_before mem from (from + suc count) h (λ j low high. n.0 j low (omega arith)),
      slide-later mem from count h ∙ n.1,
    )
  ]
]

mp_slide_lem :
    (mem : ℕ → ℕ) (from to : ℕ)
    → from ≤ to
    → FirstIn mem from to (mp_slide mem from to) ⊎ (NoneIn mem from to × (mp_slide mem from to ≡ 0))
unfolding mp_slide
mp_slide_lem mem from to h =
    let e : from + (to - from) ≡ to = omega arith in
    subst
      (λ t.
        FirstIn mem from t (slide mem from (to - from))
        ⊎ (NoneIn mem from t × (slide mem from (to - from) ≡ 0)))
      e (slide_lem mem from (to - from))

not_zero : (low n : ℕ) → 0 < low → low ≤ n → (n == 0) ≡ false
not_zero low n h k = ground arith

or_else-first : (low a b : ℕ) → 0 < low → low ≤ a → or_else a b ≡ a
unfolding or_else
or_else-first low a b h k = rw (not_zero low a h k) refl

or_else-second : (a b : ℕ) → a ≡ 0 → or_else a b ≡ b
unfolding or_else
or_else-second a b h = rw h refl

mp_find-ranges :
    (mem : ℕ → ℕ)
    → mp_find mem ≡ or_else (mp_slide mem 654336 655360) (mp_slide mem 0xF0000 0xFFFFF)
unfolding mp_find
mp_find-ranges mem = refl

-- mp_find answers the first address with the signature from 639 KiB to 640 KiB, or where there is
-- none the first from 0xF0000 to 0xFFFFF, or 0 where neither range has one.
pub mp_find_lem :
    (mem : ℕ → ℕ)
    → FirstIn mem 654336 655360 (mp_find mem)
      ⊎ (NoneIn mem 654336 655360
          × (FirstIn mem 0xF0000 0xFFFFF (mp_find mem)
              ⊎ (NoneIn mem 0xF0000 0xFFFFF × (mp_find mem ≡ 0))))
mp_find_lem mem = elim (mp_slide_lem mem 654336 655360 (omega arith)) [
  | inl f ↦
      let found =
        mp_find-ranges mem
        ∙ or_else-first 654336 (mp_slide mem 654336 655360) (mp_slide mem 0xF0000 0xFFFFF)
            (omega arith) f.above in
      inl (subst (FirstIn mem 654336 655360) (sym found) f)
  | inr n ↦
      let found =
        mp_find-ranges mem
        ∙ or_else-second (mp_slide mem 654336 655360) (mp_slide mem 0xF0000 0xFFFFF) n.1 in
      inr (
        n.0,
        subst (λ p. FirstIn mem 0xF0000 0xFFFFF p ⊎ (NoneIn mem 0xF0000 0xFFFFF × (p ≡ 0)))
            (sym found) (mp_slide_lem mem 0xF0000 0xFFFFF (omega arith)),
      )
]
