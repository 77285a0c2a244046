-- ===== src/Util/Compare.antt =====
-- `kstrcmp` and `ksubstr` against what they are for.
use vsop.Base.{
  ℕ, ◌<◌, ◌≡◌, refl, ◌≢◌, ◌⊎◌, inl, inr, ◌∙◌, sym, ap, List, [], ◌∷◌, true, false, arith, ◌==◌,
  Bool-cases, ==_iff,
}
use mathlib.Core.Logic.{◌↔◌}
use vsop.Util.{Order, less, same, greater, order_of, kstrcmp, ksubstr, char_order, first}

-- The bytes of a text: none is 0, each has 8 bits.
abbrev pub IsText : List ℕ → Type 0
IsText [] = Unit
IsText (c ∷ s) = (c ≢ 0) × (c < 256) × IsText s

-- The order of a dictionary over signed bytes, where a text comes before those that go on.
pub data Before : List ℕ → List ℕ → Type 0 where
  ends : {c : ℕ} {s : List ℕ} → char_order 0 < char_order c → Before [] (c ∷ s)
  ended : {c : ℕ} {s : List ℕ} → char_order c < char_order 0 → Before (c ∷ s) []
  differs : {a b : ℕ} {s t : List ℕ} → char_order a < char_order b → Before (a ∷ s) (b ∷ t)
  goes_on : {c : ℕ} {s t : List ℕ} → Before s t → Before (c ∷ s) (c ∷ t)

-- What each answer says of the two texts.
abbrev pub Says : Order → List ℕ → List ℕ → Type 0
Says less s t = Before s t
Says same s t = s ≡ t
Says greater s t = Before t s

order_of-same : (a b : ℕ) → a ≡ b → order_of a b ≡ same
unfolding order_of
order_of-same a b h = ground arith

order_of-cases :
    (a b : ℕ)
    → a < 256
    → b < 256
    → a ≢ b
    → ((order_of a b ≡ less) × (char_order a < char_order b))
      ⊎ ((order_of a b ≡ greater) × (char_order b < char_order a))
unfolding order_of
order_of-cases a b p q n = ground arith

kstrcmp-same : (a b : ℕ) (s t : List ℕ) → a ≡ b → kstrcmp (a ∷ s) (b ∷ t) ≡ kstrcmp s t
unfolding kstrcmp
kstrcmp-same a b s t h = ground arith

kstrcmp-differs : (a b : ℕ) (s t : List ℕ) → a ≢ b → kstrcmp (a ∷ s) (b ∷ t) ≡ order_of a b
unfolding kstrcmp
kstrcmp-differs a b s t h = ground arith

kstrcmp-ends : (s : List ℕ) → kstrcmp [] s ≡ order_of 0 (first s)
unfolding kstrcmp
kstrcmp-ends s = refl

kstrcmp-ended : (c : ℕ) (s : List ℕ) → kstrcmp (c ∷ s) [] ≡ order_of c 0
unfolding kstrcmp
kstrcmp-ended c s = refl

Says-goes_on : (o : Order) (c : ℕ) (s t : List ℕ) → Says o s t → Says o (c ∷ s) (c ∷ t)
Says-goes_on less c s t h = goes_on h
Says-goes_on same c s t h = ap (λ r. c ∷ r) h
Says-goes_on greater c s t h = goes_on h

-- The answer of `kstrcmp` on two texts: 0 for equal ones, and -1 or 1 as the first comes before
-- or behind the second.
pub kstrcmp-Says : (s t : List ℕ) → IsText s → IsText t → Says (kstrcmp s t) s t
kstrcmp-Says [] [] p q = rw (kstrcmp-ends [], order_of-same 0 0 refl) refl
kstrcmp-Says [] (b ∷ t) p q = elim (order_of-cases 0 b (omega arith) q.1 (λ e. q.0 (sym e))) [
  | inl h ↦ rw (kstrcmp-ends (b ∷ t), h.0) (ends h.1)
  | inr h ↦ rw (kstrcmp-ends (b ∷ t), h.0) (ended h.1)
]
kstrcmp-Says (a ∷ s) [] p q = elim (order_of-cases a 0 p.1 (omega arith) p.0) [
  | inl h ↦ rw (kstrcmp-ended a s, h.0) (ended h.1)
  | inr h ↦ rw (kstrcmp-ended a s, h.0) (ends h.1)
]
kstrcmp-Says (a ∷ s) (b ∷ t) p q = elim (Bool-cases (a == b)) [
  | inl h ↦
      let e = (==_iff a b).0 h in
      rw (kstrcmp-same a b s t e, ← e) (Says-goes_on (kstrcmp s t) a s t (kstrcmp-Says s t p.2 q.2))
  | inr h ↦
      let n : a ≢ b = ground arith in
      elim (order_of-cases a b p.1 q.1 n) [
        | inl h ↦ rw (kstrcmp-differs a b s t n, h.0) (differs h.1)
        | inr h ↦ rw (kstrcmp-differs a b s t n, h.0) (differs h.1)
      ]
]

ksubstr-same : (a b : ℕ) (s t : List ℕ) → a ≡ b → ksubstr (a ∷ s) (b ∷ t) ≡ ksubstr s t
unfolding ksubstr
ksubstr-same a b s t h = ground arith

ksubstr-differs : (a b : ℕ) (s t : List ℕ) → a ≢ b → ksubstr (a ∷ s) (b ∷ t) ≡ false
unfolding ksubstr
ksubstr-differs a b s t h = ground arith

-- Text `s` stands at the front of `t`.
abbrev pub IsPrefix : List ℕ → List ℕ → Type 0
IsPrefix [] t = Unit
IsPrefix (a ∷ s) [] = ⊥
IsPrefix (a ∷ s) (b ∷ t) = (a ≡ b) × IsPrefix s t

abbrev pub OnePrefix : List ℕ → List ℕ → Type 0
OnePrefix s t = IsPrefix s t ⊎ IsPrefix t s

ksubstr-ends : (s t : List ℕ) → (s ≡ []) ⊎ (t ≡ []) → ksubstr s t ≡ true
unfolding ksubstr
ksubstr-ends [] t h = refl
ksubstr-ends (a ∷ s) [] h = refl
ksubstr-ends (a ∷ s) (b ∷ t) (inl h) = cc
ksubstr-ends (a ∷ s) (b ∷ t) (inr h) = cc

-- `ksubstr` tells whether one of two texts stands at the front of the other.
pub ksubstr-true : (s t : List ℕ) → (ksubstr s t ≡ true) ↔ OnePrefix s t
ksubstr-true [] t = (λ h. inl tt, λ h. ksubstr-ends [] t (inl refl))
ksubstr-true (a ∷ s) [] = (λ h. inr tt, λ h. ksubstr-ends (a ∷ s) [] (inr refl))
ksubstr-true (a ∷ s) (b ∷ t) = elim (Bool-cases (a == b)) [
  | inl h ↦
      let e = (==_iff a b).0 h in
      let ih = ksubstr-true s t in
      let step = ksubstr-same a b s t e in
      (
        λ x. elim (ih.0 (sym step ∙ x)) [ inl y ↦ inl (e, y) | inr y ↦ inr (sym e, y) ],
        λ x. step ∙ ih.1 (elim x [ inl y ↦ inl y.1 | inr y ↦ inr y.1 ]),
      )
  | inr h ↦
      let n : a ≢ b = ground arith in
      (
        λ x. absurd (ground (arith, x, ksubstr-differs a b s t n)),
        λ x. absurd (elim x [ inl y ↦ n y.0 | inr y ↦ n (sym y.0) ]),
      )
]

pub kstrcmp_self : (s : List ℕ) → kstrcmp s s ≡ same
kstrcmp_self [] = kstrcmp-ends [] ∙ order_of-same 0 0 refl
kstrcmp_self (c ∷ s) = kstrcmp-same c c s s refl ∙ kstrcmp_self s
