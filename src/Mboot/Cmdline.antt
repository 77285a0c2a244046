-- ===== src/Mboot/Cmdline.antt =====
-- The parameter in the command line.
use vsop.Base.{
  ℕ, zero, suc, ◌+◌, ◌-◌, ◌%◌, ◌^◌, ◌≤◌, ◌<◌, ◌≡◌, refl, ◌∙◌, ap, inl, inr, Bool-cases, true, false,
  ◌==◌, if◌then◌else◌, List, [], ◌∷◌, ◌++◌, some, length, length-append, leb, arith,
}
use vsop.Util.{ksubstr, first}
use vsop.Mboot.{cmdline_find, max_cpu_param, param_char, mboot_parse_cmdline}

ksubstr-step :
    (a b : ℕ) (s t : List ℕ) → ksubstr (a ∷ s) (b ∷ t) ≡ (if a == b then ksubstr s t else false)
unfolding ksubstr
ksubstr-step a b s t = refl

-- Where a text is long enough, ksubstr says that the other stands at its front.
ksubstr-front :
    (s t : List ℕ) → ksubstr s t ≡ true → length t ≤ length s → (r : List ℕ) × (s ≡ t ++ r)
ksubstr-front s [] h k = (s, refl)
ksubstr-front [] (b ∷ t) h k = absurd (omega arith)
ksubstr-front (a ∷ s) (b ∷ t) h k =
    let same : a ≡ b = ground (arith, ksubstr-step a b s t, h) in
    let rest : ksubstr s t ≡ true = ground (arith, ksubstr-step a b s t, h) in
    let (r, e) = ksubstr-front s t rest (omega arith) in (r, λ i. same i ∷ e i)

ksubstr-append : (t r : List ℕ) → ksubstr (t ++ r) t ≡ true
unfolding ksubstr
ksubstr-append [] [] = refl
ksubstr-append [] (c ∷ r) = refl
ksubstr-append (a ∷ t) r = let e : (a == a) ≡ true = ground arith in rw e (ksubstr-append t r)

find-here :
    (c : ℕ) (s t : List ℕ) → ksubstr (c ∷ s) t ≡ true → cmdline_find (c ∷ s) t ≡ some (c ∷ s)
unfolding cmdline_find
find-here c s t h = rw (h, cmdline_find) refl

find-later :
    (c : ℕ) (s t : List ℕ) → ksubstr (c ∷ s) t ≡ false → cmdline_find (c ∷ s) t ≡ cmdline_find s t
unfolding cmdline_find
find-later c s t h = rw (h, cmdline_find) refl

-- Where a text occurs in the command line, cmdline_find stops at an occurrence.
cmdline_find-occurrence :
    (pre t rest : List ℕ)
    → 0 < length t
    → (r : List ℕ) × (cmdline_find (pre ++ (t ++ rest)) t ≡ some (t ++ r))
cmdline_find-occurrence [] [] rest h = absurd (omega arith)
cmdline_find-occurrence [] (a ∷ t) rest h =
    (rest, find-here a (t ++ rest) (a ∷ t) (ksubstr-append (a ∷ t) rest))
cmdline_find-occurrence (c ∷ pre) t rest h =
    elim (Bool-cases (ksubstr (c ∷ (pre ++ (t ++ rest))) t)) [
      | inl y ↦
          let longer : length t ≤ length (c ∷ (pre ++ (t ++ rest))) =
            omega (arith, length-append pre (t ++ rest), length-append t rest) in
          let (r, e) = ksubstr-front (c ∷ (pre ++ (t ++ rest))) t y longer in
          (r, find-here c (pre ++ (t ++ rest)) t y ∙ ap some e)
      | inr n ↦
          let (r, e) = cmdline_find-occurrence pre t rest h in
          (r, find-later c (pre ++ (t ++ rest)) t n ∙ e)
    ]

parse-found :
    (flags behind maximum_cpu : ℕ) (cmdline s : List ℕ)
    → cmdline_find cmdline max_cpu_param ≡ some s
    → mboot_parse_cmdline (suc flags) behind cmdline maximum_cpu
      ≡ (param_char behind s + 2 ^ 8 - 48) % 2 ^ 8
unfolding mboot_parse_cmdline
parse-found flags behind maximum_cpu cmdline s h = rw (h, mboot_parse_cmdline) refl

-- With a flag set and "max_cpu=" in the command line, the maximum number of processors becomes the
-- character behind an occurrence of it, 0 at the end, less that of the digit 0, in 8 bits.
pub mboot_parse_cmdline_lem :
    (flags behind maximum_cpu : ℕ) (pre rest : List ℕ)
    → 0 < flags
    → (s : List ℕ) × (cmdline_find (pre ++ (max_cpu_param ++ rest)) max_cpu_param
        ≡ some (max_cpu_param ++ s))
      × (mboot_parse_cmdline flags behind (pre ++ (max_cpu_param ++ rest)) maximum_cpu
          ≡ (first s + 2 ^ 8 - 48) % 2 ^ 8)
mboot_parse_cmdline_lem zero behind maximum_cpu pre rest h = absurd (omega arith)
mboot_parse_cmdline_lem (suc flags) behind maximum_cpu pre rest h =
    let (s, e) = cmdline_find-occurrence pre max_cpu_param rest (omega arith) in
    (
      s,
      e,
      parse-found flags behind maximum_cpu (pre ++ (max_cpu_param ++ rest)) (max_cpu_param ++ s) e
          ∙ ap (λ c. (c + 2 ^ 8 - 48) % 2 ^ 8) (char-param behind s),
    )
  where
    char-param : (behind : ℕ) (s : List ℕ) → param_char behind (max_cpu_param ++ s) ≡ first s
    char-param behind s =
        let long : leb 8 (length (max_cpu_param ++ s)) ≡ true = ground (arith) in rw long refl
