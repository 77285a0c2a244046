-- ===== src/Process/Search.antt =====
-- What the searches in the table of processes find.
use vsop.Base.{
  ℕ, zero, suc, ◌+◌, ◌≡◌, refl, ◌≢◌, ◌∙◌, ◌⊎◌, inl, inr, sym, List, [], ◌∷◌, true, false, Option,
  none, some, arith, Bool-cases,
}
use vsop.Util.{Order, less, same, greater, kstrcmp}
use mathlib.Core.Path.{subst}
use mathlib.Core.Bool.{false≢true}
use vsop.Util.Compare.{IsText, Says, kstrcmp-Says, kstrcmp_self}
use vsop.Process.{Process, next_from, find_next_pid, has_name, by_name, proc_get_by_name}

abbrev pub IsUsed : Option Process → Type 0
IsUsed none = ⊥
IsUsed (some p) = Unit

-- Entry `k` is the first that is free.
abbrev pub FirstFree : List (Option Process) → ℕ → Type 0
FirstFree [] k = ⊥
FirstFree (p ∷ ps) zero = p ≡ none
FirstFree (p ∷ ps) (suc k) = IsUsed p × FirstFree ps k

abbrev pub AllUsed : List (Option Process) → Type 0
AllUsed [] = Unit
AllUsed (p ∷ ps) = IsUsed p × AllUsed ps

next_from-cases :
    (ps : List (Option Process)) (i : ℕ)
    → ((k : ℕ) × (next_from ps i ≡ i + k) × FirstFree ps k) ⊎ ((next_from ps i ≡ 0) × AllUsed ps)
unfolding next_from
next_from-cases [] i = inr (refl, tt)
next_from-cases (none ∷ ps) i = inl (0, omega arith, refl)
next_from-cases (some p ∷ ps) i = elim (next_from-cases ps (i + 1)) [
  | inl h ↦ inl (suc h.0, omega (arith, h.1), (tt, h.2))
  | inr h ↦ inr (h.0, (tt, h.1))
]

-- `find_next_pid` answers the number of the first free entry, or 0 when all are used.
pub find_next_pid_lem :
    (ps : List (Option Process))
    → FirstFree ps (find_next_pid ps) ⊎ ((find_next_pid ps ≡ 0) × AllUsed ps)
unfolding find_next_pid
find_next_pid_lem ps = elim (next_from-cases ps 0) [
  | inl h ↦ let e : next_from ps 0 ≡ h.0 = omega (arith, h.1) in inl (rw e h.2)
  | inr h ↦ inr h
]

-- All names of the table are texts.
abbrev pub HasTexts : List (Option Process) → Type 0
HasTexts [] = Unit
HasTexts (none ∷ ps) = HasTexts ps
HasTexts (some p ∷ ps) = IsText p.name × HasTexts ps

-- The first process of the table with the name is the result.
abbrev pub FirstNamed : List ℕ → List (Option Process) → Option Process → Type 0
FirstNamed name [] r = r ≡ none
FirstNamed name (none ∷ ps) r = FirstNamed name ps r
FirstNamed name (some p ∷ ps) r =
    ((name ≡ p.name) × (r ≡ some p)) ⊎ ((name ≢ p.name) × FirstNamed name ps r)

has_name-true : (name : List ℕ) (p : Process) → kstrcmp name p.name ≡ same → has_name name p ≡ true
has_name-true name p h = rw (has_name, h) refl

same-equal :
    (o : Order) (s t : List ℕ) → Says o s t → elim o [ same ↦ true | _ ↦ false ] ≡ true → s ≡ t
same-equal less s t h e = absurd (false≢true e)
same-equal same s t h e = h
same-equal greater s t h e = absurd (false≢true e)

-- The test is the equality of the texts.
named-cases :
    (name : List ℕ) (p : Process)
    → IsText name
    → IsText p.name
    → ((has_name name p ≡ true) × (name ≡ p.name)) ⊎ ((has_name name p ≡ false) × (name ≢ p.name))
named-cases name p h k = elim (Bool-cases (has_name name p)) [
  | inl e ↦ inl (e, same-equal (kstrcmp name p.name) name p.name (kstrcmp-Says name p.name h k) e)
  | inr e ↦ inr (
    e,
    λ q.
        false≢true
          (sym e ∙ has_name-true name p (subst (λ t. kstrcmp name t ≡ same) q (kstrcmp_self name))),
  )
]

by_name-yes :
    (name : List ℕ) (p : Process) (ps : List (Option Process))
    → has_name name p ≡ true
    → by_name name (some p ∷ ps) ≡ some p
unfolding by_name
by_name-yes name p ps h = rw (by_name, h) refl

by_name-no :
    (name : List ℕ) (p : Process) (ps : List (Option Process))
    → has_name name p ≡ false
    → by_name name (some p ∷ ps) ≡ by_name name ps
unfolding by_name
by_name-no name p ps h = rw (by_name, h) refl

by_name-FirstNamed :
    (name : List ℕ) (ps : List (Option Process))
    → IsText name
    → HasTexts ps
    → FirstNamed name ps (by_name name ps)
unfolding by_name
by_name-FirstNamed name [] h k = refl
by_name-FirstNamed name (none ∷ ps) h k = by_name-FirstNamed name ps h k
by_name-FirstNamed name (some p ∷ ps) h k = elim (named-cases name p h k.0) [
  | inl e ↦ inl (e.1, by_name-yes name p ps e.0)
  | inr e ↦ inr (e.1, rw (by_name-no name p ps e.0) (by_name-FirstNamed name ps h k.1))
]

-- With texts for names, `proc_get_by_name` answers the first process behind number 0 that has the
-- name, or a null pointer when none has.
pub proc_get_by_name_lem :
    (name : List ℕ) (p : Option Process) (ps : List (Option Process))
    → IsText name
    → HasTexts ps
    → FirstNamed name ps (proc_get_by_name name (p ∷ ps))
unfolding proc_get_by_name
proc_get_by_name_lem name p ps h k = by_name-FirstNamed name ps h k
