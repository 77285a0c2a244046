-- ===== src/Cpu/Count.antt =====
-- The list of processors.
use vsop.Base.{
  ℕ, zero, suc, ◌+◌, ◌-◌, ◌<◌, ◌%◌, ◌^◌, ◌≡◌, refl, ◌∙◌, sym, ◌≤◌, some, ap, ap₂, inl, inr,
  Bool-cases, true, false, ◌==◌, ltb, List, [], ◌∷◌, length, get_or, set, get_or-set_self,
  get_or-set_ne, length-set, if◌then◌else◌, arith,
}
use mathlib.Core.Option.{map}
use mathlib.Core.Path.{subst}
use vsop.Cpu.{Cpus, MpEntry, find_from, capped, cpu_find}

-- The processors are the entries in front of the first that is none.
unfoldable pub processors : List MpEntry → List MpEntry
processors [] = []
processors (e ∷ es) = let rest = processors es in if e.type == 0 then e ∷ rest else []

no_entry : MpEntry
no_entry = record { type = 1; lapic_id = 0 }

-- The state behind round `i` for entry `e`.
abbrev entered : (ℕ → ℕ) → ℕ → MpEntry → Cpus → Cpus
entered kmalloc i e c = record {
  cpu_stack = set c.cpu_stack e.lapic_id ((kmalloc i + 4096 - 16) % 2 ^ 32);
  cpu_mapping = set c.cpu_mapping i e.lapic_id;
  num_of_cpu = c.num_of_cpu + 1;
  maximum_cpu = c.maximum_cpu;
}

-- What the loop leaves from round `i` on.
record Finds (i : ℕ) (ps : List MpEntry) (c d : Cpus) : Type 0 where
  count : d.num_of_cpu ≡ c.num_of_cpu + length ps
  maximum : d.maximum_cpu ≡ c.maximum_cpu
  mapping :
      (j : ℕ) (e : MpEntry)
      → j < length ps
      → i + j < length c.cpu_mapping
      → get_or d.cpu_mapping (i + j) 0 ≡ (get_or ps j e).lapic_id
  before : (j : ℕ) → j < i → get_or d.cpu_mapping j 0 ≡ get_or c.cpu_mapping j 0

processors-processor :
    (e : MpEntry) (es : List MpEntry)
    → (e.type == 0) ≡ true
    → processors (e ∷ es) ≡ e ∷ processors es
unfolding processors
processors-processor e es h = rw h refl

processors-other :
    (e : MpEntry) (es : List MpEntry) → (e.type == 0) ≡ false → processors (e ∷ es) ≡ []
unfolding processors
processors-other e es h = rw h refl

find-none : (kmalloc : ℕ → ℕ) (i : ℕ) (c : Cpus) → find_from kmalloc i [] c ≡ some c
unfolding find_from
find-none kmalloc i c = refl

find-processor :
    (kmalloc : ℕ → ℕ) (i : ℕ) (e : MpEntry) (es : List MpEntry) (c : Cpus)
    → (e.type == 0) ≡ true
    → e.lapic_id < length c.cpu_stack
    → i < length c.cpu_mapping
    → find_from kmalloc i (e ∷ es) c ≡ find_from kmalloc (i + 1) es (entered kmalloc i e c)
unfolding find_from
find-processor kmalloc i e es c h s m =
    let in_stack : ltb e.lapic_id (length c.cpu_stack) ≡ true = ground arith in
    let in_mapping : ltb i (length c.cpu_mapping) ≡ true = ground arith in
    rw (h, in_stack, in_mapping, find_from) refl

find-other :
    (kmalloc : ℕ → ℕ) (i : ℕ) (e : MpEntry) (es : List MpEntry) (c : Cpus)
    → (e.type == 0) ≡ false
    → find_from kmalloc i (e ∷ es) c ≡ some c
unfolding find_from
find-other kmalloc i e es c h = rw (h, find_from) refl

Finds-none : (i : ℕ) (c : Cpus) → Finds i [] c c
Finds-none i c = record {
  count = omega arith;
  maximum = refl;
  mapping = λ j e h. absurd (omega arith);
  before = λ j h. refl;
}

Finds-step :
    (kmalloc : ℕ → ℕ) (i : ℕ) (e : MpEntry) (ps : List MpEntry) (c d : Cpus)
    → Finds (i + 1) ps (entered kmalloc i e c) d
    → Finds i (e ∷ ps) c d
Finds-step kmalloc i e ps c d f = record {
  count = omega (arith, f.count);
  maximum = f.maximum;
  mapping = entries;
  before =
      λ j h. f.before j (omega arith) ∙ get_or-set_ne c.cpu_mapping i j e.lapic_id 0 (omega arith);
}
  where
    entries :
        (j : ℕ) (none : MpEntry)
        → j < length (e ∷ ps)
        → i + j < length c.cpu_mapping
        → get_or d.cpu_mapping (i + j) 0 ≡ (get_or (e ∷ ps) j none).lapic_id
    entries zero none h k =
        let z : i + 0 ≡ i = omega arith in
        rw z (f.before i (omega arith) ∙ get_or-set_self c.cpu_mapping i e.lapic_id 0 (omega arith))
    entries (suc j) none h k =
        let z : i + suc j ≡ i + 1 + j = omega arith in
        rw z (f.mapping j none (omega arith) (omega (arith, length-set c.cpu_mapping i e.lapic_id)))

-- Each processor has its place in the tables.
record Fits (i : ℕ) (ps : List MpEntry) (c : Cpus) : Type 0 where
  rounds : i + length ps ≤ length c.cpu_mapping
  identifiers :
      (j : ℕ) (e : MpEntry) → j < length ps → (get_or ps j e).lapic_id < length c.cpu_stack

Fits-step :
    (kmalloc : ℕ → ℕ) (i : ℕ) (e : MpEntry) (ps : List MpEntry) (c : Cpus)
    → Fits i (e ∷ ps) c
    → Fits (i + 1) ps (entered kmalloc i e c)
Fits-step kmalloc i e ps c f = record {
  rounds = omega (arith, f.rounds, length-set c.cpu_mapping i e.lapic_id);
  identifiers = λ j d h.
      let kept = length-set c.cpu_stack e.lapic_id ((kmalloc i + 4096 - 16) % 2 ^ 32) in
      omega (arith, f.identifiers (suc j) d (omega arith), kept);
}

find_from-Finds :
    (kmalloc : ℕ → ℕ) (i : ℕ) (es : List MpEntry) (c : Cpus)
    → Fits i (processors es) c
    → (d : Cpus) × (find_from kmalloc i es c ≡ some d) × Finds i (processors es) c d
unfolding processors
find_from-Finds kmalloc i [] c f = (c, find-none kmalloc i c, Finds-none i c)
find_from-Finds kmalloc i (e ∷ es) c f = elim (Bool-cases (e.type == 0)) [
  | inl h ↦
      let ps = processors-processor e es h in
      let fits : Fits i (e ∷ processors es) c = subst (λ qs. Fits i qs c) ps f in
      let (d, found, finds) =
        find_from-Finds kmalloc (i + 1) es (entered kmalloc i e c)
          (Fits-step kmalloc i e (processors es) c fits) in
      (
        d,
        find-processor kmalloc i e es c h (fits.identifiers 0 e (omega arith))
              (omega (arith, fits.rounds))
            ∙ found,
        subst (λ qs. Finds i qs c d) (sym ps) (Finds-step kmalloc i e (processors es) c d finds),
      )
  | inr h ↦ (
    c,
    find-other kmalloc i e es c h,
    subst (λ qs. Finds i qs c c) (sym (processors-other e es h)) (Finds-none i c),
  )
]

plus_zero : (j : ℕ) → j ≡ 0 + j
plus_zero j = omega arith

abbrev pub lower : ℕ → ℕ → ℕ
lower a b = if ltb a b then a else b

capped-fields :
    (c : Cpus)
    → ((capped c).num_of_cpu ≡ c.num_of_cpu)
      × ((capped c).maximum_cpu ≡ lower c.num_of_cpu c.maximum_cpu)
      × ((capped c).cpu_mapping ≡ c.cpu_mapping)
capped-fields c = elim (Bool-cases (ltb c.num_of_cpu c.maximum_cpu)) [
  | inl h ↦ rw h (refl, refl, refl)
  | inr h ↦ rw h (refl, refl, refl)
]

-- Where the processors in front of the first other entry fit the table of the mapping, and their
-- identifiers the table of the stacks, cpu_find writes behind neither: it counts those processors,
-- lowers the maximum to that count where it is higher, and maps the number of each to the
-- identifier in its entry.
pub cpu_find_lem :
    (kmalloc : ℕ → ℕ) (es : List MpEntry) (c : Cpus)
    → length (processors es) ≤ length c.cpu_mapping
    → ((j : ℕ) (e : MpEntry)
        → j < length (processors es)
        → (get_or (processors es) j e).lapic_id < length c.cpu_stack)
    → (d : Cpus) × (cpu_find kmalloc es c ≡ some d)
      × (d.num_of_cpu ≡ length (processors es))
      × (d.maximum_cpu ≡ lower (length (processors es)) c.maximum_cpu)
      × ((j : ℕ) (e : MpEntry)
          → j < length (processors es)
          → get_or d.cpu_mapping j 0 ≡ (get_or (processors es) j e).lapic_id)
unfolding cpu_find
cpu_find_lem kmalloc es c rounds identifiers =
    let start = record c { num_of_cpu = 0; cpu_mapping = set c.cpu_mapping 0 0 } in
    let same = length-set c.cpu_mapping 0 0 in
    let fits : Fits 0 (processors es) start = record {
      rounds = omega (arith, rounds, same);
      identifiers = identifiers;
    } in
    let (d, found, f) = find_from-Finds kmalloc 0 es start fits in
    let (count, maximum, mapping) = capped-fields d in
    (
      capped d,
      ap (map capped) found,
      count ∙ f.count ∙ omega arith,
      maximum ∙ ap₂ lower (f.count ∙ omega arith) f.maximum,
      λ j e h.
          ap (λ m. get_or m j 0) mapping
          ∙ ap (λ i. get_or d.cpu_mapping i 0) (plus_zero j)
          ∙ f.mapping j e h (omega (arith, rounds, same)),
    )
