-- ===== src/Cpu/Sync.antt =====
-- cpu_sync of kernel/cpu.c: the processors add themselves to a count under a lock and wait until the
-- count is theirs. A step is one processor's way through the section, or one test of its loop.
use vsop.Base.{
  ℕ, zero, suc, ◌+◌, ◌≤◌, ◌<◌, ◌≡◌, refl, ◌≢◌, ◌∙◌, sym, ap, ◌⊎◌, inl, inr, Bool-cases, true, ◌==◌,
  if◌then◌else◌, arith,
}
use vsop.Kmalloc.Weight.{sums, sums-cong, sums-change, sums-zero}

-- Where a processor stands: before the call, in the loop, or behind the call.
pub data SyncPhase : Type 0 where
  arriving waiting released : SyncPhase

-- `awoken_cpu`, and the processors.
pub record SyncState : Type 0 where
  pub awoken_cpu : ℕ
  pub phase : ℕ → SyncPhase

abbrev pub moved : SyncState → ℕ → SyncPhase → ℕ → SyncPhase
moved s i p j = if i == j then p else s.phase j

-- The section of `cpu_sync`.
unfoldable pub cpu_sync_enter : SyncState → ℕ → SyncState
cpu_sync_enter s i = record { awoken_cpu = s.awoken_cpu + 1; phase = moved s i waiting }

-- A test of the loop of `cpu_sync`.
unfoldable pub cpu_sync_test : ℕ → SyncState → ℕ → SyncState
cpu_sync_test count s i =
    if s.awoken_cpu == count then record s { phase = moved s i released } else s

-- The states that processors 0 to `count - 1` reach.
pub data SyncReach (count : ℕ) : SyncState → Type 0 where
  begun : SyncReach count (record { awoken_cpu = 0; phase = λ i. arriving })
  enters :
      (s : SyncState) (i : ℕ)
      → SyncReach count s
      → i < count
      → s.phase i ≡ arriving
      → SyncReach count (cpu_sync_enter s i)
  tests :
      (s : SyncState) (i : ℕ)
      → SyncReach count s
      → s.phase i ≡ waiting
      → SyncReach count (cpu_sync_test count s i)

abbrev arrived : SyncPhase → ℕ
arrived arriving = 0
arrived waiting = 1
arrived released = 1

abbrev all_arrived : SyncState → ℕ → ℕ
all_arrived s n = sums (λ i. arrived (s.phase i)) n

-- The count is that of the processors that have arrived, and is full once one is released.
record IsCounted (count : ℕ) (s : SyncState) : Type 0 where
  pub counted : s.awoken_cpu ≡ all_arrived s count
  pub full : (i : ℕ) → s.phase i ≡ released → s.awoken_cpu ≡ count

sums-most : (g : ℕ → ℕ) (n : ℕ) → ((j : ℕ) → g j ≤ 1) → sums g n ≤ n
unfolding sums
sums-most g zero h = omega arith
sums-most g (suc n) h = omega (arith, h n, sums-most g n h)

sums-fewer : (g : ℕ → ℕ) (n j : ℕ) → ((i : ℕ) → g i ≤ 1) → j < n → g j ≡ 0 → sums g n < n
unfolding sums
sums-fewer g zero j h l z = absurd (omega arith)
sums-fewer g (suc n) j h l z = elim (last_or_below j n l) [
  | inl e ↦ let last = ap g e in omega (arith, last, z, sums-most g n h)
  | inr below ↦ omega (arith, h n, sums-fewer g n j h below z)
]
  where
    last_or_below : (i m : ℕ) → i < suc m → (i ≡ m) ⊎ (i < m)
    last_or_below i m h = ground arith

sums-full : (g : ℕ → ℕ) (n : ℕ) → ((i : ℕ) → i < n → g i ≡ 1) → sums g n ≡ n
unfolding sums
sums-full g zero h = refl
sums-full g (suc n) h = omega (arith, h n (omega arith), sums-full g n (λ i l. h i (omega arith)))

arrived-le : (p : SyncPhase) → arrived p ≤ 1
arrived-le arriving = omega arith
arrived-le waiting = omega arith
arrived-le released = omega arith

moved_self : (s : SyncState) (i : ℕ) (p : SyncPhase) → moved s i p i ≡ p
moved_self s i p = ground arith

moved-ne : (s : SyncState) (i j : ℕ) (p : SyncPhase) → i ≢ j → moved s i p j ≡ s.phase j
moved-ne s i j p d = ground arith

enter-IsCounted :
    (count : ℕ) (s : SyncState) (i : ℕ)
    → i < count
    → s.phase i ≡ arriving
    → IsCounted count s
    → IsCounted count (cpu_sync_enter s i)
unfolding cpu_sync_enter
enter-IsCounted count s i h e c =
    let t = λ (j : ℕ). arrived (moved s i waiting j) in
    let change =
      sums-change (λ j. arrived (s.phase j)) t count i h
        (λ j d. ap arrived (sym (moved-ne s i j waiting (λ q. d (sym q))))) in
    let before = ap arrived e in
    let after = ap arrived (moved_self s i waiting) in
    let fewer =
      sums-fewer (λ j. arrived (s.phase j)) count i (λ j. arrived-le (s.phase j)) h before in
    record {
      counted = omega (arith, c.counted, change, before, after);
      full = λ j f. elim (same_or_not i j) [
        | inl q ↦ absurd (apart (sym (moved_self s i waiting) ∙ ap (moved s i waiting) q ∙ f))
        | inr d ↦
            absurd (omega (arith, c.counted, fewer, c.full j (sym (moved-ne s i j waiting d) ∙ f)))
      ];
    }
  where
    apart : waiting ≡ released → ⊥
    apart e = cc

    same_or_not : (a b : ℕ) → (a ≡ b) ⊎ (a ≢ b)
    same_or_not a b = ground arith

test-IsCounted :
    (count : ℕ) (s : SyncState) (i : ℕ)
    → s.phase i ≡ waiting
    → IsCounted count s
    → IsCounted count (cpu_sync_test count s i)
unfolding cpu_sync_test
test-IsCounted count s i e c = elim (Bool-cases (s.awoken_cpu == count)) [
  | inl equal ↦
      let done : s.awoken_cpu ≡ count = ground (arith, equal) in
      let same : (j : ℕ) → arrived (moved s i released j) ≡ arrived (s.phase j) = λ j.
        elim (same_or_not i j) [
          | inl q ↦
              ap arrived (sym (ap (moved s i released) q) ∙ moved_self s i released)
              ∙ sym (ap arrived (ap s.phase (sym q) ∙ e))
          | inr d ↦ ap arrived (moved-ne s i j released d)
        ] in
      let sum =
        sums-cong (λ j. arrived (moved s i released j)) (λ j. arrived (s.phase j)) count
          (λ j l. same j) in
      rw equal (record { counted = omega (arith, c.counted, sum); full = λ j f. done })
  | inr unequal ↦ rw unequal c
]
  where
    same_or_not : (a b : ℕ) → (a ≡ b) ⊎ (a ≢ b)
    same_or_not a b = ground arith

SyncReach-IsCounted : (count : ℕ) (s : SyncState) → SyncReach count s → IsCounted count s
SyncReach-IsCounted count s begun = record {
  counted = sym (sums-zero (λ j. 0) count (λ j h. refl));
  full = λ i e. absurd cc;
}
SyncReach-IsCounted count s (enters t i r h e) =
    enter-IsCounted count t i h e (SyncReach-IsCounted count t r)
SyncReach-IsCounted count s (tests t i r e) =
    test-IsCounted count t i e (SyncReach-IsCounted count t r)

-- In any order of the steps of `count` processors: once one of them is released from cpu_sync, each
-- of them has arrived.
pub cpu_sync-barrier :
    (count : ℕ) (s : SyncState) (i j : ℕ)
    → SyncReach count s
    → s.phase i ≡ released
    → j < count
    → s.phase j ≢ arriving
cpu_sync-barrier count s i j r out h e =
    let c = SyncReach-IsCounted count s r in
    let full = c.full i out in
    let fewer =
      sums-fewer (λ k. arrived (s.phase k)) count j (λ k. arrived-le (s.phase k)) h
        (ap arrived e) in
    omega (arith, full, fewer, c.counted)

has_arrived : (p : SyncPhase) → p ≢ arriving → arrived p ≡ 1
has_arrived arriving n = absurd (n refl)
has_arrived waiting n = refl
has_arrived released n = refl

-- Once all processors have arrived, a test of the loop releases the processor.
pub cpu_sync-releases :
    (count : ℕ) (s : SyncState) (i : ℕ)
    → SyncReach count s
    → ((j : ℕ) → j < count → s.phase j ≢ arriving)
    → (cpu_sync_test count s i).phase i ≡ released
unfolding cpu_sync_test
cpu_sync-releases count s i r all =
    let c = SyncReach-IsCounted count s r in
    let each_one = λ (j : ℕ) (h : j < count). has_arrived (s.phase j) (all j h) in
    let full = sums-full (λ k. arrived (s.phase k)) count each_one in
    let equal : (s.awoken_cpu == count) ≡ true = ground (arith, full, c.counted) in
    rw equal (moved_self s i released)
