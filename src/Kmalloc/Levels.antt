-- ===== src/Kmalloc/Levels.antt =====
-- list_get over the lists from one on: it ends, and either takes a block or finds none.
use vsop.Base.{
  ℕ, zero, suc, ◌+◌, ◌≤◌, ◌<◌, ◌≡◌, refl, ap, ◌⊎◌, inl, inr, List, [], ◌∷◌, ◌==◌, false, arith,
  length, some,
}
use mathlib.Core.Path.{subst}
use vsop.Kmalloc.{MemAllocator, node_count, get_from}
use vsop.Kmalloc.Weight.{Lists, total}
use vsop.Kmalloc.Chains.{Chain}
use vsop.Kmalloc.Runs.{get_from-end, get_from-miss, get_from-split}
use vsop.Kmalloc.Puts.{each, Puts}
use vsop.Kmalloc.Ends.{put_fuel, list_put-Puts}
use vsop.Kmalloc.Takes.{Sound, Got, Lacks, take_first, take_half}

pub Puts-more : (k enough more most : ℕ) → enough ≤ more → Puts k enough most → Puts k more most
Puts-more k enough more most h puts fuel a ls n s nonzero free few fuelled =
    puts fuel a ls n s nonzero free few (omega arith)

-- Either there is no block of the size or a larger one, and nothing changes, or a block is taken.
abbrev pub Takes : (a b : MemAllocator) (ls : Lists) (k levels addr : ℕ) → Type 0
Takes a b ls k levels addr =
    ((addr ≡ 0) × (b ≡ a) × Lacks ls k)
    ⊎ ((ms : Lists) × Got a b ls ms k addr
        × (1 ≤ levels)
        × (length (ls 0) + 2 ≤ length (ms 0) + levels))

taken_half :
    (fuel most k levels : ℕ) (a b : MemAllocator) (ls ms : Lists) (addr : ℕ)
    → 1 ≤ k
    → k < 15
    → Puts k fuel most
    → total each a.addr ls ≤ most
    → Sound a ls
    → ls k ≡ []
    → get_from fuel levels a (k + 1) ≡ some (addr, b)
    → Got a b ls ms (k + 1) addr
    → length (ls 0) + 2 ≤ length (ms 0) + levels
    → suc levels ≤ length (ls 0) + 2
    → (c : MemAllocator) × (get_from fuel (suc levels) a k ≡ some (addr, c))
      × Takes a c ls k (suc levels) addr
taken_half fuel most k levels a b ls ms addr low high puts t s empty done got spare enough =
    let chain =
      subst (λ ns. Chain a.next (a.heads k) ns 0) empty (s.shape.chains k (omega arith)) in
    let z : (addr == 0) ≡ false = let n = got.nonzero in ground (arith, n) in
    let (m, rest, e) = some_node (ms 0) (omega arith) in
    let (c, ns, put, took, left) =
      take_half fuel most k a b ls ms addr m rest low high puts t s got e in
    let whole = ap length e in
    (
      c,
      get_from-split fuel levels a b c k addr chain done z put,
      inr (ns, took, omega arith, omega (arith, whole, left, spare)),
    )
  where
    some_node : (ns : List ℕ) → 1 ≤ length ns → (m : ℕ) × (rest : List ℕ) × (ns ≡ m ∷ rest)
    some_node [] h = absurd (omega arith)
    some_node (m ∷ rest) h = (m, rest, refl)

pub get_from-Takes :
    (most fuel levels k : ℕ) (a : MemAllocator) (ls : Lists)
    → most < node_count
    → 1 ≤ k
    → k + levels ≡ 16
    → put_fuel most levels ≤ fuel
    → Sound a ls
    → total each a.addr ls ≤ most
    → levels ≤ length (ls 0) + 2
    → (addr : ℕ) × (b : MemAllocator) × (get_from fuel levels a k ≡ some (addr, b))
      × Takes a b ls k levels addr
get_from-Takes most fuel zero k a ls small low e enough s t spare =
    (0, a, get_from-end fuel a k, inl (refl, refl, λ j l h. absurd (omega arith)))
get_from-Takes most fuel (suc levels) k a ls small low e enough s t spare =
    elim (list_cases (ls k)) [
      | inl empty ↦
          let chain =
            subst (λ ns. Chain a.next (a.heads k) ns 0) empty (s.shape.chains k (omega arith)) in
          let (addr, b, done, takes) =
            get_from-Takes most fuel levels (k + 1) a ls small (omega arith) (omega arith)
              (omega (arith, enough)) s t (omega (arith, spare)) in
          elim takes [
            | inl (zero_addr, same, lacks) ↦ (
              addr,
              b,
              get_from-miss fuel levels a b k addr chain done zero_addr,
              inl (zero_addr, same, λ j l h. from_next k empty lacks j l h),
            )
            | inr (ms, got, further, left) ↦
                let puts =
                  Puts-more k (put_fuel most levels) fuel most (omega (arith, enough))
                    (list_put-Puts most levels k small low (omega arith)) in
                let (c, whole, taken) =
                  taken_half fuel most k levels a b ls ms addr low (omega (arith, further)) puts t s
                    empty done got left spare in
                (addr, c, whole, taken)
          ]
      | inr (n, rest, block) ↦
          let (b, ms, done, got, longer) = take_first a ls k n rest low (omega arith) s block in
          (a.addr n, b, done fuel levels, inr (ms, got, omega arith, omega (arith, longer)))
    ]
  where
    list_cases : (ns : List ℕ) → (ns ≡ []) ⊎ ((n : ℕ) × (rest : List ℕ) × (ns ≡ n ∷ rest))
    list_cases [] = inl refl
    list_cases (n ∷ rest) = inr (n, rest, refl)

    same_or_above : (i j : ℕ) → i ≤ j → (i ≡ j) ⊎ (i + 1 ≤ j)
    same_or_above i j h = ground arith

    from_next : (i : ℕ) → ls i ≡ [] → Lacks ls (i + 1) → Lacks ls i
    from_next i empty lacks j l h = elim (same_or_above i j l) [
      | inl e ↦ subst (λ x. ls x ≡ []) e empty
      | inr above ↦ lacks j above h
    ]
