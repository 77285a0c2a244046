-- ===== src/Locks/Exclusion.antt =====
-- At most one processor is inside a section at a time.
use vsop.Base.{ℕ, ◌≡◌, ◌≢◌, arith}
use vsop.Locks.{
  section_enter_lem, section_leave, inside, System, Step, call, swap, swap_fails, spin, spin_ends,
  leave, Reach, here, next, idle,
}

-- The lock is 0 only when nobody is inside, and nobody is inside with another.
pub record IsExclusive (s : System) : Type 0 where
  pub free : s.lock ≡ 0 → (i : ℕ) → s.phase i ≢ inside
  pub alone : (i j : ℕ) → s.phase i ≡ inside → s.phase j ≡ inside → i ≡ j

Step-IsExclusive : {s t : System} → Step s t → IsExclusive s → IsExclusive t
unfolding section_leave
Step-IsExclusive (call i p e) x = rw e (record {
  free = λ z j. ground (arith, x.free z j);
  alone = λ j k. ground (arith, x.alone j k);
})
Step-IsExclusive {s} (swap i l p z e) x =
    let (unlocked, locked) = section_enter_lem s.lock l z in
    rw e (record {
      free = λ n j. absurd (omega (arith, locked));
      alone = λ j k. ground (arith, x.free unlocked j, x.free unlocked k);
    })
Step-IsExclusive (swap_fails i p z e) x = rw e (record {
  free = λ z j. ground (arith, x.free z j);
  alone = λ j k. ground (arith, x.alone j k);
})
Step-IsExclusive (spin i p z e) x = rw e x
Step-IsExclusive (spin_ends i p z e) x = rw e (record {
  free = λ z j. ground (arith, x.free z j);
  alone = λ j k. ground (arith, x.alone j k);
})
Step-IsExclusive (leave i p e) x = rw e (record {
  free = λ z j. ground (arith, x.alone i j p);
  alone = λ j k. ground (arith, x.alone i j p, x.alone i k p);
})

Reach-IsExclusive : {s : System} → Reach idle s → IsExclusive s
Reach-IsExclusive here = record { free = λ z i. ground arith; alone = λ i j. ground arith }
Reach-IsExclusive (next r st) = Step-IsExclusive st (Reach-IsExclusive r)

-- Whatever steps the processors make from a free lock, two that are inside the section are one.
pub mutual_exclusion :
    {s : System} (i j : ℕ) → Reach idle s → s.phase i ≡ inside → s.phase j ≡ inside → i ≡ j
mutual_exclusion i j r = (Reach-IsExclusive r).alone i j
