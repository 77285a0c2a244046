-- ===== src/Locks.antt =====
-- kernel/locks.c: spin locks of the type `lock_t`, 0 when free and 1 when held.
pub mod Exclusion
mod Tests
use vsop.Base.{ℕ, zero, suc, ◌≡◌, ◌≢◌, arith, Option, none, some, ◌==◌, if◌then◌else◌}

-- `section_enter` as the caller sees it: the lock is taken, or `none` while it is held, when the
-- caller spins.
unfoldable pub section_enter : ℕ → Option ℕ
section_enter lock = if lock == 0 then some 1 else none

unfoldable pub section_leave : ℕ → ℕ
section_leave lock = 0

pub section_enter_lem : (lock l : ℕ) → section_enter lock ≡ some l → (lock ≡ 0) × (l ≡ 1)
unfolding section_enter
section_enter_lem lock l h = ground arith

-- Where a processor stands: outside the section, before the compare-and-swap of the outer loop, in
-- the inner loop, or inside the section.
pub data Phase : Type 0 where
  outside trying spinning inside : Phase

pub record System : Type 0 where
  pub lock : ℕ
  pub phase : ℕ → Phase

abbrev pub move : System → ℕ → Phase → ℕ → Phase
move s i p j = if i == j then p else s.phase j

-- A step of processor `i`.
pub data Step (s t : System) : Type 0 where
  call : (i : ℕ) → s.phase i ≡ outside → t ≡ record s { phase = move s i trying } → Step s t
  swap :
      (i l : ℕ)
      → s.phase i ≡ trying
      → section_enter s.lock ≡ some l
      → t ≡ record { lock = l; phase = move s i inside }
      → Step s t
  swap_fails :
      (i : ℕ)
      → s.phase i ≡ trying
      → section_enter s.lock ≡ none
      → t ≡ record s { phase = move s i spinning }
      → Step s t
  spin : (i : ℕ) → s.phase i ≡ spinning → s.lock ≢ 0 → t ≡ s → Step s t
  spin_ends :
      (i : ℕ)
      → s.phase i ≡ spinning
      → s.lock ≡ 0
      → t ≡ record s { phase = move s i trying }
      → Step s t
  leave :
      (i : ℕ)
      → s.phase i ≡ inside
      → t ≡ record { lock = section_leave s.lock; phase = move s i outside }
      → Step s t

pub data Reach (s : System) : System → Type 0 where
  here : Reach s s
  next : {t u : System} → Reach s t → Step t u → Reach s u

-- A free lock, and all processors outside.
abbrev pub idle : System
idle = record { lock = 0; phase = λ i. outside }
