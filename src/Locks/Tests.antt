-- ===== src/Locks/Tests.antt =====
-- Processor 2 takes the lock while processor 1 waits for it.
use vsop.Base.{ℕ, ◌≡◌, refl}
use vsop.Locks.{section_enter, trying, inside, System, move, call, swap, Reach, here, next, idle}
use vsop.Locks.Exclusion.{mutual_exclusion}

abbrev waiting : System
waiting = record { lock = 0; phase = move idle 1 trying }

abbrev both : System
both = record { lock = 0; phase = move waiting 2 trying }

abbrev taken : System
taken = record { lock = 1; phase = move both 2 inside }

taken-Reach : Reach idle taken
unfolding section_enter
taken-Reach =
    next (next (next here (call 1 refl refl)) (call 2 refl refl)) (swap 2 1 refl refl refl)

mutual_exclusion_example : ◌≡◌ {A = ℕ} 2 2
mutual_exclusion_example = mutual_exclusion 2 2 taken-Reach refl refl
