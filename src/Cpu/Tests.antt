-- ===== src/Cpu/Tests.antt =====
-- A memory with a table, a list of two processors, and the theorems at them.
use vsop.Cpu.Sync.{
  SyncState, SyncReach, arriving, waiting, released, cpu_sync_enter, cpu_sync_test, begun, enters,
  tests, cpu_sync-barrier, cpu_sync-releases,
}
use vsop.Base.{◌≢◌, arith, refl, sym, ap, ◌∙◌}
use vsop.Base.{
  ℕ, zero, suc, some, ◌≤◌, ◌≡◌, ◌<◌, ◌⊎◌, List, [], ◌∷◌, ◌==◌, if◌then◌else◌, length, get_or,
}
use vsop.Cpu.{Cpus, MpEntry, mp_find, cpu_find}
use vsop.Cpu.Search.{FirstIn, NoneIn, mp_find_lem}
use vsop.Cpu.Count.{processors, lower, cpu_find_lem}

-- "_MP_" at 0x9fc10.
abbrev memory : ℕ → ℕ
memory p =
    if p == 654352
    then 95
    else (if p == 654353 then 77 else (if p == 654354 then 80 else (if p == 654355 then 95 else 0)))

mp_find_lem_example :
    FirstIn memory 654336 655360 (mp_find memory)
    ⊎ (NoneIn memory 654336 655360
        × (FirstIn memory 0xF0000 0xFFFFF (mp_find memory)
            ⊎ (NoneIn memory 0xF0000 0xFFFFF × (mp_find memory ≡ 0))))
mp_find_lem_example = mp_find_lem memory

abbrev stacks : ℕ → ℕ
stacks i = 8192

abbrev entries : List MpEntry
entries =
    record { type = 0; lapic_id = 0 }
    ∷ record { type = 0; lapic_id = 2 }
    ∷ record { type = 1; lapic_id = 7 }
    ∷ []

abbrev cpus : Cpus
cpus = record {
  cpu_stack = 0 ∷ 0 ∷ 0 ∷ [];
  cpu_mapping = 0 ∷ 0 ∷ 0 ∷ [];
  num_of_cpu = 0;
  maximum_cpu = 8;
}

entries-identifiers :
    (j : ℕ) (e : MpEntry)
    → j < length (processors entries)
    → (get_or (processors entries) j e).lapic_id < 3
unfolding processors
entries-identifiers zero e h = omega arith
entries-identifiers (suc zero) e h = omega arith
entries-identifiers (suc (suc j)) e h = absurd (omega arith)

entries-length : length (processors entries) ≤ 3
unfolding processors
entries-length = omega arith

cpu_find_lem_example :
    (d : Cpus) × (cpu_find stacks entries cpus ≡ some d)
    × (d.num_of_cpu ≡ length (processors entries))
    × (d.maximum_cpu ≡ lower (length (processors entries)) 8)
    × ((j : ℕ) (e : MpEntry)
        → j < length (processors entries)
        → get_or d.cpu_mapping j 0 ≡ (get_or (processors entries) j e).lapic_id)
cpu_find_lem_example = cpu_find_lem stacks entries cpus entries-length entries-identifiers

-- Before any processor calls cpu_sync.
abbrev at_first : SyncState
at_first = record { awoken_cpu = 0; phase = λ i. arriving }

arrives : SyncReach 1 (cpu_sync_enter at_first 0)
arrives = enters at_first 0 begun (omega arith) refl

waits : (cpu_sync_enter at_first 0).phase 0 ≡ waiting
unfolding cpu_sync_enter
waits = refl

only_one : (j : ℕ) → j < 1 → (cpu_sync_enter at_first 0).phase j ≢ arriving
only_one j h e =
    let first : j ≡ 0 = omega arith in
    let both : waiting ≡ arriving =
      sym waits ∙ ap (cpu_sync_enter at_first 0).phase (sym first) ∙ e in
    cc

released_one : (cpu_sync_test 1 (cpu_sync_enter at_first 0) 0).phase 0 ≡ released
released_one = cpu_sync-releases 1 (cpu_sync_enter at_first 0) 0 arrives only_one

cpu_sync-barrier_example : (cpu_sync_test 1 (cpu_sync_enter at_first 0) 0).phase 0 ≢ arriving
cpu_sync-barrier_example =
    cpu_sync-barrier 1 (cpu_sync_test 1 (cpu_sync_enter at_first 0) 0) 0 0
      (tests (cpu_sync_enter at_first 0) 0 arrives waits) released_one (omega arith)
