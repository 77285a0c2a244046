-- ===== src/Paging/Tests.antt =====
-- The theorems of the directories, at the one of kernel/entry.s and at one of the running kernel.
use vsop.Base.{ℕ, ◌/◌, ◌<◌, ◌≡◌, refl, ◌≢◌, inr, some, arith}
use vsop.Palloc.{mem_phys_free}
use vsop.Paging.{Machine, paging_get_phys, paging_map, page_dir_clone, page_dir_switch}
use vsop.Paging.Boot.{
  start, start-IsOwned, running, one_page, one_page-IsValid, one_page-low, one_page-free,
  one_page-unlocked, running-one_page,
}
use vsop.Paging.Lookup.{translate, found_or_zero, paging_get_phys-translate}
use vsop.Paging.Mapping.{IsOwned, Maps}
use vsop.Paging.NewDir.{page_dir_clone_lem}
use vsop.Paging.Steps.{Cloned, HasWindows}
use vsop.Paging.Switch.{page_dir_clone-page_dir_switch}
use vsop.Paging.Total.{paging_map_lem}

-- The start of the program, with its directory in page 1.
abbrev machine : Machine
machine = start (λ i. 0) 1 one_page

machine-IsOwned : IsOwned machine
machine-IsOwned =
    start-IsOwned (λ i. 0) 1 one_page (omega arith) (one_page-low 1 (omega arith))
      (one_page-low 2 (omega arith)) one_page-IsValid one_page-unlocked

paging_get_phys-translate_example :
    paging_get_phys machine 5000 ≡ some (found_or_zero (translate machine 5000))
paging_get_phys-translate_example =
    paging_get_phys-translate machine 5000 machine-IsOwned.recursive (omega arith)

paging_map_lem_example :
    (n : Machine) × (paging_map machine 10485760 200704 7 ≡ some n)
    × Maps machine n 10485760 200704 7
unfolding start mem_phys_free
paging_map_lem_example =
    paging_map_lem machine 10485760 200704 7 machine-IsOwned (omega arith)
      (inr (70, omega arith, one_page-free))

abbrev kernel : Machine
kernel = running one_page

kernel-HasWindows : HasWindows kernel 4096
kernel-HasWindows = record {
  old_table = refl;
  new_table = refl;
  in_use = one_page-low 1 (omega arith);
  not_old = omega arith;
  not_new = omega arith;
}

page_dir_clone_lem_example :
    (newdir : ℕ) × (n : Machine) × (page_dir_clone kernel 4096 ≡ some (newdir, n))
    × Cloned kernel n 4096 newdir
page_dir_clone_lem_example =
    page_dir_clone_lem kernel 4096 70 running-one_page kernel-HasWindows (omega arith) one_page-free

page_dir_clone-page_dir_switch_example :
    (newdir : ℕ) × (n : Machine) × (page_dir_clone kernel 4096 ≡ some (newdir, n))
    × IsOwned (page_dir_switch n newdir)
    × ((v : ℕ)
        → v < 0xffc00000
        → v / 4096 ≢ 0xcccc0
        → v / 4096 ≢ 0xdddd0
        → translate (page_dir_switch n newdir) v ≡ translate kernel v)
page_dir_clone-page_dir_switch_example =
    page_dir_clone-page_dir_switch kernel 4096 70 running-one_page refl kernel-HasWindows
      (omega arith) one_page-free
