-- ===== src/LinkedList/Tests.antt =====
-- A run on a new list, and the theorems at it.
use vsop.Base.{◌≡◌, refl, List, [], ◌∷◌, arith}
use vsop.LinkedList.{no_elems, list_push, list_pop, list_prealloc}
use vsop.LinkedList.Queue.{no_elems-Holds}
use vsop.LinkedList.Refine.{Op, push, pop, prealloc, run, run_queue, run_refines}

abbrev script : List Op
script = push 7 ∷ push 8 ∷ pop ∷ prealloc 2 ∷ push 9 ∷ pop ∷ pop ∷ pop ∷ []

run-script : run no_elems script ≡ 7 ∷ 8 ∷ 9 ∷ 0 ∷ []
unfolding run list_push list_pop list_prealloc
run-script = refl

run_refines_example : run no_elems script ≡ run_queue [] script
run_refines_example = run_refines [] script no_elems-Holds (omega arith)
