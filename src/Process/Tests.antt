-- ===== src/Process/Tests.antt =====
-- A table of three processes, and the theorems at it.
use vsop.Base.{List, [], ◌∷◌, Option, none, some, arith}
use vsop.Descriptors.{no_descriptors}
use vsop.Process.{Process, no_sections, proc_get_by_name}
use vsop.Process.Search.{FirstNamed, proc_get_by_name_lem}

abbrev ping : Process
ping = record {
  pid = 2;
  sections = no_sections;
  pdir = 4096;
  name = 112 ∷ 105 ∷ [];
  iodescr = no_descriptors;
}

abbrev pong : Process
pong = record {
  pid = 1;
  sections = no_sections;
  pdir = 8192;
  name = 112 ∷ 111 ∷ [];
  iodescr = no_descriptors;
}

abbrev table : List (Option Process)
table = some pong ∷ some ping ∷ none ∷ []

proc_get_by_name_lem_example :
    FirstNamed (112 ∷ 105 ∷ []) table (proc_get_by_name (112 ∷ 105 ∷ []) (some pong ∷ table))
proc_get_by_name_lem_example =
    proc_get_by_name_lem (112 ∷ 105 ∷ []) (some pong) table
      (omega arith, omega arith, (omega arith, omega arith, tt))
      (
        (omega arith, omega arith, (omega arith, omega arith, tt)),
        ((omega arith, omega arith, (omega arith, omega arith, tt)), tt),
      )
