-- ===== src/Stream/Queue.antt =====
-- What kernel/stream.h promises of a stream: a first-in first-out queue of at most 1022 bytes.
use vsop.Base.{ℕ, List, [], ◌∷◌, ◌++◌, Option, none, some, length, ltb, if◌then◌else◌}

-- The ring has 1024 slots: one is the byte read last, and one is the next to be written.
abbrev pub capacity : ℕ
capacity = 1022

unfoldable pub push : List ℕ → ℕ → Option (List ℕ)
push q b = if ltb (length q) capacity then some (q ++ b ∷ []) else none

unfoldable pub pop : List ℕ → Option (ℕ × List ℕ)
pop [] = none
pop (b ∷ q) = some (b, q)
