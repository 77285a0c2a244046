-- ===== src/Descriptors.antt =====
-- The descriptor table of a process: `struct iostream_descriptors` and its functions in
-- kernel/stream.c. Streams are shared (`SYSCALL_CONNECT` gives both ends the same two), so a table
-- holds pointers, and the streams stand in a store of their own.
pub mod Laws
mod Tests
use vsop.Base.{
  ℕ, ◌+◌, List, [], ◌∷◌, Bool, Option, none, some, ltb, ◌==◌, if◌then◌else◌, not, replicate,
}
use vsop.Base.Int.{ℤ, pos, negsuc, eq_ℤ}
use vsop.Stream.{Stream, stream_read_length}

-- A `struct stream *`, 0 for a null pointer, and what the pointers lead to.
abbrev pub Ptr : Type 0
Ptr = ℕ

abbrev pub Store : Type 0
Store = Ptr → Stream

abbrev pub max_descriptors : ℕ
max_descriptors = 32

-- `struct iostream`
pub record IoStream : Type 0 where
  pub input : Ptr
  pub output : Ptr

abbrev pub iostream : Ptr → Ptr → IoStream
iostream i o = record { input = i; output = o }

-- The table of a process that `NEW` has zeroed.
abbrev pub no_descriptors : List IoStream
no_descriptors = replicate max_descriptors (iostream 0 0)

-- The loop of `iostream_select`, from index `i` on.
unfoldable pub select_from : Store → ℕ → List IoStream → ℤ
select_from m i [] = negsuc 0
select_from m i (d ∷ ds) =
    if d.input == 0
    then negsuc 0
    else (if ltb 0 (stream_read_length (m d.input)) then pos i else select_from m (i + 1) ds)

unfoldable pub iostream_select : Store → List IoStream → ℤ
unfolding select_from
iostream_select m ds = select_from m 0 ds

-- The loop of `iostream_attach`, from index `i` on: the index taken, and the table.
unfoldable pub attach_from : ℕ → List IoStream → Ptr → Ptr → ℤ × List IoStream
attach_from i [] input output = (negsuc 0, [])
attach_from i (d ∷ ds) input output =
    let (res, ds') = attach_from (i + 1) ds input output in
    if not (d.input == 0) then (res, d ∷ ds') else (pos i, iostream input output ∷ ds)

unfoldable pub iostream_attach : List IoStream → Ptr → Ptr → ℤ × List IoStream
unfolding attach_from
iostream_attach ds input output = attach_from 0 ds input output

-- `stream_select_event` on the table of the thread's process.
unfoldable pub stream_select_event : Store → List IoStream → Bool
stream_select_event m ds = not (eq_ℤ (iostream_select m ds) (negsuc 0))
