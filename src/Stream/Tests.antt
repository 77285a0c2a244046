-- ===== src/Stream/Tests.antt =====
-- Concrete streams, and the theorems at them.
use mathlib.Core.Option
use vsop.Base.{◌+◌, ◌≤◌, ◌≡◌, refl, ◌⊎◌, [], ◌∷◌, ◌++◌, arith, set}
use vsop.Base.{replicate}
use vsop.Stream.{
  Stream, stream_write_length, stream_read_length, stream_new, write_byte, read_byte, stream_write,
  stream_read,
}
use vsop.Stream.Queue
use vsop.Stream.Inv.{IsValid, read_length-add-write_length}
use vsop.Stream.Refine.{contents, write_byte_refines, read_byte_refines}
use vsop.Stream.Channel.{Channel, Step, Run, start, here, next, send, fifo, progress, Run-le}

-- 7 at the last slot and 8 at the first: the ring goes round.
abbrev wrapped : Stream
wrapped = record { read = 1022; write = 1; buf = set (set (replicate 1024 0) 1023 7) 0 8 }

wrapped-IsValid : IsValid wrapped
wrapped-IsValid = record {
  read_in = omega arith;
  write_in = omega arith;
  apart = omega arith;
  storage = refl;
}

wrapped-contents : contents wrapped ≡ 7 ∷ 8 ∷ []
unfolding contents stream_read_length
wrapped-contents = refl

read_write : (stream_read (stream_write stream_new (4 ∷ 5 ∷ [])).1 3).0 ≡ 4 ∷ 5 ∷ []
unfolding stream_read stream_write write_byte read_byte stream_new stream_read_length
    stream_write_length
read_write = refl

read_length-add-write_length_example :
    stream_read_length wrapped + stream_write_length wrapped ≡ 1022
read_length-add-write_length_example = read_length-add-write_length wrapped-IsValid

write_byte_refines_example :
    Option.map contents (write_byte wrapped 9) ≡ Queue.push (contents wrapped) 9
write_byte_refines_example = write_byte_refines 9 wrapped-IsValid

read_byte_refines_example :
    Option.map (λ (b, s'). (b, contents s')) (read_byte wrapped) ≡ Queue.pop (contents wrapped)
read_byte_refines_example = read_byte_refines wrapped-IsValid

-- The channel that sends 4 and 5, after the first byte's write.
abbrev sent : Stream
sent = record { read = 0; write = 2; buf = set (replicate 1024 0) 1 4 }

abbrev half_way : Channel
half_way = record { pending = 5 ∷ []; stream = sent; wanted = 2; received = [] }

half_way-Run : Run (start (4 ∷ 5 ∷ [])) 1 half_way
unfolding stream_new write_byte stream_write_length
half_way-Run = next here (send 4 (5 ∷ []) sent refl refl refl)

fifo_example : half_way.received ++ (contents half_way.stream ++ half_way.pending) ≡ 4 ∷ 5 ∷ []
fifo_example = fifo half_way-Run

progress_example : (half_way.received ≡ 4 ∷ 5 ∷ []) ⊎ ((d : Channel) × Step half_way d)
progress_example = progress half_way-Run

Run-le_example : 1 ≤ 4
Run-le_example = Run-le half_way-Run
