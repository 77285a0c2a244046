-- ===== src/Stream.antt =====
-- kernel/stream.c and kernel/stream.h: a ring of 1024 bytes between a writer and a reader.
-- `read` is the index of the byte read last and `write` the index of the next byte written, so the
-- bytes in between are unread and one slot always stays free.
-- A caller that must wait stops in the model: `write_byte` and `read_byte` answer `none`, and
-- `stream_write` and `stream_read` return what is left of the transfer. The waiting thread resumes
-- when its event function answers true, which is one more call on what was left.
pub mod Queue
pub mod Inv
pub mod Refine
pub mod Transfer
pub mod Channel
mod Tests
use vsop.Base.{
  ℕ, zero, suc, ◌+◌, ◌%◌, List, [], ◌∷◌, Bool, true, false, Option, none, some, set, get_or,
  replicate, ltb, ◌==◌, if◌then◌else◌,
}
use vsop.Base.Int.{ℤ, pos, ◌+ℤ◌, ◌-ℤ◌, is_neg, to_u32}

abbrev pub stream_buf_len : ℕ
stream_buf_len = 1024

-- `struct stream`
pub record Stream : Type 0 where
  pub read : ℕ
  pub write : ℕ
  pub buf : List ℕ

-- `(ptr + 1) % STREAM_BUF_LEN`, computed in `int`, fits `uint16`.
abbrev pub next_step : ℕ → ℕ
next_step ptr = (ptr + 1) % stream_buf_len

-- `if (result < 0) result += STREAM_BUF_LEN; return result;`
abbrev pub wrap_length : ℤ → ℕ
wrap_length result = to_u32 (if is_neg result then result +ℤ pos stream_buf_len else result)

unfoldable pub stream_write_length : Stream → ℕ
stream_write_length s = wrap_length (pos s.read -ℤ pos s.write -ℤ pos 1)

unfoldable pub stream_read_length : Stream → ℕ
stream_read_length s = wrap_length (pos s.write -ℤ pos s.read -ℤ pos 1)

-- `NEW` returns zeroed memory.
unfoldable pub stream_new : Stream
stream_new = record { read = 0; write = 1; buf = replicate stream_buf_len 0 }

-- A round of the loop of `stream_write`; `none` where it calls `sched_thread_wait`.
unfoldable pub write_byte : Stream → ℕ → Option Stream
write_byte s b =
    if stream_write_length s == 0
    then none
    else some (record s { buf = set s.buf s.write b; write = next_step s.write })

-- A round of the loop of `stream_read`.
unfoldable pub read_byte : Stream → Option (ℕ × Stream)
read_byte s =
    if stream_read_length s == 0
    then none
    else some (get_or s.buf (next_step s.read) 0, record s { read = next_step s.read })

-- `stream_write(this, buf, len)` on the bytes `buf[0 .. len)`, up to its return or its next wait:
-- the bytes that are still to be written, and the stream.
unfoldable pub stream_write : Stream → List ℕ → List ℕ × Stream
stream_write s [] = ([], s)
stream_write s (b ∷ bs) = elim (write_byte s b) [
  | none ↦ (b ∷ bs, s)
  | some s' ↦ stream_write s' bs
]

-- `stream_read(this, buf, len)`, up to its return or its next wait: the bytes stored through `buf`,
-- how many are still to be read, and the stream.
unfoldable pub stream_read : Stream → ℕ → List ℕ × ℕ × Stream
stream_read s zero = ([], 0, s)
stream_read s (suc len) = elim (read_byte s) [
  | none ↦ ([], suc len, s)
  | some (b, s') ↦ let (bs, left, s'') = stream_read s' len in (b ∷ bs, left, s'')
]

-- `stream_read_event` and `stream_write_event` on the stream that `this->descr` points to, `none`
-- for a null pointer.
unfoldable pub stream_read_event : Option Stream → Bool
stream_read_event none = false
stream_read_event (some s) = ltb 0 (stream_read_length s)

unfoldable pub stream_write_event : Option Stream → Bool
stream_write_event none = false
stream_write_event (some s) = ltb 0 (stream_write_length s)
