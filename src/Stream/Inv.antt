-- ===== src/Stream/Inv.antt =====
-- The invariant of `struct stream`, and the lengths that its two functions report.
use vsop.Base.{
  ℕ, suc, some_inj, ◌-◌, ◌+◌, ◌%◌, ◌<◌, ◌≡◌, ◌≢◌, none, some, sym, ◌∙◌, arith, length, set,
  length-set, length-replicate,
}
use vsop.Stream.{
  Stream, stream_buf_len, next_step, stream_write_length, stream_read_length, stream_new,
  write_byte, read_byte, wrap_length,
}
use vsop.Base.Int.{pos, ◌-ℤ◌}
use mathlib.Core.Path.{subst}
use native.Mathlib.Decide.{ℕ_discrete}
use vsop.Stream.Queue.{capacity}

pub record IsValid (s : Stream) : Type 0 where
  pub read_in : s.read < stream_buf_len
  pub write_in : s.write < stream_buf_len
  pub apart : s.read ≢ s.write
  pub storage : length s.buf ≡ stream_buf_len

pub stream_new-IsValid : IsValid stream_new
unfolding stream_new
stream_new-IsValid = omega (arith, length-replicate {A = ℕ} stream_buf_len 0)

-- The signed difference, wrapped, is a remainder.
wrap_length-sub :
    (a b : ℕ)
    → a < stream_buf_len
    → b < stream_buf_len
    → wrap_length (pos a -ℤ pos b -ℤ pos 1) ≡ (a + 1023 - b) % stream_buf_len
wrap_length-sub a b p q = ground arith

module _ {s : Stream} (v : IsValid s) where
  pub stream_read_length_lem : stream_read_length s ≡ (s.write + 1023 - s.read) % stream_buf_len
  unfolding stream_read_length
  stream_read_length_lem = wrap_length-sub s.write s.read v.write_in v.read_in

  pub stream_write_length_lem : stream_write_length s ≡ (s.read + 1023 - s.write) % stream_buf_len
  unfolding stream_write_length
  stream_write_length_lem = wrap_length-sub s.read s.write v.read_in v.write_in

  -- What can be read and what can be written make up the capacity.
  pub read_length-add-write_length : stream_read_length s + stream_write_length s ≡ capacity
  read_length-add-write_length =
      omega (arith, stream_read_length_lem, stream_write_length_lem, v.read_in, v.write_in, v.apart)

  -- The reader stands `stream_read_length` bytes behind the writer.
  pub write_position : s.write ≡ (next_step s.read + stream_read_length s) % stream_buf_len
  write_position = omega (arith, stream_read_length_lem, v.read_in, v.write_in, v.apart)

-- What a byte's write does to a stream that has room.
pub write_byte-room :
    (s : Stream) (b : ℕ)
    → stream_write_length s ≢ 0
    → write_byte s b ≡ some (record s { buf = set s.buf s.write b; write = next_step s.write })
unfolding write_byte
write_byte-room s b h = ground arith

pub write_byte-full : (s : Stream) (b : ℕ) → stream_write_length s ≡ 0 → write_byte s b ≡ none
unfolding write_byte
write_byte-full s b h = ground arith

pub written-IsValid :
    {s : Stream} (b : ℕ)
    → IsValid s
    → stream_write_length s ≢ 0
    → IsValid (record s { buf = set s.buf s.write b; write = next_step s.write })
written-IsValid {s} b v room = omega (arith, length-set s.buf s.write b, stream_write_length_lem v)

-- A write adds one byte to what can be read.
pub read_length-write :
    {s : Stream} (b : ℕ)
    → IsValid s
    → stream_write_length s ≢ 0
    → stream_read_length (record s { buf = set s.buf s.write b; write = next_step s.write })
      ≡ suc (stream_read_length s)
read_length-write b v room = omega (
  arith,
  stream_read_length_lem v,
  stream_write_length_lem v,
  stream_read_length_lem (written-IsValid b v room),
)

-- A valid stream stays valid as a byte is written.
pub write_byte-IsValid : {s s' : Stream} (b : ℕ) → IsValid s → write_byte s b ≡ some s' → IsValid s'
write_byte-IsValid {s} b v e = elim (ℕ_discrete (stream_write_length s) 0) [
  | yes full ↦ cc (write_byte-full s b full)
  | no room ↦
      subst IsValid (some_inj (sym (write_byte-room s b room) ∙ e)) (written-IsValid b v room)
]

-- A valid stream stays valid as a byte is read.
pub read_byte-IsValid :
    {s s' : Stream} {b : ℕ} → IsValid s → read_byte s ≡ some (b, s') → IsValid s'
unfolding read_byte
read_byte-IsValid v e = ground (arith, stream_read_length_lem v)
