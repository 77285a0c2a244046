-- ===== src/Stream/Transfer.antt =====
-- `stream_write` and `stream_read`: how far a call gets before it returns or waits.
use vsop.Base.{
  ℕ, zero, suc, ◌-◌, ◌≡◌, refl, ap, ◌∙◌, ◌≢◌, List, [], ◌∷◌, ◌++◌, append_assoc, append-nil, some,
  arith, take, drop, set, get_or,
}
use native.Mathlib.Decide.{ℕ_discrete}
use vsop.Stream.{
  Stream, stream_write_length, stream_read_length, write_byte, stream_write, stream_read, next_step,
}
use vsop.Stream.Inv.{
  IsValid, read_length-write, write_byte-room, write_byte-full, written-IsValid,
  read_length-add-write_length,
}
use vsop.Stream.Refine.{contents, written-contents, read_byte-room, read_byte-empty, contents-empty}

-- What a writer that finds room has done after its round.
record Wrote (s : Stream) (b : ℕ) (s' : Stream) : Type 0 where
  done : write_byte s b ≡ some s'
  valid : IsValid s'
  bytes : contents s' ≡ contents s ++ b ∷ []
  room : suc (stream_write_length s') ≡ stream_write_length s

write_byte-Wrote :
    {s : Stream} (b : ℕ)
    → IsValid s
    → stream_write_length s ≢ 0
    → Wrote s b (record s { buf = set s.buf s.write b; write = next_step s.write })
write_byte-Wrote {s} b v h = record {
  done = write_byte-room s b h;
  valid = written-IsValid b v h;
  bytes = written-contents b v h;
  room = omega (
    arith,
    read_length-add-write_length v,
    read_length-add-write_length (written-IsValid b v h),
    read_length-write b v h,
  );
}

take-nil : (n : ℕ) → take {A = ℕ} n [] ≡ []
take-nil zero = refl
take-nil (suc n) = refl

drop-nil : (n : ℕ) → drop {A = ℕ} n [] ≡ []
drop-nil zero = refl
drop-nil (suc n) = refl

-- `stream_write` stores as many bytes as there is room for, in order, behind those that wait, and
-- what is left of the call is the rest of them. The stream stays valid.
pub stream_write_lem :
    (bs : List ℕ) {s : Stream}
    → IsValid s
    → let (left, s') = stream_write s bs in
      IsValid s'
      × (contents s' ≡ contents s ++ take (stream_write_length s) bs)
      × (left ≡ drop (stream_write_length s) bs)
unfolding stream_write
stream_write_lem [] {s} v = rw (take-nil, append-nil, drop-nil) (v, refl, refl)
stream_write_lem (b ∷ bs) {s} v = elim (ℕ_discrete (stream_write_length s) 0) [
  | yes full ↦ rw (write_byte-full s b full, stream_write, full, append-nil) (v, refl, refl)
  | no h ↦
      let w = write_byte-Wrote b v h in
      let (v', bytes, rest) = stream_write_lem bs w.valid in
      rw (w.done, stream_write, ← w.room)
        (v', bytes ∙ rw w.bytes (append_assoc (contents s) (b ∷ []) _), rest)
]

-- `stream_read` hands over as many bytes as wait, in order, and takes them out of the stream; the
-- count that is left is what it still lacks. The stream stays valid.
pub stream_read_lem :
    (len : ℕ) {s : Stream}
    → IsValid s
    → let (bs, left, s') = stream_read s len in
      IsValid s'
      × (bs ≡ take len (contents s))
      × (contents s' ≡ drop len (contents s))
      × (left ≡ len - stream_read_length s)
unfolding stream_read
stream_read_lem zero {s} v = (v, refl, refl, omega arith)
stream_read_lem (suc len) {s} v = elim (ℕ_discrete (stream_read_length s) 0) [
  | yes empty ↦
      rw (read_byte-empty s empty, stream_read, contents-empty s empty, empty)
        (v, refl, refl, omega arith)
  | no h ↦
      let (done, v', bytes, count) = read_byte-room v h in
      let (v'', got, rest, left) = stream_read_lem len v' in
      rw (done, stream_read, bytes, count)
        (v'', ap (λ r. get_or s.buf (next_step s.read) 0 ∷ r) got, rest, omega arith)
]
