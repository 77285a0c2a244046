-- ===== src/Stream/Refine.antt =====
-- A valid stream is a bounded queue of the bytes that wait in it.
use vsop.Base.{
  some_inj, sym, ℕ, zero, suc, ◌+◌, ◌-◌, ◌%◌, ◌<◌, ◌≡◌, refl, ◌≢◌, ◌∙◌, ap, ap₂, List, [], ◌∷◌,
  ◌++◌, none, some, arith, length, set, get_or, get_or-set_self, get_or-set_ne,
}
use vsop.Stream.{
  Stream, stream_buf_len, next_step, stream_write_length, stream_read_length, stream_new,
  write_byte, read_byte,
}
use mathlib.Core.Option
use vsop.Stream.Queue
use vsop.Stream.Inv.{
  IsValid, read_length-add-write_length, write_position, read_length-write, write_byte-room,
  write_byte-full, stream_read_length_lem,
}
use native.Mathlib.Decide.{ℕ_discrete}

-- The `n` bytes of the ring from index `h` on.
abbrev pub window : List ℕ → ℕ → ℕ → List ℕ
window buf h zero = []
window buf h (suc n) = get_or buf h 0 ∷ window buf (next_step h) n

unfoldable pub contents : Stream → List ℕ
contents s = window s.buf (next_step s.read) (stream_read_length s)

pub length-window : (buf : List ℕ) (h n : ℕ) → length (window buf h n) ≡ n
length-window buf h zero = refl
length-window buf h (suc n) = ap suc (length-window buf (next_step h) n)

-- A write just behind the window makes it longer by that byte.
window-set :
    (buf : List ℕ) (b n h i : ℕ)
    → length buf ≡ stream_buf_len
    → h < stream_buf_len
    → n < stream_buf_len
    → i ≡ (h + n) % stream_buf_len
    → window (set buf i b) h (suc n) ≡ window buf h n ++ b ∷ []
window-set buf b zero h i len hh hn e =
    let at : i ≡ h = omega arith in rw (at, get_or-set_self buf h b 0 (omega arith))
window-set buf b (suc n) h i len hh hn e =
    ap₂ ◌∷◌ (get_or-set_ne buf i h b 0 (omega arith))
      (window-set buf b n (next_step h) i len (omega arith) (omega arith) (omega arith))

pub stream_new-contents : contents stream_new ≡ []
unfolding contents stream_new stream_read_length
stream_new-contents = refl

-- The byte goes behind those that wait.
pub written-contents :
    {s : Stream} (b : ℕ)
    → IsValid s
    → stream_write_length s ≢ 0
    → contents (record s { buf = set s.buf s.write b; write = next_step s.write })
      ≡ contents s ++ b ∷ []
unfolding contents
written-contents {s} b v room = rw (read_length-write b v room) (
    window-set s.buf b (stream_read_length s) (next_step s.read) s.write v.storage (omega arith)
      (omega (arith, read_length-add-write_length v)) (write_position v))

pub length-contents : (s : Stream) → length (contents s) ≡ stream_read_length s
unfolding contents
length-contents s = length-window s.buf (next_step s.read) (stream_read_length s)

-- The writer's round is `Queue.push`: it waits exactly when the queue is full.
pub write_byte_refines :
    {s : Stream} (b : ℕ)
    → IsValid s
    → Option.map contents (write_byte s b) ≡ Queue.push (contents s) b
unfolding Queue.push
write_byte_refines {s} b v = elim (ℕ_discrete (stream_write_length s) 0) [
  | yes full ↦
      rw (write_byte-full s b full)
        (ground (arith, length-contents s, read_length-add-write_length v))
  | no room ↦
      rw (write_byte-room s b room, written-contents b v room)
        (ground (arith, length-contents s, read_length-add-write_length v))
]

-- The window of a ring that is not empty starts with the byte that the reader takes.
window_pos :
    (buf : List ℕ) (h n : ℕ)
    → n ≢ 0
    → window buf h n ≡ get_or buf h 0 ∷ window buf (next_step h) (n - 1)
window_pos buf h zero p = absurd (p refl)
window_pos buf h (suc n) p = ap (λ k. window buf h (suc k)) (omega arith)

pub read_byte-empty : (s : Stream) → stream_read_length s ≡ 0 → read_byte s ≡ none
unfolding read_byte
read_byte-empty s h = ground arith

pub contents-empty : (s : Stream) → stream_read_length s ≡ 0 → contents s ≡ []
unfolding contents
contents-empty s h = rw h

-- What a byte's read does to a stream that is not empty.
pub read_byte-room :
    {s : Stream}
    → IsValid s
    → stream_read_length s ≢ 0
    → let s' = record s { read = next_step s.read } in
      (read_byte s ≡ some (get_or s.buf (next_step s.read) 0, s'))
      × IsValid s'
      × (contents s ≡ get_or s.buf (next_step s.read) 0 ∷ contents s')
      × (stream_read_length s ≡ suc (stream_read_length s'))
unfolding contents read_byte
read_byte-room {s} v h =
    let s' = record s { read = next_step s.read } in
    let v' : IsValid s' = omega (arith, stream_read_length_lem v) in
    let e : stream_read_length s - 1 ≡ stream_read_length s' =
      omega (arith, stream_read_length_lem v, stream_read_length_lem v') in
    (
      ground arith,
      v',
      rw (← e) (window_pos s.buf (next_step s.read) (stream_read_length s) h),
      omega (arith, e),
    )

-- The reader's round is `Queue.pop`: it waits exactly when the queue is empty.
pub read_byte_refines :
    {s : Stream}
    → IsValid s
    → Option.map (λ (b, s'). (b, contents s')) (read_byte s) ≡ Queue.pop (contents s)
unfolding Queue.pop
read_byte_refines {s} v = elim (ℕ_discrete (stream_read_length s) 0) [
  | yes empty ↦ rw (read_byte-empty s empty, contents-empty s empty)
  | no h ↦ let (done, _, bytes, _) = read_byte-room v h in rw (done, bytes)
]

-- The byte that a round writes goes behind those that wait.
pub contents-write_byte :
    {s s' : Stream} (b : ℕ)
    → IsValid s
    → write_byte s b ≡ some s'
    → contents s' ≡ contents s ++ b ∷ []
contents-write_byte {s} b v e = elim (ℕ_discrete (stream_write_length s) 0) [
  | yes full ↦ cc (write_byte-full s b full)
  | no room ↦ rw (some_inj (sym e ∙ write_byte-room s b room)) (written-contents b v room)
]

-- The byte that a round reads is the first of those that wait.
pub contents-read_byte :
    {s s' : Stream} {b : ℕ} → IsValid s → read_byte s ≡ some (b, s') → contents s ≡ b ∷ contents s'
contents-read_byte {s} v e = elim (ℕ_discrete (stream_read_length s) 0) [
  | yes empty ↦ cc (read_byte-empty s empty)
  | no h ↦
      let (done, _, bytes, _) = read_byte-room v h in
      let same = some_inj (sym e ∙ done) in rw (ap (λ p. p.0) same, ap (λ p. p.1) same) bytes
]
