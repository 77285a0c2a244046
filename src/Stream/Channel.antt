-- ===== src/Stream/Channel.antt =====
-- A writer's thread inside `stream_write` and a reader's thread inside `stream_read` on one stream,
-- with their rounds interleaved in any order. A round is taken to be atomic.
use vsop.Base.{
  sym, ◌-◌, ◌≢◌, ℕ, suc, ◌+◌, ◌*◌, ◌≤◌, ◌≡◌, refl, ap, ◌⊎◌, inl, inr, List, [], ◌∷◌, ◌++◌,
  append_assoc, append-nil, some, arith, length, length-append,
}
use native.Mathlib.Decide.{ℕ_discrete}
use vsop.Stream.{Stream, stream_read_length, stream_new, write_byte, read_byte}
use vsop.Stream.Inv.{IsValid, stream_new-IsValid, write_byte-IsValid, read_byte-IsValid}
use vsop.Stream.Inv.{read_length-add-write_length, write_byte-room}
use vsop.Stream.Refine.{contents, stream_new-contents, read_byte-room, contents-write_byte}
use vsop.Stream.Refine.{contents-read_byte, contents-empty, length-contents}

-- What the writer has still to write, what the reader has still to read, and what it has read.
pub record Channel : Type 0 where
  pub pending : List ℕ
  pub stream : Stream
  pub wanted : ℕ
  pub received : List ℕ

pub data Step (c d : Channel) : Type 0 where
  send :
      (b : ℕ) (bs : List ℕ) (s : Stream)
      → c.pending ≡ b ∷ bs
      → write_byte c.stream b ≡ some s
      → d ≡ record c { pending = bs; stream = s }
      → Step c d
  recv :
      (b n : ℕ) (s : Stream)
      → c.wanted ≡ suc n
      → read_byte c.stream ≡ some (b, s)
      → d ≡ record c { wanted = n; stream = s; received = c.received ++ b ∷ [] }
      → Step c d

-- `n` rounds lead from `c` to `d`.
pub data Run (c : Channel) : ℕ → Channel → Type 0 where
  here : Run c 0 c
  next : {n : ℕ} {d e : Channel} → Run c n d → Step d e → Run c (suc n) e

-- A new stream, a writer with `bs` and a reader that wants as many bytes.
abbrev pub start : List ℕ → Channel
start bs = record { pending = bs; stream = stream_new; wanted = length bs; received = [] }

pub record IsFifo (bs : List ℕ) (c : Channel) : Type 0 where
  pub valid : IsValid c.stream
  pub order : c.received ++ (contents c.stream ++ c.pending) ≡ bs
  pub count : length c.received + c.wanted ≡ length bs

start-IsFifo : (bs : List ℕ) → IsFifo bs (start bs)
start-IsFifo bs = record {
  valid = stream_new-IsValid;
  order = rw stream_new-contents;
  count = omega arith;
}

Step-IsFifo : {bs : List ℕ} {c d : Channel} → Step c d → IsFifo bs c → IsFifo bs d
Step-IsFifo {c} (send b r s p w e) f = rw e (record {
  valid = write_byte-IsValid b f.valid w;
  order =
      rw (contents-write_byte b f.valid w, append_assoc (contents c.stream) (b ∷ []) r, ← p)
        f.order;
  count = f.count;
})
Step-IsFifo {c} (recv b n s p r e) f = rw e (record {
  valid = read_byte-IsValid f.valid r;
  order =
      rw (append_assoc c.received (b ∷ []) (contents s ++ c.pending))
        (rw (contents-read_byte f.valid r) at f.order);
  count = omega (arith, length-append c.received (b ∷ []), f.count);
})

Run-IsFifo : {bs : List ℕ} {n : ℕ} {c : Channel} → Run (start bs) n c → IsFifo bs c
Run-IsFifo {bs} here = start-IsFifo bs
Run-IsFifo (next r s) = Step-IsFifo s (Run-IsFifo r)

-- A byte costs a round to send and one to receive.
abbrev work : Channel → ℕ
work c = 2 * length c.pending + length (contents c.stream)

Step-work : {bs : List ℕ} {c d : Channel} → IsFifo bs c → Step c d → work c ≡ suc (work d)
Step-work {c} f (send b r s p w e) =
    rw (e, p, contents-write_byte b f.valid w)
      (omega (arith, length-append (contents c.stream) (b ∷ [])))
Step-work f (recv b n s p r e) = rw (e, contents-read_byte f.valid r) (omega arith)

Run-work : {bs : List ℕ} {n : ℕ} {c : Channel} → Run (start bs) n c → n + work c ≡ 2 * length bs
Run-work here = rw stream_new-contents (omega arith)
Run-work (next r s) = omega (arith, Run-work r, Step-work (Run-IsFifo r) s)

-- However the rounds interleave, the reader has received a prefix of what was sent, in order, and
-- the rest stands in the stream and in the writer's hands.
pub fifo :
    {bs : List ℕ} {n : ℕ} {c : Channel}
    → Run (start bs) n c
    → c.received ++ (contents c.stream ++ c.pending) ≡ bs
fifo r = (Run-IsFifo r).order

-- A writer with a byte left has a round to make when nothing waits in the stream.
send-empty :
    {c : Channel} (p : List ℕ)
    → p ≡ c.pending
    → IsValid c.stream
    → stream_read_length c.stream ≡ 0
    → (c.pending ≡ []) ⊎ ((d : Channel) × Step c d)
send-empty [] e v empty = inl (sym e)
send-empty {c} (b ∷ p) e v empty = inr (
  _,
  send b p _ (sym e) (write_byte-room c.stream b (omega (arith, read_length-add-write_length v)))
      refl,
)

-- A reader that wants a byte has a round to make when one waits.
recv-pos :
    {bs : List ℕ} {c : Channel}
    → IsFifo bs c
    → stream_read_length c.stream ≢ 0
    → (d : Channel) × Step c d
recv-pos {bs} {c} f h =
    (_, recv _ (c.wanted - 1) _ (omega (arith, f.count, total)) (read_byte-room f.valid h).0 refl)
  where
    total : length c.received + (stream_read_length c.stream + length c.pending) ≡ length bs
    total =
        rw (← length-contents c.stream, ← length-append (contents c.stream) c.pending)
          (rw (← length-append c.received (contents c.stream ++ c.pending)) (ap length f.order))

-- The two threads never both wait: until everything has arrived one of them has a round to make.
pub progress :
    {bs : List ℕ} {n : ℕ} {c : Channel}
    → Run (start bs) n c
    → (c.received ≡ bs) ⊎ ((d : Channel) × Step c d)
progress {c} r = elim (ℕ_discrete (stream_read_length c.stream) 0) [
  | no h ↦ inr (recv-pos (Run-IsFifo r) h)
  | yes empty ↦ elim (send-empty {c = c} c.pending refl (Run-IsFifo r).valid empty) [
    | inr step ↦ inr step
    | inl done ↦ inl (rw (contents-empty c.stream empty, done, append-nil) at (Run-IsFifo r).order)
  ]
]

-- No run is longer than two rounds for each byte.
pub Run-le : {bs : List ℕ} {n : ℕ} {c : Channel} → Run (start bs) n c → n ≤ 2 * length bs
Run-le r = omega (arith, Run-work r)
