-- ===== src/Syscall/Connect.antt =====
-- What `SYSCALL_CONNECT` makes of two processes.
use vsop.Base.{ℕ, suc, ◌<◌, ◌≡◌, refl, ◌≢◌, ◌∙◌, sym, ap, ◌⊎◌, inl, inr, List, arith, set}
use vsop.Base.Int.{ℤ, pos}
use vsop.Descriptors.{Ptr, IoStream, iostream, iostream_attach}
use vsop.Descriptors.Laws.{FirstFree, iostream_attach_lem}
use vsop.Kernel.{Kernel, add_stream, iodescr, put_descr}
use vsop.Kernel.Tables.{
  Lives, iodescr-put_descr_self, iodescr-put_descr_ne, Lives-put_descr, write_stream_self,
  write_stream-ne,
}
use vsop.Process.{Process}
use vsop.Stream.{stream_new}
use vsop.Syscall.{result_only, connect_to}

below_or_not : (i j : ℕ) → (i ≡ j) ⊎ ((i < j) ⊎ (j < i))
below_or_not i j = ground arith

FirstFree-unique : (ds : List IoStream) (i j : ℕ) → FirstFree ds i → FirstFree ds j → i ≡ j
FirstFree-unique ds i j f g = elim (below_or_not i j) [
  | inl e ↦ e
  | inr (inl l) ↦ absurd (g.earlier i l f.free)
  | inr (inr l) ↦ absurd (f.earlier j l g.free)
]

-- With a free descriptor the first one is taken.
pub iostream_attach-free :
    (ds : List IoStream) (j input output : ℕ)
    → FirstFree ds j
    → iostream_attach ds input output ≡ (pos j, set ds j (iostream input output))
iostream_attach-free ds j input output f = elim (iostream_attach_lem ds input output) [
  | inl (i, e, g) ↦ rw (FirstFree-unique ds i j g f) at e
  | inr (e, n) ↦ absurd (n j f.in_table f.free)
]

-- Process `k.cur` has descriptor `here`, and process `pid` descriptor `there`, on two new streams
-- that are crossed over.
pub record Connected (k l : Kernel) (pid here there : ℕ) : Type 0 where
  pub near : iodescr l k.cur ≡ set (iodescr k k.cur) here (iostream (suc k.made) (suc (suc k.made)))
  pub far : iodescr l pid ≡ set (iodescr k pid) there (iostream (suc (suc k.made)) (suc k.made))
  pub to_near : l.streams (suc k.made) ≡ stream_new
  pub to_far : l.streams (suc (suc k.made)) ≡ stream_new
  pub others : (p : Ptr) → p < suc k.made → l.streams p ≡ k.streams p
  pub running : l.cur ≡ k.cur

connect_to-attached :
    (target : Process) (k : Kernel) (r r' : ℤ) (far near : List IoStream)
    → iostream_attach (iodescr k target.pid) (suc (suc k.made)) (suc k.made) ≡ (r', far)
    → iostream_attach
        (iodescr (put_descr (add_stream (add_stream k)) target.pid far) k.cur)
        (suc k.made)
        (suc (suc k.made))
      ≡ (r, near)
    → connect_to target k
      ≡ (result_only r, put_descr (put_descr (add_stream (add_stream k)) target.pid far) k.cur near)
unfolding connect_to
connect_to-attached target k r r' far near e f = rw (e, f) refl

-- A call for another process with a free descriptor on both sides takes the first one on each, and
-- answers the caller's.
pub connect_to_lem :
    (target : Process) (k : Kernel) (here there : ℕ)
    → Lives k k.cur
    → Lives k target.pid
    → target.pid ≢ k.cur
    → FirstFree (iodescr k k.cur) here
    → FirstFree (iodescr k target.pid) there
    → ((connect_to target k).0 ≡ result_only (pos here))
      × Connected k (connect_to target k).1 target.pid here there
connect_to_lem target k here there a b n f g =
    let input = suc k.made in
    let output = suc input in
    let k₂ = add_stream (add_stream k) in
    let far = set (iodescr k target.pid) there (iostream output input) in
    let k₃ = put_descr k₂ target.pid far in
    let unchanged : iodescr k₃ k.cur ≡ iodescr k k.cur =
      iodescr-put_descr_ne k₂ target.pid k.cur far n in
    let near = set (iodescr k k.cur) here (iostream input output) in
    let run =
      connect_to-attached target k (pos here) (pos there) far near
        (iostream_attach-free (iodescr k target.pid) there output input g)
        (rw unchanged (iostream_attach-free (iodescr k k.cur) here input output f)) in
    let lives : Lives k₃ k.cur = Lives-put_descr k₂ target.pid k.cur far n a in
    (
      ap (λ x. x.0) run,
      rw run (record {
        near = iodescr-put_descr_self k₃ k.cur near lives;
        far =
            iodescr-put_descr_ne k₃ k.cur target.pid near (λ e. n (sym e))
            ∙ iodescr-put_descr_self k₂ target.pid far b;
        to_near =
            write_stream-ne (add_stream k).streams output input stream_new (omega arith)
            ∙ write_stream_self k.streams input stream_new;
        to_far = write_stream_self (add_stream k).streams output stream_new;
        others = λ p h.
            write_stream-ne (add_stream k).streams output p stream_new (omega arith)
            ∙ write_stream-ne k.streams input p stream_new (omega arith);
        running = refl;
      }),
    )
