-- ===== src/Descriptors/Laws.antt =====
-- What `iostream_attach` and `iostream_select` do to a descriptor table and find in it.
use vsop.Base.{
  ℕ, zero, suc, ◌+◌, ◌<◌, ◌≡◌, refl, ◌≢◌, ◌⊎◌, inl, inr, List, [], ◌∷◌, arith, length, get_or, set,
}
use vsop.Base.Loops.{below-suc}
use native.Mathlib.Nat.{zero-add}
use native.Mathlib.Decide.{ℕ_discrete}
use vsop.Base.Int.{ℤ, pos, negsuc}
use vsop.Stream.{stream_read_length}
use vsop.Descriptors.{
  Ptr, Store, IoStream, iostream, select_from, iostream_select, attach_from, iostream_attach,
}

-- The input of descriptor `j`, 0 past the end of the table.
abbrev pub input_at : List IoStream → ℕ → Ptr
input_at ds j = (get_or ds j (iostream 0 0)).input

abbrev pub AllFree : List IoStream → Type 0
AllFree [] = Unit
AllFree (d ∷ ds) = (d.input ≡ 0) × AllFree ds

-- The descriptors in use stand before the free ones.
abbrev pub IsPacked : List IoStream → Type 0
IsPacked [] = Unit
IsPacked (d ∷ ds) = (d.input ≡ 0 → AllFree ds) × IsPacked ds

-- Descriptor `k` is the first free one.
pub record FirstFree (ds : List IoStream) (k : ℕ) : Type 0 where
  pub in_table : k < length ds
  pub free : input_at ds k ≡ 0
  pub earlier : (j : ℕ) → j < k → input_at ds j ≢ 0

-- Descriptor `k` is the first with something to read, and all before it are in use.
pub record FirstReadable (m : Store) (ds : List IoStream) (k : ℕ) : Type 0 where
  pub in_table : k < length ds
  pub used : input_at ds k ≢ 0
  pub readable : stream_read_length (m (input_at ds k)) ≢ 0
  pub earlier : (j : ℕ) → j < k → (input_at ds j ≢ 0) × (stream_read_length (m (input_at ds j)) ≡ 0)

abbrev pub NoneFree : List IoStream → Type 0
NoneFree ds = (j : ℕ) → j < length ds → input_at ds j ≢ 0

abbrev pub NoneReadable : Store → List IoStream → Type 0
NoneReadable m ds =
    (j : ℕ) → j < length ds → input_at ds j ≢ 0 → stream_read_length (m (input_at ds j)) ≡ 0

FirstFree-cons :
    (d : IoStream) {ds : List IoStream} {k : ℕ}
    → d.input ≢ 0
    → FirstFree ds k
    → FirstFree (d ∷ ds) (suc k)
FirstFree-cons d {k} h f = record {
  in_table = omega (arith, f.in_table);
  free = f.free;
  earlier = below-suc _ k h f.earlier;
}

FirstReadable-cons :
    {m : Store} (d : IoStream) {ds : List IoStream} {k : ℕ}
    → d.input ≢ 0
    → stream_read_length (m d.input) ≡ 0
    → FirstReadable m ds k
    → FirstReadable m (d ∷ ds) (suc k)
FirstReadable-cons d {k} h empty f = record {
  in_table = omega (arith, f.in_table);
  used = f.used;
  readable = f.readable;
  earlier = below-suc _ k (h, empty) f.earlier;
}

module _ (input output : Ptr) where
  attach_from-used :
      (d : IoStream) (ds : List IoStream) (i : ℕ)
      → d.input ≢ 0
      → attach_from i (d ∷ ds) input output
        ≡ ((attach_from (i + 1) ds input output).0, d ∷ (attach_from (i + 1) ds input output).1)
  unfolding attach_from
  attach_from-used d ds i h = ground arith

  attach_from-free :
      (d : IoStream) (ds : List IoStream) (i : ℕ)
      → d.input ≡ 0
      → attach_from i (d ∷ ds) input output ≡ (pos i, iostream input output ∷ ds)
  unfolding attach_from
  attach_from-free d ds i h = ground arith

  -- How the loop ends: at the first free descriptor, or past a full table.
  Attached : ℕ → List IoStream → ℤ × List IoStream → Type 0
  Attached i ds out =
      ((k : ℕ) × (out ≡ (pos (i + k), set ds k (iostream input output))) × FirstFree ds k)
      ⊎ ((out ≡ (negsuc 0, ds)) × NoneFree ds)

  attach_from-cases : (ds : List IoStream) (i : ℕ) → Attached i ds (attach_from i ds input output)
  unfolding Attached attach_from
  attach_from-cases [] i = inr (refl, λ j h. absurd (omega arith))
  attach_from-cases (d ∷ ds) i = elim (ℕ_discrete d.input 0) [
    | yes e ↦ inl (
      0,
      rw (attach_from-free d ds i e) (ground arith),
      record { in_table = omega arith; free = e; earlier = λ j h. absurd (omega arith) },
    )
    | no h ↦ elim (attach_from-cases ds (i + 1)) [
      | inl (k, e, first) ↦
          inl (suc k, rw (attach_from-used d ds i h, e) (ground arith), FirstFree-cons d h first)
      | inr (e, none) ↦ inr (rw (attach_from-used d ds i h, e), below-suc _ (length ds) h none)
    ]
  ]

-- `iostream_attach` gives the new stream pair the first free descriptor and changes no other, or
-- answers -1 and changes nothing when all are in use.
pub iostream_attach_lem :
    (ds : List IoStream) (input output : Ptr)
    → ((k : ℕ) × (iostream_attach ds input output ≡ (pos k, set ds k (iostream input output)))
        × FirstFree ds k)
      ⊎ ((iostream_attach ds input output ≡ (negsuc 0, ds)) × NoneFree ds)
unfolding iostream_attach Attached
iostream_attach_lem ds input output = simp zero-add at (attach_from-cases input output ds 0)

AllFree-NoneReadable : (m : Store) (ds : List IoStream) → AllFree ds → NoneReadable m ds
AllFree-NoneReadable m [] f j h u = absurd (omega arith)
AllFree-NoneReadable m (d ∷ ds) f zero h u = absurd (u f.0)
AllFree-NoneReadable m (d ∷ ds) f (suc j) h u = AllFree-NoneReadable m ds f.1 j (omega arith) u

Selected : Store → ℕ → List IoStream → ℤ → Type 0
Selected m i ds r =
    ((k : ℕ) × (r ≡ pos (i + k)) × FirstReadable m ds k) ⊎ ((r ≡ negsuc 0) × NoneReadable m ds)

select_from-cases :
    (m : Store) (ds : List IoStream) (i : ℕ) → IsPacked ds → Selected m i ds (select_from m i ds)
unfolding Selected select_from
select_from-cases m [] i p = inr (refl, λ j h. absurd (omega arith))
select_from-cases m (d ∷ ds) i p = elim (ℕ_discrete d.input 0) [
  | yes e ↦ inr (ground arith, AllFree-NoneReadable m (d ∷ ds) (e, p.0 e))
  | no used ↦ elim (ℕ_discrete (stream_read_length (m d.input)) 0) [
    | no some ↦ inl (
      0,
      ground arith,
      record {
        in_table = omega arith;
        used = used;
        readable = some;
        earlier = λ j h. absurd (omega arith);
      },
    )
    | yes none ↦ elim (select_from-cases m ds (i + 1) p.1) [
      | inl (k, e, first) ↦ inl (suc k, ground arith, FirstReadable-cons d used none first)
      | inr (e, rest) ↦ inr (ground arith, below-suc _ (length ds) (λ u. none) rest)
    ]
  ]
]

-- On a packed table `iostream_select` answers the first descriptor that has something to read, and
-- -1 exactly when no descriptor has: its early exit at a free descriptor misses nothing.
pub iostream_select_lem :
    (m : Store) (ds : List IoStream)
    → IsPacked ds
    → ((k : ℕ) × (iostream_select m ds ≡ pos k) × FirstReadable m ds k)
      ⊎ ((iostream_select m ds ≡ negsuc 0) × NoneReadable m ds)
unfolding iostream_select Selected
iostream_select_lem m ds p = simp zero-add at (select_from-cases m ds 0 p)

set-IsPacked :
    (d : IoStream) (ds : List IoStream) (k : ℕ)
    → d.input ≢ 0
    → FirstFree ds k
    → IsPacked ds
    → IsPacked (set ds k d)
set-IsPacked d [] k h f p = p
set-IsPacked d (e ∷ ds) zero h f p = (λ z. absurd (h z), p.1)
set-IsPacked d (e ∷ ds) (suc k) h f p =
    (λ z. absurd (f.earlier 0 (omega arith) z), set-IsPacked d ds k h rest p.1)
  where
    rest : FirstFree ds k
    rest = record {
      in_table = omega (arith, f.in_table);
      free = f.free;
      earlier = λ j q. f.earlier (suc j) (omega arith);
    }

-- Attaching a stream keeps a table packed.
pub iostream_attach-IsPacked :
    (ds : List IoStream) (input output : Ptr)
    → input ≢ 0
    → IsPacked ds
    → IsPacked (iostream_attach ds input output).1
iostream_attach-IsPacked ds input output h p = elim (iostream_attach_lem ds input output) [
  | inl (k, e, f) ↦ rw e (set-IsPacked (iostream input output) ds k h f p)
  | inr (e, _) ↦ rw e p
]
