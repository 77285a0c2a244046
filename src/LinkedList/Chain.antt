-- ===== src/LinkedList/Chain.antt =====
-- Chains of elements: what the `next` pointers lead through.
use vsop.Base.{
  ℕ, suc, ◌≤◌, ◌≡◌, refl, ◌≢◌, Bool, true, false, ◌||◌, List, [], ◌∷◌, ◌++◌, arith, ◌==◌,
}
use vsop.LinkedList.{Ptr, ListElem, store}

abbrev pub Heap : Type 0
Heap = Ptr → ListElem

-- An element with its target.
abbrev pub Cells : Type 0
Cells = List (Ptr × Ptr)

abbrev pub has : Ptr → Cells → Bool
has p [] = false
has p ((q, _) ∷ cs) = (p == q) || has p cs

-- Distinct elements.
abbrev pub IsDistinct : Cells → Type 0
IsDistinct [] = Unit
IsDistinct ((p, _) ∷ cs) = (has p cs ≡ false) × IsDistinct cs

-- Elements among the first `n` that were made.
abbrev pub AreMade : ℕ → Cells → Type 0
AreMade n [] = Unit
AreMade n ((p, _) ∷ cs) = (p ≤ n) × AreMade n cs

-- The last element, 0 if there is none.
abbrev pub last_elem : Cells → Ptr
last_elem [] = 0
last_elem ((p, _) ∷ []) = p
last_elem (_ ∷ c ∷ cs) = last_elem (c ∷ cs)

-- From `p` the pointers lead through the elements of `cs` to null.
abbrev pub Chain : Heap → Ptr → Cells → Type 0
Chain h p [] = p ≡ 0
Chain h p ((q, t) ∷ cs) = (p ≡ q) × (q ≢ 0) × ((h q).target ≡ t) × Chain h (h q).next cs

pub store_self : (h : Heap) (p : Ptr) (e : ListElem) → store h p e p ≡ e
store_self h p e = ground arith

pub store-ne : (h : Heap) {p q : Ptr} (e : ListElem) → p ≢ q → store h p e q ≡ h q
store-ne h e n = ground arith

-- A write elsewhere leaves a chain alone.
pub Chain-store :
    (h : Heap) (a : Ptr) (e : ListElem) (p : Ptr) (cs : Cells)
    → has a cs ≡ false
    → Chain h p cs
    → Chain (store h a e) p cs
Chain-store h a e p [] out c = c
Chain-store h a e p ((q, t) ∷ cs) out (here, n, target, rest) =
    let spared : store h a e q ≡ h q = ground arith in
    (here, n, rw spared target, rw spared (Chain-store h a e (h q).next cs (ground arith) rest))

-- An element that has not been made is in no chain.
pub has-AreMade : (n p : ℕ) (cs : Cells) → AreMade n cs → suc n ≤ p → has p cs ≡ false
has-AreMade n p [] m h = refl
has-AreMade n p ((q, _) ∷ cs) m h = ground (arith, has-AreMade n p cs m.1 h)

pub AreMade-suc : (n : ℕ) (cs : Cells) → AreMade n cs → AreMade (suc n) cs
AreMade-suc n [] m = m
AreMade-suc n ((q, _) ∷ cs) m = (omega (arith, m.0), AreMade-suc n cs m.1)

pub has-append : (p : Ptr) (cs ds : Cells) → has p (cs ++ ds) ≡ (has p cs || has p ds)
has-append p [] ds = refl
has-append p ((q, _) ∷ cs) ds = ground (arith, has-append p cs ds)

pub has-last_elem : (c : Ptr × Ptr) (cs : Cells) → has (last_elem (c ∷ cs)) (c ∷ cs) ≡ true
has-last_elem c [] = ground arith
has-last_elem c (d ∷ cs) = ground (arith, has-last_elem d cs)

-- Linking a new element behind the last one makes the chain longer by it.
pub Chain-link :
    (h : Heap) (a t : Ptr) (p : Ptr) (c : Ptr × Ptr) (cs : Cells)
    → a ≢ 0
    → (h a).target ≡ t
    → (h a).next ≡ 0
    → has a (c ∷ cs) ≡ false
    → IsDistinct (c ∷ cs)
    → Chain h p (c ∷ cs)
    → let z = last_elem (c ∷ cs) in
      Chain (store h z (record { target = (h z).target; next = a })) p (c ∷ cs ++ (a, t) ∷ [])
Chain-link h a t p (q, u) [] n e f out d (here, nq, target, rest) = ground arith
Chain-link h a t p (q, u) (c ∷ cs) n e f out d (here, nq, target, rest) =
    let z = last_elem (c ∷ cs) in
    let apart : z ≢ q = λ same. ground (arith, has-last_elem c cs) in
    let spared = store-ne h (record { target = (h z).target; next = a }) apart in
    (
      here,
      nq,
      rw spared target,
      rw spared (Chain-link h a t (h q).next c cs n e f (ground arith) d.1 rest),
    )

-- A list of distinct elements stays one with another element behind.
pub IsDistinct-append :
    (cs : Cells) (a t : Ptr) → has a cs ≡ false → IsDistinct cs → IsDistinct (cs ++ (a, t) ∷ [])
IsDistinct-append [] a t out d = (refl, tt)
IsDistinct-append ((q, u) ∷ cs) a t out d =
    (ground (arith, has-append q cs ((a, t) ∷ [])), IsDistinct-append cs a t (ground arith) d.1)

pub last_elem-append : (cs : Cells) (a t : Ptr) → last_elem (cs ++ (a, t) ∷ []) ≡ a
last_elem-append [] a t = refl
last_elem-append (c ∷ []) a t = refl
last_elem-append (c ∷ d ∷ cs) a t = last_elem-append (d ∷ cs) a t

-- A chain that starts at an element has one.
pub last_elem-ne-zero :
    (h : Heap) (p : Ptr) (c : Ptr × Ptr) (cs : Cells) → Chain h p (c ∷ cs) → last_elem (c ∷ cs) ≢ 0
last_elem-ne-zero h p c [] r = r.1
last_elem-ne-zero h p c (d ∷ cs) r = last_elem-ne-zero h _ d cs r.3

pub AreMade-append : (n a t : ℕ) (cs : Cells) → AreMade n cs → a ≤ n → AreMade n (cs ++ (a, t) ∷ [])
AreMade-append n a t [] m h = (h, tt)
AreMade-append n a t ((q, _) ∷ cs) m h = (m.0, AreMade-append n a t cs m.1 h)
