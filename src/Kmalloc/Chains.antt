-- ===== src/Kmalloc/Chains.antt =====
-- The pointers from node to node of a list, up to a node that stands for the rest.
use vsop.Base.{ℕ, ◌≤◌, ◌≡◌, refl, ◌≢◌, List, [], ◌∷◌, ◌++◌, arith}
use mathlib.Core.Path.{subst}
use vsop.Kmalloc.{write_at}
use vsop.Kmalloc.Weight.{count}

-- From `h` the pointers lead through `ns` to `c`.
abbrev pub Chain : (ℕ → ℕ) → ℕ → List ℕ → ℕ → Type 0
Chain next h [] c = h ≡ c
Chain next h (n ∷ ns) c = (h ≡ n) × (n ≢ 0) × Chain next (next n) ns c

-- The first and the last node, 0 if there is none.
abbrev pub front_node : List ℕ → ℕ
front_node [] = 0
front_node (n ∷ ns) = n

abbrev pub last_node : List ℕ → ℕ
last_node [] = 0
last_node (n ∷ []) = n
last_node (n ∷ m ∷ ns) = last_node (m ∷ ns)

pub write_at_self : (f : ℕ → ℕ) (i v : ℕ) → write_at f i v i ≡ v
write_at_self f i v = ground arith

pub write_at-ne : (f : ℕ → ℕ) (i v j : ℕ) → i ≢ j → write_at f i v j ≡ f j
write_at-ne f i v j h = ground arith

pub Chain-write :
    (next : ℕ → ℕ) (p v h c : ℕ) (ns : List ℕ)
    → count p ns ≡ 0
    → Chain next h ns c
    → Chain (write_at next p v) h ns c
Chain-write next p v h c [] out s = s
Chain-write next p v h c (n ∷ ns) out (here, nonzero, rest) =
    let spared : write_at next p v n ≡ next n = ground arith in
    (here, nonzero, rw spared (Chain-write next p v (next n) c ns (omega arith) rest))

pub Chain-append :
    (next : ℕ → ℕ) (h c d : ℕ) (xs ys : List ℕ)
    → Chain next h xs c
    → Chain next c ys d
    → Chain next h (xs ++ ys) d
Chain-append next h c d [] ys s t = rw s t
Chain-append next h c d (n ∷ xs) ys (here, nonzero, rest) t =
    (here, nonzero, Chain-append next (next n) c d xs ys rest t)

pub Chain-front_node : (next : ℕ → ℕ) (h : ℕ) (ns : List ℕ) → Chain next h ns 0 → h ≡ front_node ns
Chain-front_node next h [] s = s
Chain-front_node next h (n ∷ ns) s = s.0

pub Chain-split :
    (next : ℕ → ℕ) (h : ℕ) (xs ys : List ℕ)
    → Chain next h (xs ++ ys) 0
    → Chain next h xs (front_node ys) × Chain next (front_node ys) ys 0
Chain-split next h [] [] s = (s, refl)
Chain-split next h [] (n ∷ ys) s = (s.0, (refl, s.1, s.2))
Chain-split next h (n ∷ xs) ys (here, nonzero, rest) =
    let (a, b) = Chain-split next (next n) xs ys rest in ((here, nonzero, a), b)

pub count-zero : (next : ℕ → ℕ) (h c : ℕ) (ns : List ℕ) → Chain next h ns c → count 0 ns ≡ 0
count-zero next h c [] s = refl
count-zero next h c (n ∷ ns) (here, nonzero, rest) =
    ground (arith, count-zero next (next n) c ns rest)

pub count-last_node : (n : ℕ) (ns : List ℕ) → 1 ≤ count (last_node (n ∷ ns)) (n ∷ ns)
count-last_node n [] = ground arith
count-last_node n (m ∷ ns) = omega (arith, count-last_node m ns)

pub last_node-ne-zero :
    (next : ℕ → ℕ) (h c n : ℕ) (ns : List ℕ) → Chain next h (n ∷ ns) c → last_node (n ∷ ns) ≢ 0
last_node-ne-zero next h c n [] s = s.1
last_node-ne-zero next h c n (m ∷ ns) s = last_node-ne-zero next (next n) c m ns s.2

pub last_node-append : (xs : List ℕ) (n : ℕ) → last_node (xs ++ n ∷ []) ≡ n
last_node-append [] n = refl
last_node-append (x ∷ []) n = refl
last_node-append (x ∷ y ∷ xs) n = last_node-append (y ∷ xs) n

-- Writing the pointer of the last node leads the chain elsewhere.
pub Chain-relink :
    (next : ℕ → ℕ) (v h c n : ℕ) (ns : List ℕ)
    → ((p : ℕ) → count p (n ∷ ns) ≤ 1)
    → Chain next h (n ∷ ns) c
    → Chain (write_at next (last_node (n ∷ ns)) v) h (n ∷ ns) v
Chain-relink next v h c n [] single (here, nonzero, rest) = (here, nonzero, write_at_self next n v)
Chain-relink next v h c n (m ∷ ns) single (here, nonzero, rest) =
    let last = last_node (m ∷ ns) in
    let once = count-last_node m ns in
    let other : last ≢ n =
      λ e. one_too_many n (m ∷ ns) (single n) (subst (λ q. 1 ≤ count q (m ∷ ns)) e once) in
    let spared = write_at-ne next last v n other in
    (here, nonzero, rw spared (Chain-relink next v (next n) c m ns (λ p. below p (single p)) rest))
  where
    one_too_many : (k : ℕ) (ks : List ℕ) → count k (k ∷ ks) ≤ 1 → 1 ≤ count k ks → ⊥
    one_too_many k ks a b = ground arith

    below : (p : ℕ) → count p (n ∷ m ∷ ns) ≤ 1 → count p (m ∷ ns) ≤ 1
    below p a = omega arith
