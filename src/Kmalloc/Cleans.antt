-- ===== src/Kmalloc/Cleans.antt =====
-- The loop of list_clean over one list ends.
use vsop.Base.{
  ℕ, zero, suc, ◌+◌, ◌≤◌, ◌<◌, ◌≡◌, ◌∙◌, sym, ap, inl, inr, List, [], ◌∷◌, ◌++◌, ◌==◌, Bool-cases,
  true, false, arith, length, some, append_assoc,
}
use vsop.Kmalloc.{MemAllocator, clean_from, link, is_buddy, node_free}
use vsop.Kmalloc.Weight.{Lists, with_list, one_if, weigh, total}
use vsop.Kmalloc.Chains.{
  Chain, front_node, last_node, last_node-append, Chain-front_node, Chain-split,
}
use vsop.Kmalloc.Shape.{Shape}
use vsop.Kmalloc.Removal.{link-Removed}
use vsop.Kmalloc.Runs.{clean_from-null, clean_from-step, clean_from-merge}
use vsop.Kmalloc.Puts.{each, each-Mergeable, Cleaned, Cleaned-same, Cleaned-trans, Puts}
use vsop.Kmalloc.Merges.{is_buddy-aligned, empty_not_buddy, merge-Cleaned, merge-next, after-list}

chain_at :
    (a : MemAllocator) (ls : Lists) (k : ℕ) (front back : List ℕ)
    → Shape a ls
    → k < 16
    → ls k ≡ front ++ back
    → Chain a.next (front_node back) back 0
chain_at a ls k front back s h e =
    (Chain-split a.next (a.heads k) front back (rw e at (s.chains k h))).1

-- A block whose next one is not the other half stays.
stepped :
    (fuel : ℕ) (a : MemAllocator) (ls : Lists) (k n : ℕ) (front rest : List ℕ)
    → Shape a ls
    → k < 16
    → ls k ≡ front ++ n ∷ rest
    → is_buddy a k n (front_node rest) ≡ false
    → clean_from (suc fuel) a k (last_node front) n
      ≡ clean_from fuel a k (last_node (front ++ n ∷ [])) (front_node rest)
stepped fuel a ls k n front rest s h e b =
    let (_, nonzero, chain) = chain_at a ls k front (n ∷ rest) s h e in
    let next = Chain-front_node a.next (a.next n) rest chain in
    let z : (n == 0) ≡ false = ground (arith, nonzero) in
    clean_from-step fuel a k (last_node front) n z (ap (is_buddy a k n) next ∙ b)
    ∙ ap (clean_from fuel a k n) next
    ∙ ap (λ p. clean_from fuel a k p (front_node rest)) (sym (last_node-append front n))

-- Two halves merge.
merged :
    (k enough most : ℕ)
    → 1 ≤ k
    → k < 15
    → Puts (k + 1) enough most
    → (fuel : ℕ) (a : MemAllocator) (ls : Lists) (n m : ℕ) (front rest : List ℕ) → Shape a ls
    → ls k ≡ front ++ n ∷ m ∷ rest
    → total each a.addr ls ≤ most
    → enough ≤ fuel
    → is_buddy a k n m ≡ true
    → (d : MemAllocator) × (ms : Lists) × (clean_from (suc fuel) a k (last_node front) n
        ≡ clean_from fuel d k (last_node front) (front_node rest))
      × Cleaned a d ls ms k
      × (ms k ≡ front ++ rest)
unfolding weigh
merged k enough most low high puts fuel a ls n m front rest s e t h buddy =
    let (_, nonzero, (next, here, chain)) =
      chain_at a ls k front (n ∷ m ∷ rest) s (omega arith) e in
    let behind : a.next (a.next n) ≡ front_node rest =
      ap a.next next ∙ Chain-front_node a.next (a.next m) rest chain in
    let b = link a k (last_node front) (a.next (a.next n)) in
    let left = with_list ls k (front ++ rest) in
    let r =
      link-Removed a ls k (a.next (a.next n)) front (n ∷ m ∷ []) rest s (omega arith) e behind in
    let once = r.nodes n in
    let own : one_if n n ≡ 1 = ground arith in
    let (c, ms, done, p) =
      puts fuel b left n r.shape nonzero (omega (arith, once, own, s.single n))
        (omega (arith, r.sum each, t)) h in
    let z : (n == 0) ≡ false = ground (arith, nonzero) in
    let (aligned, upper) = is_buddy-aligned a k n m buddy in
    (
      node_free c m,
      with_list ms 0 (m ∷ ms 0),
      clean_from-merge fuel a c k (last_node front) n z (ap (is_buddy a k n) next ∙ buddy) done
          ∙ ap (λ q. clean_from fuel (node_free c q) k (last_node front) (c.next q)) next
          ∙ ap (clean_from fuel (node_free c m) k (last_node front))
              (merge-next a b c ls ms k n m front rest low high s here r p),
      merge-Cleaned a b c ls ms k n m front rest low high s here r p aligned upper,
      after-list a b c ls ms k n m front rest low high s here r p,
    )

-- The loop of list_clean over list `k` from a node on ends.
pub clean_from-Cleaned :
    (k enough most : ℕ)
    → 1 ≤ k
    → k < 15
    → Puts (k + 1) enough most
    → (fuel : ℕ) (a : MemAllocator) (ls : Lists) (front back : List ℕ) → Shape a ls
    → ls k ≡ front ++ back
    → total each a.addr ls ≤ most
    → length back + 1 + enough ≤ fuel
    → (b : MemAllocator) × (ms : Lists) × (clean_from fuel a k (last_node front) (front_node back)
        ≡ some b)
      × Cleaned a b ls ms k
clean_from-Cleaned k enough most low high puts zero a ls front back s e t h = absurd (omega arith)
clean_from-Cleaned k enough most low high puts (suc fuel) a ls front [] s e t h =
    (a, ls, clean_from-null fuel a k (last_node front), Cleaned-same a ls k s)
clean_from-Cleaned k enough most low high puts (suc fuel) a ls front (n ∷ []) s e t h =
    let step = stepped fuel a ls k n front [] s (omega arith) e (empty_not_buddy a k n) in
    let (b, ms, done, c) =
      clean_from-Cleaned k enough most low high puts fuel a ls (front ++ n ∷ []) [] s
        (e ∙ sym (append_assoc front (n ∷ []) [])) t (omega arith) in
    (b, ms, step ∙ done, c)
clean_from-Cleaned k enough most low high puts (suc fuel) a ls front (n ∷ m ∷ rest) s e t h =
    elim (Bool-cases (is_buddy a k n m)) [
      | inl buddy ↦
          let (d, ns, step, x, list) =
            merged k enough most low high puts fuel a ls n m front rest s e t (omega arith) buddy in
          let (b, ms, done, y) =
            clean_from-Cleaned k enough most low high puts fuel d ns front rest x.shape list
              (omega (arith, x.sum each each-Mergeable, t)) (omega arith) in
          (b, ms, step ∙ done, Cleaned-trans a d b ls ns ms k x y)
      | inr not_buddy ↦
          let step = stepped fuel a ls k n front (m ∷ rest) s (omega arith) e not_buddy in
          let (b, ms, done, c) =
            clean_from-Cleaned k enough most low high puts fuel a ls (front ++ n ∷ []) (m ∷ rest) s
              (e ∙ sym (append_assoc front (n ∷ []) (m ∷ rest))) t (omega arith) in
          (b, ms, step ∙ done, c)
    ]
