-- ===== src/Kmalloc/Runs.antt =====
-- The allocator's functions, one step each.
use vsop.Base.{
  ℕ, zero, suc, ◌+◌, ◌-◌, ◌/◌, ◌%◌, ◌^◌, ◌<◌, ◌≡◌, refl, ◌≢◌, ◌∙◌, sym, ap, inl, inr, Bool-cases,
  true, false, ◌==◌, ltb, some, arith, List, [], ◌∷◌, ◌++◌, length, append_assoc,
}
use mathlib.Core.Path.{subst}
use vsop.Kmalloc.{
  MemAllocator, alocators, node_count, write_at, list_size, node_new, node_free, place_from, link,
  put_between, is_buddy, list_put, clean_from, get_from,
}
use vsop.Kmalloc.Chains.{Chain, front_node, last_node, last_node-append, Chain-front_node}

pub place_from-null :
    (fuel : ℕ) (a : MemAllocator) (new_node prev : ℕ)
    → 0 < fuel
    → place_from fuel a new_node prev 0 ≡ some (prev, 0)
unfolding place_from
place_from-null zero a new_node prev h = absurd (omega arith)
place_from-null (suc fuel) a new_node prev h = refl

pub clean_from-null :
    (fuel : ℕ) (a : MemAllocator) (list prev : ℕ) → clean_from (suc fuel) a list prev 0 ≡ some a
unfolding clean_from
clean_from-null fuel a list prev = refl

pub clean_from-step :
    (fuel : ℕ) (a : MemAllocator) (list prev cur : ℕ)
    → (cur == 0) ≡ false
    → is_buddy a list cur (a.next cur) ≡ false
    → clean_from (suc fuel) a list prev cur ≡ clean_from fuel a list cur (a.next cur)
unfolding clean_from
clean_from-step fuel a list prev cur z b = rw (z, b, clean_from) refl

pub list_put-step :
    (fuel : ℕ) (a : MemAllocator) (list new_node : ℕ) (place : ℕ × ℕ)
    → place_from node_count a new_node 0 (a.heads list) ≡ some place
    → ltb list (alocators - 1) ≡ true
    → list_put (suc fuel) a list new_node
      ≡ clean_from fuel
          (put_between a list new_node place)
          list
          0
          ((put_between a list new_node place).heads list)
unfolding list_put
list_put-step fuel a list new_node place e h = rw (e, h, list_put) refl

pub get_from-hit :
    (fuel levels : ℕ) (a : MemAllocator) (list : ℕ)
    → a.heads list ≢ 0
    → get_from fuel (suc levels) a list
      ≡ some (
        a.addr (a.heads list),
        node_free
            (record a { heads = write_at a.heads list (a.next (a.heads list)) })
            (a.heads list),
      )
unfolding get_from
get_from-hit fuel levels a list n =
    let z : (a.heads list == 0) ≡ false = ground arith in rw (z, get_from) refl

pub get_from-end : (fuel : ℕ) (a : MemAllocator) (list : ℕ) → get_from fuel 0 a list ≡ some (0, a)
unfolding get_from
get_from-end fuel a list = refl

pub get_from-miss :
    (fuel levels : ℕ) (a b : MemAllocator) (list addr : ℕ)
    → a.heads list ≡ 0
    → get_from fuel levels a (list + 1) ≡ some (addr, b)
    → addr ≡ 0
    → get_from fuel (suc levels) a list ≡ some (addr, b)
unfolding get_from
get_from-miss fuel levels a b list addr e f z =
    let y : (a.heads list == 0) ≡ true = ground (arith, e) in
    let x : (addr == 0) ≡ true = ground (arith, z) in rw (y, f, x, get_from) refl

pub get_from-split :
    (fuel levels : ℕ) (a b c : MemAllocator) (list addr : ℕ)
    → a.heads list ≡ 0
    → get_from fuel levels a (list + 1) ≡ some (addr, b)
    → (addr == 0) ≡ false
    → list_put fuel
        (node_new b ((addr + list_size (list + 1) / 2) % 2 ^ 32)).1
        list
        (node_new b ((addr + list_size (list + 1) / 2) % 2 ^ 32)).0
      ≡ some c
    → get_from fuel (suc levels) a list ≡ some (addr, c)
unfolding get_from
get_from-split fuel levels a b c list addr e f z p =
    let y : (a.heads list == 0) ≡ true = ground (arith, e) in rw (y, f, z, p, get_from) refl

-- A block of 15th list is not looked at again.
pub list_put-last :
    (fuel : ℕ) (a : MemAllocator) (list new_node : ℕ) (place : ℕ × ℕ)
    → place_from node_count a new_node 0 (a.heads list) ≡ some place
    → ltb list (alocators - 1) ≡ false
    → list_put (suc fuel) a list new_node ≡ some (put_between a list new_node place)
unfolding list_put
list_put-last fuel a list new_node place e h = rw (e, h, list_put) refl

pub clean_from-merge :
    (fuel : ℕ) (a c : MemAllocator) (list prev cur : ℕ)
    → (cur == 0) ≡ false
    → is_buddy a list cur (a.next cur) ≡ true
    → list_put fuel (link a list prev (a.next (a.next cur))) (list + 1) cur ≡ some c
    → clean_from (suc fuel) a list prev cur
      ≡ clean_from fuel (node_free c (a.next cur)) list prev (c.next (a.next cur))
unfolding clean_from
clean_from-merge fuel a c list prev cur z b p = rw (z, b, p, clean_from) refl

place_from-on :
    (fuel : ℕ) (a : MemAllocator) (new_node prev cur : ℕ)
    → (cur == 0) ≡ false
    → ltb (a.addr cur) (a.addr new_node) ≡ true
    → place_from (suc fuel) a new_node prev cur ≡ place_from fuel a new_node cur (a.next cur)
unfolding place_from
place_from-on fuel a new_node prev cur z l = rw (z, l, place_from) refl

place_from-stop :
    (fuel : ℕ) (a : MemAllocator) (new_node prev cur : ℕ)
    → (cur == 0) ≡ false
    → ltb (a.addr cur) (a.addr new_node) ≡ false
    → place_from (suc fuel) a new_node prev cur ≡ some (prev, cur)
unfolding place_from
place_from-stop fuel a new_node prev cur z l = rw (z, l, place_from) refl

-- The loop of list_put ends between two parts of the list.
pub place_from-splits :
    (fuel : ℕ) (a : MemAllocator) (new_node : ℕ) (front back : List ℕ)
    → Chain a.next (front_node back) back 0
    → length back < fuel
    → (xs : List ℕ) × (ys : List ℕ) × (front ++ back ≡ xs ++ ys)
      × (place_from fuel a new_node (last_node front) (front_node back)
          ≡ some (last_node xs, front_node ys))
place_from-splits zero a new_node front back s h = absurd (omega arith)
place_from-splits (suc fuel) a new_node front [] s h =
    (front, [], refl, place_from-null (suc fuel) a new_node (last_node front) (omega arith))
place_from-splits (suc fuel) a new_node front (n ∷ back) s h =
    let z : (n == 0) ≡ false = ground (arith, s.1) in
    elim (Bool-cases (ltb (a.addr n) (a.addr new_node))) [
      | inl more ↦
          let next = Chain-front_node a.next (a.next n) back s.2 in
          let (xs, ys, e, found) =
            place_from-splits fuel a new_node (front ++ n ∷ []) back
              (subst (λ c. Chain a.next c back 0) next s.2) (omega arith) in
          (
            xs,
            ys,
            sym (append_assoc front (n ∷ []) back) ∙ e,
            place_from-on fuel a new_node (last_node front) n z more
                ∙ ap (place_from fuel a new_node n) next
                ∙ ap (λ p. place_from fuel a new_node p (front_node back))
                    (sym (last_node-append front n))
                ∙ found,
          )
      | inr stop ↦
          (front, n ∷ back, refl, place_from-stop fuel a new_node (last_node front) n z stop)
    ]
