-- ===== src/LinkedList/Queue.antt =====
-- A list is the queue of the pointers pushed and not yet popped.
use vsop.Base.{
  ℕ, ◌≤◌, ◌+◌, ◌-◌, ◌≡◌, refl, ◌≢◌, ◌∙◌, ap, List, [], ◌∷◌, ◌++◌, arith, length, length-append,
}
use vsop.LinkedList.{
  Ptr, LinkedList, no_elems, list_elem_new, list_elem_delete, link_last, list_push, unlink_first,
  take_target, list_pop,
}
use vsop.LinkedList.Chain.{Cells}
use vsop.LinkedList.Owns.{
  Owns, new_made, new_reused, link_last-Owns, unlink_first-Owns, list_elem_delete-Owns,
}

abbrev pub targets : Cells → List Ptr
targets [] = []
targets ((_, t) ∷ cs) = t ∷ targets cs

abbrev pub NoNull : List Ptr → Type 0
NoNull [] = Unit
NoNull (t ∷ ts) = (t ≢ 0) × NoNull ts

-- The list holds the pointers `ts`, the oldest first, none of them null.
pub record Holds (l : LinkedList) (ts : List Ptr) : Type 0 where
  pub used : Cells
  pub unused : Cells
  pub owns : Owns l used unused
  pub content : targets used ≡ ts
  pub size : l.size ≡ length ts
  pub nonnull : NoNull ts

pub no_elems-Holds : Holds no_elems []
no_elems-Holds = record {
  used = [];
  unused = [];
  owns = record {
    chain = refl;
    spare = refl;
    distinct = tt;
    spare_distinct = tt;
    apart = λ p h. refl;
    made = tt;
    spare_made = tt;
    tail = refl;
  };
  content = refl;
  size = refl;
  nonnull = tt;
}

targets-append : (cs : Cells) (a t : Ptr) → targets (cs ++ (a, t) ∷ []) ≡ targets cs ++ t ∷ []
targets-append [] a t = refl
targets-append ((_, u) ∷ cs) a t = ap (λ r. u ∷ r) (targets-append cs a t)

NoNull-append : (ts : List Ptr) (t : Ptr) → NoNull ts → t ≢ 0 → NoNull (ts ++ t ∷ [])
NoNull-append [] t n h = (h, tt)
NoNull-append (u ∷ ts) t n h = (n.0, NoNull-append ts t n.1 h)

size-link_last : (l : LinkedList) (a : Ptr) → (link_last l a).size ≡ l.size + 1
unfolding link_last
size-link_last l a = ground arith

size-list_elem_new : (l : LinkedList) (t : Ptr) → (list_elem_new l t).1.size ≡ l.size
unfolding list_elem_new
size-list_elem_new l t = ground arith

size-list_push : (l : LinkedList) (t : Ptr) → (list_push l t).size ≡ l.size + 1
unfolding list_push
size-list_push l t = size-link_last _ _ ∙ ap (λ n. n + 1) (size-list_elem_new l t)

-- The element of a push, used before or new, is linked behind the others.
list_push-Owns :
    {l : LinkedList} (used unused : Cells) (t : Ptr)
    → Owns l used unused
    → (a : Ptr) × (spare : Cells) × Owns (list_push l t) (used ++ (a, t) ∷ []) spare
unfolding list_push
list_push-Owns {l} used [] t o =
    let (o', e) = new_made t o in ((list_elem_new l t).0, [], link_last-Owns used o' e)
list_push-Owns {l} used ((f, u) ∷ unused) t o =
    let (o', e) = new_reused t f u unused o in
    ((list_elem_new l t).0, unused, link_last-Owns used o' e)

-- A push puts the pointer behind the others.
pub list_push-Holds :
    {l : LinkedList} {ts : List Ptr} (t : Ptr)
    → Holds l ts
    → t ≢ 0
    → Holds (list_push l t) (ts ++ t ∷ [])
list_push-Holds {l} {ts} t h n =
    let (a, spare, owns) = list_push-Owns h.used h.unused t h.owns in
    record {
      used = h.used ++ (a, t) ∷ [];
      unused = spare;
      owns = owns;
      content = rw (targets-append h.used a t, h.content);
      size = omega (arith, size-list_push l t, h.size, length-append ts (t ∷ []));
      nonnull = NoNull-append ts t h.nonnull n;
    }

-- With no pointer held a pop returns null and changes nothing.
pub list_pop-nil : {l : LinkedList} → Holds l [] → list_pop l ≡ (0, l)
unfolding list_pop
list_pop-nil {l} h = rw h.size

heap-unlink_first : (l : LinkedList) → (unlink_first l).heap ≡ l.heap
unfolding unlink_first
heap-unlink_first l = ground arith

made-unlink_first : (l : LinkedList) → (unlink_first l).made ≡ l.made
unfolding unlink_first
made-unlink_first l = ground arith

size-unlink_first : (l : LinkedList) → (unlink_first l).size ≡ l.size
unfolding unlink_first
size-unlink_first l = ground arith

take_target-some :
    (l : LinkedList) (p t : Ptr)
    → p ≢ 0
    → (l.heap p).target ≡ t
    → t ≢ 0
    → take_target l p ≡ (t, record (list_elem_delete l p) { size = l.size - 1 })
unfolding take_target list_elem_delete
take_target-some l p t n e m = ground arith

list_pop-pos :
    (l : LinkedList) (p : Ptr)
    → l.size ≢ 0
    → l.head ≡ p
    → list_pop l ≡ take_target (unlink_first l) p
unfolding list_pop
list_pop-pos l p n e = ground arith

resized :
    {l : LinkedList} {used unused : Cells} (n : ℕ)
    → Owns l used unused
    → Owns (record l { size = n }) used unused
resized n o = record {
  chain = o.chain;
  spare = o.spare;
  distinct = o.distinct;
  spare_distinct = o.spare_distinct;
  apart = o.apart;
  made = o.made;
  spare_made = o.spare_made;
  tail = o.tail;
}

-- The pop of a list whose first element is `p`.
list_pop-Owns :
    {l : LinkedList} (p t : Ptr) (cs unused : Cells)
    → Owns l ((p, t) ∷ cs) unused
    → l.size ≢ 0
    → t ≢ 0
    → ((list_pop l).0 ≡ t)
      × Owns (list_pop l).1 cs ((p, 0) ∷ unused)
      × ((list_pop l).1.size ≡ l.size - 1)
list_pop-Owns {l} p t cs unused o n m =
    let (here, nonnull, target, _) = o.chain in
    let l' = unlink_first l in
    let target' : (l'.heap p).target ≡ t = rw (heap-unlink_first l) target in
    let made : p ≤ l'.made = rw (made-unlink_first l) o.made.0 in
    rw (list_pop-pos l p n here, take_target-some l' p t nonnull target' m)
      (
        refl,
        resized (l'.size - 1) (
            list_elem_delete-Owns p (unlink_first-Owns p t cs o) nonnull made o.distinct.0
              (o.apart p (ground arith))),
        rw (size-unlink_first l),
      )

-- Otherwise it returns the oldest and leaves the others.
pub list_pop-cons :
    {l : LinkedList} {t : Ptr} {ts : List Ptr}
    → Holds l (t ∷ ts)
    → ((list_pop l).0 ≡ t) × Holds (list_pop l).1 ts
list_pop-cons {l} {t} {ts} h = popped h.used h.owns h.content
  where
    popped :
        (used : Cells)
        → Owns l used h.unused
        → targets used ≡ t ∷ ts
        → ((list_pop l).0 ≡ t) × Holds (list_pop l).1 ts
    popped [] o e = cc
    popped ((p, u) ∷ cs) o e =
        let same : u ≡ t = ground arith in
        let rest : targets cs ≡ ts = ground arith in
        let (result, owns, size) =
          list_pop-Owns p u cs h.unused o (omega (arith, h.size)) (rw same h.nonnull.0) in
        (
          result ∙ same,
          record {
            used = cs;
            unused = (p, 0) ∷ h.unused;
            owns = owns;
            content = rest;
            size = omega (arith, size, h.size);
            nonnull = h.nonnull.1;
          },
        )
