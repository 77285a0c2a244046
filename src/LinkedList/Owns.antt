-- ===== src/LinkedList/Owns.antt =====
-- The shape of a list's memory, and how its helpers keep it.
use vsop.Base.{suc, ◌+◌, ◌≤◌, ◌≡◌, refl, ◌≢◌, ◌∙◌, sym, true, false, [], ◌∷◌, ◌++◌, arith}
use vsop.LinkedList.{
  Ptr, LinkedList, store, list_elem_new, list_elem_delete, link_last, unlink_first,
}
use vsop.LinkedList.Chain.{
  Cells, has, IsDistinct, AreMade, last_elem, Chain, Chain-store, has-AreMade, AreMade-suc,
  has-append, has-last_elem, Chain-link, IsDistinct-append, last_elem-append, last_elem-ne-zero,
  AreMade-append, store_self,
}

abbrev pub Apart : Cells → Cells → Type 0
Apart cs ds = (p : Ptr) → has p cs ≡ true → has p ds ≡ false

-- The elements in use, and those kept for later, are distinct and all that the list refers to.
pub record Owns (l : LinkedList) (used unused : Cells) : Type 0 where
  pub chain : Chain l.heap l.head used
  pub spare : Chain l.heap l.free unused
  pub distinct : IsDistinct used
  pub spare_distinct : IsDistinct unused
  pub apart : Apart used unused
  pub made : AreMade l.made used
  pub spare_made : AreMade l.made unused
  pub tail : l.tail ≡ last_elem used

-- Element `a` holds `t`, points nowhere, and is in neither chain.
pub record IsLoose (l : LinkedList) (used unused : Cells) (a t : Ptr) : Type 0 where
  pub nonnull : a ≢ 0
  pub target : (l.heap a).target ≡ t
  pub next : (l.heap a).next ≡ 0
  pub not_used : has a used ≡ false
  pub not_spare : has a unused ≡ false
  pub made : a ≤ l.made

list_elem_new-reuse :
    (l : LinkedList) (t : Ptr)
    → l.free ≢ 0
    → list_elem_new l t ≡ (
      l.free,
      record l {
        heap = store l.heap l.free (record { target = t; next = 0 });
        free = (l.heap l.free).next;
      },
    )
unfolding list_elem_new
list_elem_new-reuse l t e = ground arith

module _ {l : LinkedList} {used : Cells} where
  -- With no used element left, the new one is made.
  pub new_made :
      (t : Ptr)
      → Owns l used []
      → let (a, l') = list_elem_new l t in Owns l' used [] × IsLoose l' used [] a t
  unfolding list_elem_new
  new_made t o =
      let fresh : has (suc l.made) used ≡ false =
        has-AreMade l.made (suc l.made) used o.made (omega arith) in
      rw o.spare (
        record {
          chain = Chain-store l.heap (suc l.made) _ l.head used fresh o.chain;
          spare = refl;
          distinct = o.distinct;
          spare_distinct = tt;
          apart = λ p h. refl;
          made = AreMade-suc l.made used o.made;
          spare_made = tt;
          tail = o.tail;
        },
        record {
          nonnull = omega arith;
          target = ground arith;
          next = ground arith;
          not_used = fresh;
          not_spare = refl;
          made = omega arith;
        },
      )

  -- Otherwise the one that was freed last is taken.
  pub new_reused :
      (t f u : Ptr) (unused : Cells)
      → Owns l used ((f, u) ∷ unused)
      → let (a, l') = list_elem_new l t in Owns l' used unused × IsLoose l' used unused a t
  unfolding list_elem_new
  new_reused t f u unused o =
      let (here, nonnull, _, rest) = o.spare in
      let out : has l.free unused ≡ false = rw here o.spare_distinct.0 in
      let free : has l.free used ≡ false = ground (arith, o.apart l.free) in
      let e : l.free ≢ 0 = rw here nonnull in
      let rest' : Chain l.heap (l.heap l.free).next unused = rw here rest in
      rw (list_elem_new-reuse l t e) (
        record {
          chain = Chain-store l.heap l.free _ l.head used free o.chain;
          spare = Chain-store l.heap l.free _ _ unused out rest';
          distinct = o.distinct;
          spare_distinct = o.spare_distinct.1;
          apart = λ p h. ground (arith, o.apart p h);
          made = o.made;
          spare_made = o.spare_made.1;
          tail = o.tail;
        },
        record {
          nonnull = e;
          target = ground arith;
          next = ground arith;
          not_used = free;
          not_spare = out;
          made = rw here o.spare_made.0;
        },
      )

link_last-empty :
    (l : LinkedList) (a : Ptr)
    → l.tail ≡ 0
    → link_last l a ≡ record l { head = a; tail = a; size = l.size + 1 }
unfolding link_last
link_last-empty l a e = ground arith

link_last-nonempty :
    (l : LinkedList) (a z : Ptr)
    → l.tail ≡ z
    → z ≢ 0
    → link_last l a ≡ record l {
      heap = store l.heap z (record { target = (l.heap z).target; next = a });
      tail = a;
      size = l.size + 1;
    }
unfolding link_last
link_last-nonempty l a z e n = ground arith

-- A loose element behind the last one in use.
pub link_last-Owns :
    {l : LinkedList} (used : Cells) {unused : Cells} {a t : Ptr}
    → Owns l used unused
    → IsLoose l used unused a t
    → Owns (link_last l a) (used ++ (a, t) ∷ []) unused
link_last-Owns {l} [] {unused} {a} {t} o e = rw (link_last-empty l a o.tail) (record {
  chain = (refl, e.nonnull, e.target, e.next);
  spare = o.spare;
  distinct = (refl, tt);
  spare_distinct = o.spare_distinct;
  apart = λ p h. ground (arith, e.not_spare);
  made = (e.made, tt);
  spare_made = o.spare_made;
  tail = refl;
})
link_last-Owns {l} (c ∷ cs) {unused} {a} {t} o e =
    let z = last_elem (c ∷ cs) in
    let in_use = has-last_elem c cs in
    rw (link_last-nonempty l a z o.tail (last_elem-ne-zero l.heap l.head c cs o.chain)) (record {
      chain =
          Chain-link l.heap a t l.head c cs e.nonnull e.target e.next e.not_used o.distinct o.chain;
      spare = Chain-store l.heap z _ l.free unused (o.apart z in_use) o.spare;
      distinct = IsDistinct-append (c ∷ cs) a t e.not_used o.distinct;
      spare_distinct = o.spare_distinct;
      apart = λ p h. ground (arith, has-append p (c ∷ cs) ((a, t) ∷ []), o.apart p, e.not_spare);
      made = AreMade-append l.made a t (c ∷ cs) o.made e.made;
      spare_made = o.spare_made;
      tail = sym (last_elem-append (c ∷ cs) a t);
    })

unlink_first-last :
    (l : LinkedList) → l.head ≡ l.tail → unlink_first l ≡ record l { head = 0; tail = 0 }
unfolding unlink_first
unlink_first-last l e = ground arith

unlink_first-more :
    (l : LinkedList) (p : Ptr)
    → l.head ≡ p
    → p ≢ l.tail
    → unlink_first l ≡ record l { head = (l.heap p).next }
unfolding unlink_first
unlink_first-more l p e n = ground arith

-- The first element leaves the chain in use, and is loose but for what it holds.
pub unlink_first-Owns :
    {l : LinkedList} (p t : Ptr) (cs : Cells) {unused : Cells}
    → Owns l ((p, t) ∷ cs) unused
    → Owns (unlink_first l) cs unused
unlink_first-Owns {l} p t [] {unused} o =
    rw (unlink_first-last l (o.chain.0 ∙ sym o.tail)) (record {
      chain = refl;
      spare = o.spare;
      distinct = tt;
      spare_distinct = o.spare_distinct;
      apart = λ q h. cc;
      made = tt;
      spare_made = o.spare_made;
      tail = refl;
    })
unlink_first-Owns {l} p t (c ∷ cs) {unused} o =
    let more : p ≢ l.tail = λ e. ground (arith, has-last_elem c cs, o.distinct.0, o.tail) in
    rw (unlink_first-more l p o.chain.0 more) (record {
      chain = o.chain.3;
      spare = o.spare;
      distinct = o.distinct.1;
      spare_distinct = o.spare_distinct;
      apart = λ q h. o.apart q (ground arith);
      made = o.made.1;
      spare_made = o.spare_made;
      tail = o.tail;
    })

-- An element that is in neither chain is kept for later.
pub list_elem_delete-Owns :
    {l : LinkedList} {used unused : Cells} (p : Ptr)
    → Owns l used unused
    → p ≢ 0
    → p ≤ l.made
    → has p used ≡ false
    → has p unused ≡ false
    → Owns (list_elem_delete l p) used ((p, 0) ∷ unused)
unfolding list_elem_delete
list_elem_delete-Owns {l} {used} {unused} p o n made out out' = record {
  chain = Chain-store l.heap p _ l.head used out o.chain;
  spare = (
    refl,
    n,
    ground arith,
    rw (store_self l.heap p (record { target = 0; next = l.free }))
        (Chain-store l.heap p _ l.free unused out' o.spare),
  );
  distinct = o.distinct;
  spare_distinct = (out', o.spare_distinct);
  apart = λ q h. ground (arith, o.apart q h, out);
  made = o.made;
  spare_made = (made, o.spare_made);
  tail = o.tail;
}
