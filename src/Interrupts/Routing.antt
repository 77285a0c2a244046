-- ===== src/Interrupts/Routing.antt =====
-- Where the I/O interrupts go.
use vsop.Base.{ℕ, zero, suc, ◌+◌, ◌-◌, ◌*◌, ◌<◌, ◌≤◌, ◌≡◌, ◌≢◌, ◌⊎◌, inl, inr, arith}
use vsop.Base.Loops.{iterate}
use vsop.Interrupts.{ioapic_map, ioapic_init}

-- The redirection of an interrupt: the vector in its low register, the processor in its high one.
abbrev pub Routes : (ℕ → ℕ) → ℕ → ℕ → Type 0
Routes io irq vector = (io (16 + irq * 2) ≡ vector) × (io (17 + irq * 2) ≡ 0)

ioapic_map-Routes : (irq vector : ℕ) (io : ℕ → ℕ) → Routes (ioapic_map irq vector io) irq vector
unfolding ioapic_map
ioapic_map-Routes irq vector io = (ground arith, ground arith)

ioapic_map-other :
    (irq vector other v : ℕ) (io : ℕ → ℕ)
    → irq ≢ other
    → Routes io other v
    → Routes (ioapic_map irq vector io) other v
unfolding ioapic_map
ioapic_map-other irq vector other v io n h = (ground (arith, h.0), ground (arith, h.1))

routing_loop-other :
    (first count other v : ℕ) (io : ℕ → ℕ)
    → (other < first) ⊎ (first + count ≤ other)
    → Routes io other v
    → Routes (iterate (λ irq r. ioapic_map irq (219 - irq) r) first count io) other v
unfolding iterate
routing_loop-other first zero other v io out h = h
routing_loop-other first (suc count) other v io out h =
    routing_loop-other (first + 1) count other v (ioapic_map first (219 - first) io) (ground arith)
      (ioapic_map-other first (219 - first) other v io (ground arith) h)

now_or_later : (first irq : ℕ) → first ≤ irq → (irq ≡ first) ⊎ (first + 1 ≤ irq)
now_or_later first irq h = ground arith

routing_loop-Routes :
    (first count irq : ℕ) (io : ℕ → ℕ)
    → first ≤ irq
    → irq < first + count
    → Routes (iterate (λ irq r. ioapic_map irq (219 - irq) r) first count io) irq (219 - irq)
unfolding iterate
routing_loop-Routes first zero irq io low high = absurd (omega arith)
routing_loop-Routes first (suc count) irq io low high = elim (now_or_later first irq low) [
  | inl e ↦ rw e (
      routing_loop-other (first + 1) count first (219 - first) (ioapic_map first (219 - first) io)
        (inl (omega arith)) (ioapic_map-Routes first (219 - first) io))
  | inr l ↦
      routing_loop-Routes (first + 1) count irq (ioapic_map first (219 - first) io) l (omega arith)
]

which_irq : (irq : ℕ) → irq < 16 → irq ≢ 2 → (irq ≡ 0) ⊎ ((irq ≡ 1) ⊎ (3 ≤ irq))
which_irq irq h n = ground arith

-- After `ioapic_init` the I/O interrupts 0 to 15 but for 2 go to processor 0 with vector 219 less
-- their number, and interrupt 2 keeps the redirection that it had.
pub ioapic_init-Routes :
    (io : ℕ → ℕ) (irq : ℕ)
    → irq < 16
    → (irq ≢ 2 → Routes (ioapic_init io) irq (219 - irq))
      × ((v : ℕ) → Routes io 2 v → Routes (ioapic_init io) 2 v)
unfolding ioapic_init
ioapic_init-Routes io irq h =
    let zeroth = ioapic_map 0 219 io in
    let both = ioapic_map 1 218 zeroth in
    (
      λ n. elim (which_irq irq h n) [
        | inl e ↦ rw e (
            routing_loop-other 3 13 0 219 both (inl (omega arith))
              (ioapic_map-other 1 218 0 219 zeroth (omega arith) (ioapic_map-Routes 0 219 io)))
        | inr (inl e) ↦ rw e (
            routing_loop-other 3 13 1 218 both (inl (omega arith)) (ioapic_map-Routes 1 218 zeroth))
        | inr (inr l) ↦ routing_loop-Routes 3 13 irq both l (omega arith)
      ],
      λ v r. routing_loop-other 3 13 2 v both (inl (omega arith)) (
          ioapic_map-other 1 218 2 v zeroth (omega arith)
            (ioapic_map-other 0 219 2 v io (omega arith) r)),
    )
