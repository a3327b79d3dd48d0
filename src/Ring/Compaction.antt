-- ===== src/Ring/Compaction.antt =====
-- What `compact` does to the queue.
use django_channels_shm.Prelude.{
  ℕ, zero, suc, ◌+◌, ◌-◌, ◌≤◌, ◌<◌, max, ◌≡◌, refl, sym, ◌∙◌, List, Bool, false, ◌&&◌, Option, some,
  arith, leb, ==_refl, eq→==, ne→==, ℕ_discrete,
}
use mathlib.Core.Path.{subst}
use django_channels_shm.Shm.{Memory, set_word, exec, ◌>>=◌, store_u64}
use django_channels_shm.Shm.Exec.{exec-bind}
use django_channels_shm.Layout.{
  ring_enqueue_pos, ring_dequeue_pos, ring_last_compact_enq, ring_last_compact_deq, slot_seq,
  slot_compact_mark,
}
use django_channels_shm.Slab.{SlabAllocator}
use django_channels_shm.Ring.{slot_offset}
use django_channels_shm.Ring.Repair.{compact_slot, compact_slots, compact}
use django_channels_shm.Ring.Contents.{Message, IsRing}
use django_channels_shm.Ring.Undisturbed.{
  Undisturbed-IsRing, marked-Undisturbed, noted, noted-Undisturbed, recent,
}

-- None of the slots before slot `n` is marked as one that may be stuck.
abbrev pub IsUnmarked : ℕ → ℕ → Memory → Type 0
IsUnmarked ring n m = (k : ℕ) → k < n → m.word (slot_offset ring k) slot_compact_mark ≡ 0

IsUnmarked-next :
    (ring i : ℕ) (m : Memory)
    → IsUnmarked ring i m
    → IsUnmarked ring (i + 1) (set_word (slot_offset ring i) slot_compact_mark 0 m)
IsUnmarked-next ring i m u = λ k l. elim (ℕ_discrete i k) [
  | yes e ↦ rw (eq→== (slot_offset ring i) (slot_offset ring k) (omega arith))
  | no n ↦
      rw (ne→== (slot_offset ring i) (slot_offset ring k) (λ e. n (omega (arith, e))))
        (u k (omega arith))
]

not_stuck :
    (cap enq seq : ℕ) (o : Bool)
    → enq < seq + cap
    → (leb cap enq && leb seq (enq - cap) && o) ≡ false
not_stuck cap' enq seq o h = ground arith

module _ (rounds : ℕ) (slab : SlabAllocator) (ring cap deq enq : ℕ)
    (cells : List (Option Message)) where
  compact_slot-run :
      (m : Memory) (i : ℕ)
      → enq < m.word (slot_offset ring i) slot_seq + cap
      → exec (compact_slot rounds slab ring cap enq i) m
        ≡ some (tt, set_word (slot_offset ring i) slot_compact_mark 0 m)
  unfolding compact_slot exec
  compact_slot-run m i h = rw (not_stuck cap enq (m.word (slot_offset ring i) slot_seq) _ h, exec)

  compact_slots-IsRing :
      (n i : ℕ) (m : Memory)
      → i + n ≤ cap
      → IsRing m ring cap deq enq cells
      → IsUnmarked ring i m
      → (m' : Memory) × (exec (compact_slots rounds slab ring n cap enq i) m ≡ some (tt, m'))
        × IsRing m' ring cap deq enq cells
        × IsUnmarked ring (i + n) m'
  unfolding compact_slots exec
  compact_slots-IsRing zero i m h r u = (m, refl, r, λ k l. u k (omega arith))
  compact_slots-IsRing (suc n) i m h r u =
      let m₁ = set_word (slot_offset ring i) slot_compact_mark 0 m in
      let ran = compact_slot-run m i (recent m ring cap deq enq i cells r (omega arith)) in
      let (m', more, r', u') =
        compact_slots-IsRing n (i + 1) m₁ (omega arith)
          (Undisturbed-IsRing m m₁ ring cap deq enq cells
            (marked-Undisturbed m ring (slot_offset ring i) 0) r)
          (IsUnmarked-next ring i m u) in
      (
        m',
        exec-bind (compact_slot rounds slab ring cap enq i) _ m ran ∙ more,
        r',
        λ k l. u' k (omega arith),
      )

-- Compaction leaves a ring at rest as it is: no message, empty slot or given-up round changes. No slot
-- is marked as stuck afterwards, whatever marks there were. It records the counters that it saw.
pub compact-IsRing :
    (rounds : ℕ) (slab : SlabAllocator) (m : Memory) (ring cap deq enq : ℕ)
    (cells : List (Option Message))
    → IsRing m ring cap deq enq cells
    → (m' : Memory) × (exec (compact rounds slab ring) m ≡ some (tt, m'))
      × IsRing m' ring cap deq enq cells
      × IsUnmarked ring cap m'
      × (m'.word ring ring_last_compact_enq ≡ enq)
      × (m'.word ring ring_last_compact_deq ≡ deq)
unfolding compact exec
compact-IsRing rounds slab m ring cap' deq enq cells r =
    let (m₁, ran, r₁, u₁) =
      compact_slots-IsRing rounds slab ring cap' deq enq cells cap' 0 m (omega arith) r
        (λ k l. absurd (omega (arith, l))) in
    let top : max enq deq ≡ enq = omega (arith, r.span) in
    let tail = λ (e d : ℕ) (_ : Unit {0}).
      store_u64 ring ring_last_compact_enq e >>= λ _. store_u64 ring ring_last_compact_deq d in
    let from_start =
      λ (n e d : ℕ). exec (compact_slots rounds slab ring n n (max e d) 0 >>= tail e d) m in
    let known : from_start cap' enq deq ≡ some (tt, noted ring enq deq m₁) =
      rw top (exec-bind (compact_slots rounds slab ring cap' cap' enq 0) (tail enq deq) m ran) in
    (
      noted ring enq deq m₁,
      subst
          (λ n.
            from_start n (m.word ring ring_enqueue_pos) (m.word ring ring_dequeue_pos)
            ≡ some (tt, noted ring enq deq m₁))
          (sym r.capacity)
          (subst
            (λ e.
              from_start cap' e (m.word ring ring_dequeue_pos) ≡ some (tt, noted ring enq deq m₁))
            (sym r.enqueue_pos)
            (subst (λ d. from_start cap' enq d ≡ some (tt, noted ring enq deq m₁))
              (sym r.dequeue_pos) known)),
      Undisturbed-IsRing m₁ (noted ring enq deq m₁) ring cap' deq enq cells
          (noted-Undisturbed m₁ ring enq deq) r₁,
      (λ k l.
          rw (ne→== ring (slot_offset ring k) (λ e. absurd (omega (arith, e))))
            (u₁ k (omega arith))),
      rw (==_refl ring),
      rw (==_refl ring),
    )
