-- ===== src/Ring/Reset.antt =====
-- `init` and `reset` of ring.rs leave an empty ring.
use django_channels_shm.Prelude.{ℕ, ◌≤◌, ◌<◌, ◌≡◌, sym, ◌∙◌, [], some, arith, ==_refl}
use mathlib.Core.Path.{subst}
use native.Mathlib.Nat.{mod-eq_of_lt}
use django_channels_shm.Shm.{Memory, set_word, add64, exec}
use django_channels_shm.Layout.{
  ring_enqueue_pos, ring_dequeue_pos, ring_capacity, ring_generation, ring_last_compact_enq,
  ring_last_compact_deq, slot_seq,
}
use django_channels_shm.Ring.{slot_offset, init, reset_slots, reset}
use django_channels_shm.Ring.Contents.{IsRing}
use django_channels_shm.Ring.Fresh.{Fresh, init_slots-Fresh, reset_slots-Fresh}

module _ (ring : ℕ) where
  -- Clean slots under counters at 0 are an empty ring.
  Fresh-IsRing :
      (cap : ℕ) (m m' : Memory)
      → 2 ≤ cap
      → m.word ring ring_capacity ≡ cap
      → m.word ring ring_enqueue_pos ≡ 0
      → m.word ring ring_dequeue_pos ≡ 0
      → Fresh ring cap 0 m m'
      → IsRing m' ring cap 0 0 []
  Fresh-IsRing cap' m m' two c e d f = record {
    capacity = f.header.0 ∙ c;
    at_least_two = two;
    enqueue_pos = f.header.1 ∙ e;
    dequeue_pos = f.header.2 ∙ d;
    span = omega arith;
    fits = omega arith;
    filled = λ i x h. ground arith;
    empty = λ q a b.
        let l : q < cap' = omega arith in
        subst (λ (w : ℕ). m'.word (slot_offset ring w) slot_seq ≡ q) (sym (mod-eq_of_lt l))
          (f.clean q (omega arith) (omega arith)).0;
    ownerless = λ i h. (f.clean i (omega arith) (omega arith)).1;
  }

  -- A new ring of at least two slots is empty, whatever the memory held before.
  pub init-IsRing :
      (m : Memory) (cap : ℕ)
      → 2 ≤ cap
      → (m' : Memory) × (exec (init ring cap) m ≡ some (tt, m')) × IsRing m' ring cap 0 0 []
  unfolding init exec
  init-IsRing m cap' two =
      let m₁ = set_word ring ring_generation 0 (
        set_word ring ring_last_compact_deq 0 (
          set_word ring ring_last_compact_enq 0 (
            set_word ring ring_capacity cap'
              (set_word ring ring_dequeue_pos 0 (set_word ring ring_enqueue_pos 0 m))))) in
      let (m', ran, f) = init_slots-Fresh ring cap' 0 m₁ in
      (
        m',
        ran,
        Fresh-IsRing cap' m₁ m' two (rw (==_refl ring)) (rw (==_refl ring)) (rw (==_refl ring)) f,
      )

  -- A flush leaves a ring of at least two slots empty with the counters at 0, whatever state it
  -- was in, crashed owners and stuck rounds included; it keeps the capacity and moves on to the
  -- next generation.
  pub reset-IsRing :
      (m : Memory) (cap : ℕ)
      → 2 ≤ cap
      → m.word ring ring_capacity ≡ cap
      → (m' : Memory) × (exec (reset ring) m ≡ some (tt, m'))
        × IsRing m' ring cap 0 0 []
        × (m'.word ring ring_generation ≡ add64 (m.word ring ring_generation) 1)
  unfolding reset exec
  reset-IsRing m cap' two c =
      let m₁ = set_word ring ring_last_compact_deq 0 (
        set_word ring ring_last_compact_enq 0 (
          set_word ring ring_dequeue_pos 0 (
            set_word ring ring_enqueue_pos 0
              (set_word ring ring_generation (add64 (m.word ring ring_generation) 1) m)))) in
      let (m', ran, f) = reset_slots-Fresh ring cap' 0 m₁ in
      (
        m',
        subst (λ n. exec (reset_slots ring n 0) m₁ ≡ some (tt, m')) (sym c) ran,
        Fresh-IsRing cap' m₁ m' two c (rw (==_refl ring)) (rw (==_refl ring)) f,
        f.header.3 ∙ rw (==_refl ring),
      )
