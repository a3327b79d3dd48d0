-- ===== src/Ring/Recovery.antt =====
-- What `recover_slot` does to the queue.
use django_channels_shm.Prelude.{
  ℕ, ◌+◌, ◌<◌, ◌≡◌, ◌≢◌, sym, ◌∙◌, inl, inr, List, [], ◌∷◌, ◌++◌, Option, none, some, length,
  get_elem?, arith, eq→==, ==_refl, ne→==, ℕ_discrete, length-snoc, get_elem?-snoc,
}
use mathlib.Core.Path.{subst}
use native.Mathlib.Nat.{mod-eq_of_lt}
use django_channels_shm.Shm.{Memory, set_word, add64, u64_mod, exec}
use django_channels_shm.Layout.{
  ring_enqueue_pos, ring_dequeue_pos, ring_capacity, slot_seq, slot_owner_pid, slot_owner_ticket,
  slot_overflow_off, slot_recovering,
}
use django_channels_shm.Slab.{SlabAllocator}
use django_channels_shm.Ring.{slot_offset}
use django_channels_shm.Ring.Repair.{recover_slot}
use django_channels_shm.Ring.Contents.{
  Message, Holds, slot_of, InSlot, IsRing, slot_apart, slot_ne_ring,
}

abbrev recovered : ℕ → ℕ → Memory → Memory
recovered so target m = set_word so slot_owner_ticket 0 (
    set_word so slot_owner_pid 0
      (set_word so slot_seq target (set_word so slot_owner_pid slot_recovering m)))

module _ (rounds : ℕ) (slab : SlabAllocator) where
  -- The owner is no longer the process that was found dead: somebody else repairs, or has repaired,
  -- the slot, and `recover_slot` touches nothing.
  pub recover_slot-mutex :
      (m : Memory) (so cap pid : ℕ)
      → m.word so slot_owner_pid ≢ pid
      → exec (recover_slot rounds slab so cap pid) m ≡ some (tt, m)
  unfolding recover_slot exec
  recover_slot-mutex m so cap' pid n = rw (ne→== (m.word so slot_owner_pid) pid n, exec)

  recover-run :
      (m : Memory) (so cap pid : ℕ)
      → m.word so slot_owner_pid ≡ pid
      → m.word so slot_overflow_off ≡ 0
      → exec (recover_slot rounds slab so cap pid) m
        ≡ some (tt, recovered so (add64 (m.word so slot_owner_ticket) cap) m)
  unfolding recover_slot exec
  recover-run m so cap' pid e z =
      rw (e, ==_refl pid, exec, z, exec, ==_refl (m.word so slot_seq), exec, ==_refl so)

-- A producer took ticket `enq` of a ring at rest, recorded its pid and the ticket in the slot, and died
-- before it published: the slot refers to no overflow page. One that dies between the two records, or
-- before the first, is not of this kind.
pub record IsCrashed (m : Memory) (ring cap deq enq pid : ℕ) (cells : List (Option Message))
    : Type 0 where
  pub before : Memory
  pub at_rest : IsRing before ring cap deq enq cells
  pub had_room : length cells < cap
  pub claimed : m.word ring ring_enqueue_pos ≡ enq + 1
  pub owner : m.word (slot_of ring cap enq) slot_owner_pid ≡ pid
  pub ticket : m.word (slot_of ring cap enq) slot_owner_ticket ≡ enq
  pub unpublished : m.word (slot_of ring cap enq) slot_seq ≡ enq
  pub no_page : m.word (slot_of ring cap enq) slot_overflow_off ≡ 0
  pub same_capacity : m.word ring ring_capacity ≡ before.word ring ring_capacity
  pub same_dequeue_pos : m.word ring ring_dequeue_pos ≡ before.word ring ring_dequeue_pos
  pub same_seq :
      (s : ℕ) → slot_of ring cap enq ≢ s → s ≢ ring → m.word s slot_seq ≡ before.word s slot_seq
  pub same_owner :
      (s : ℕ)
      → slot_of ring cap enq ≢ s
      → s ≢ ring
      → m.word s slot_owner_pid ≡ before.word s slot_owner_pid
  pub same_held :
      (s : ℕ) (old : Message)
      → slot_of ring cap enq ≢ s
      → s ≢ ring
      → Holds before s old
      → Holds m s old

-- A message rests in its slot whatever becomes of the owner, ticket and round of that slot.
Holds-same :
    (m : Memory) (so target s : ℕ) (old : Message)
    → Holds m s old
    → Holds (recovered so target m) s old
Holds-same m so target s old h = record {
  name_len = h.name_len;
  name = h.name;
  body_len = h.body_len;
  body = h.body;
  expiry = h.expiry;
  no_page = h.no_page;
}

-- A producer took the next ticket of a ring at rest that had room and died after it had recorded its
-- pid and that ticket in the slot, and before it published, without an overflow page. The recovery of its slot gives up just that round: the ring is at rest
-- again, with the cells that it had and an abandoned round behind them. No counter may come near 2
-- ^ 64.
pub recover_slot-IsRing :
    (rounds : ℕ) (slab : SlabAllocator) (m : Memory) (ring cap deq enq pid : ℕ)
    (cells : List (Option Message))
    → IsCrashed m ring cap deq enq pid cells
    → enq + cap < u64_mod
    → (m' : Memory) × (exec (recover_slot rounds slab (slot_of ring cap enq) cap pid) m
        ≡ some (tt, m'))
      × IsRing m' ring cap deq (enq + 1) (cells ++ none ∷ [])
recover_slot-IsRing rounds slab m ring cap' deq enq pid cells x w = (
  m',
  subst (λ t. exec (recover_slot rounds slab so cap' pid) m ≡ some (tt, recovered so t m)) target
      (recover-run rounds slab m so cap' pid x.owner x.no_page),
  record {
    capacity = rw (ne→== so ring apart) (x.same_capacity ∙ r.capacity);
    at_least_two = r.at_least_two;
    enqueue_pos = rw (ne→== so ring apart) x.claimed;
    dequeue_pos = rw (ne→== so ring apart) (x.same_dequeue_pos ∙ r.dequeue_pos);
    span = omega (arith, r.span, length-snoc {A = Option Message} cells none);
    fits = omega (arith, x.had_room, length-snoc {A = Option Message} cells none);
    filled = filled;
    empty = λ q a b.
        let n = slot_apart ring cap' enq q two (omega arith) (omega (arith, r.span)) in
        rw (ne→== so (slot_of ring cap' q) n) (
          x.same_seq (slot_of ring cap' q) n (slot_ne_ring ring cap' q)
          ∙ r.empty q (omega arith) b);
    ownerless = λ i h. elim (ℕ_discrete so (slot_offset ring i)) [
      | yes e ↦ rw (eq→== so (slot_offset ring i) e)
      | no n ↦
          rw (ne→== so (slot_offset ring i) n)
            (x.same_owner (slot_offset ring i) n (λ e. absurd (omega arith)) ∙ r.ownerless i h)
    ];
  },
)
  where
    so : ℕ
    so = slot_of ring cap' enq

    r : IsRing x.before ring cap' deq enq cells
    r = x.at_rest

    m' : Memory
    m' = recovered so (enq + cap') m

    two : 0 < cap'
    two = omega (arith, r.at_least_two)

    apart : so ≢ ring
    apart = slot_ne_ring ring cap' enq

    target : add64 (m.word so slot_owner_ticket) cap' ≡ enq + cap'
    target = rw x.ticket (mod-eq_of_lt w)

    old :
        (q : ℕ) (c : Option Message)
        → so ≢ slot_of ring cap' q
        → InSlot x.before ring cap' q c
        → InSlot m' ring cap' q c
    old q none n h =
        rw (ne→== so (slot_of ring cap' q) n)
          (x.same_seq (slot_of ring cap' q) n (slot_ne_ring ring cap' q) ∙ h)
    old q (some msg) n h = (
      rw (ne→== so (slot_of ring cap' q) n)
          (x.same_seq (slot_of ring cap' q) n (slot_ne_ring ring cap' q) ∙ h.0),
      Holds-same m so (enq + cap') (slot_of ring cap' q) msg
          (x.same_held (slot_of ring cap' q) msg n (slot_ne_ring ring cap' q) h.1),
    )

    given_up : InSlot m' ring cap' enq none
    given_up = rw (==_refl so)

    filled :
        (i : ℕ) (c : Option Message)
        → get_elem? (cells ++ none ∷ []) i ≡ some c
        → InSlot m' ring cap' (deq + i) c
    filled i c h = elim (get_elem?-snoc cells none c i h) [
      | inl (l, e) ↦
          old (deq + i) c
            (λ w.
              slot_apart ring cap' (deq + i) enq two (omega (arith, r.span))
                (omega (arith, r.span, r.fits)) (sym w))
            (r.filled i c e)
      | inr (l, e) ↦
          subst (λ (c : Option Message). InSlot m' ring cap' (deq + i) c) e
            (subst (λ (q : ℕ). InSlot m' ring cap' q none) (omega (arith, r.span)) given_up)
    ]
