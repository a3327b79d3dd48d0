-- ===== src/Ring/FifoEnqueue.antt =====
-- `try_enqueue` on a ring at rest: the back of a bounded queue.
use django_channels_shm.Prelude.{
  ℕ, ◌+◌, ◌%◌, ◌≤◌, ◌<◌, ◌≡◌, ◌≢◌, refl, ap, sym, ◌∙◌, inl, inr, List, [], ◌∷◌, ◌++◌, Option, none,
  some, length, get_elem?, arith, eq→==, ==_refl, ne→==, ℕ_discrete, padded-overlay, length-snoc,
  get_elem?-snoc,
}
use mathlib.Core.Path.{subst}
use native.Mathlib.Nat.{mod-lt, add-mod_right}
use django_channels_shm.Shm.{Memory, u64_mod, exec}
use django_channels_shm.Layout.{hdr_inline_size, slot_seq}
use django_channels_shm.Layout.Process.{Env}
use django_channels_shm.Slab.{SlabAllocator}
use django_channels_shm.Ring.{OwnerIdentity, ok, full, slot_offset}
use django_channels_shm.Ring.Enqueue.{try_enqueue}
use django_channels_shm.Ring.Contents.{
  Message, Holds, slot_of, InSlot, IsRing, slot_apart, slot_ne_ring,
}
use django_channels_shm.Ring.EnqueueRun.{enqueued, enqueue-run, full-run}

-- The new message is in its slot.
Holds-new :
    (ring so pos : ℕ) (owner : OwnerIdentity) (msg : Message) (m : Memory)
    → Holds (enqueued ring so pos owner msg m) so msg
Holds-new ring so pos owner msg m = record {
  name_len = rw (==_refl so);
  name = rw (==_refl so) (padded-overlay msg.name _);
  body_len = rw (==_refl so);
  body = rw (==_refl so) (padded-overlay msg.body _);
  expiry = rw (==_refl so);
  no_page = rw (==_refl so);
}

-- The other slots keep what they hold.
Holds-other :
    (ring so pos : ℕ) (owner : OwnerIdentity) (msg : Message) (m : Memory) (s : ℕ) (old : Message)
    → so ≢ s
    → Holds m s old
    → Holds (enqueued ring so pos owner msg m) s old
Holds-other ring so pos owner msg m s old n h = record {
  name_len = rw (ne→== so s n) h.name_len;
  name = rw (ne→== so s n) h.name;
  body_len = rw (ne→== so s n) h.body_len;
  body = rw (ne→== so s n) h.body;
  expiry = rw (ne→== so s n) h.expiry;
  no_page = rw (ne→== so s n) h.no_page;
}

seq-other :
    (ring so pos : ℕ) (owner : OwnerIdentity) (msg : Message) (m : Memory) (s : ℕ)
    → so ≢ s
    → s ≢ ring
    → (enqueued ring so pos owner msg m).word s slot_seq ≡ m.word s slot_seq
seq-other ring so pos owner msg m s n n' = rw (ne→== so s n, ne→== ring s (λ e. n' (sym e)))

InSlot-other :
    (ring cap so pos q : ℕ) (owner : OwnerIdentity) (msg : Message) (m : Memory)
    (c : Option Message)
    → so ≢ slot_of ring cap q
    → InSlot m ring cap q c
    → InSlot (enqueued ring so pos owner msg m) ring cap q c
InSlot-other ring cap so pos q owner msg m none n h =
    seq-other ring so pos owner msg m (slot_of ring cap q) n (slot_ne_ring ring cap q) ∙ h
InSlot-other ring cap so pos q owner msg m (some old) n h = (
  seq-other ring so pos owner msg m (slot_of ring cap q) n (slot_ne_ring ring cap q) ∙ h.0,
  Holds-other ring so pos owner msg m (slot_of ring cap q) old n h.1,
)

enqueued-IsRing :
    (m : Memory) (ring cap deq enq : ℕ) (cells : List (Option Message)) (owner : OwnerIdentity)
    (msg : Message)
    → IsRing m ring cap deq enq cells
    → length cells < cap
    → IsRing
        (enqueued ring (slot_of ring cap enq) enq owner msg m)
        ring
        cap
        deq
        (enq + 1)
        (cells ++ some msg ∷ [])
enqueued-IsRing m ring cap deq enq cells owner msg r room = record {
  capacity = rw (ne→== so ring apart) r.capacity;
  at_least_two = r.at_least_two;
  enqueue_pos = rw (ne→== so ring apart, ==_refl ring);
  dequeue_pos = rw (ne→== so ring apart) r.dequeue_pos;
  span = omega (arith, r.span, length-snoc cells (some msg));
  fits = omega (arith, length-snoc cells (some msg));
  filled = filled;
  empty = λ q a b.
      seq-other ring so enq owner msg m (slot_of ring cap q)
        (slot_apart ring cap enq q (omega (arith, r.at_least_two)) (omega arith)
          (omega (arith, r.span)))
        (slot_ne_ring ring cap q)
      ∙ r.empty q (omega arith) b;
  ownerless = λ i h. elim (ℕ_discrete so (slot_offset ring i)) [
    | yes e ↦ rw (eq→== so (slot_offset ring i) e)
    | no n ↦ rw (ne→== so (slot_offset ring i) n) (r.ownerless i h)
  ];
}
  where
    so : ℕ
    so = slot_of ring cap enq

    apart : so ≢ ring
    apart = slot_ne_ring ring cap enq

    new : InSlot (enqueued ring so enq owner msg m) ring cap enq (some msg)
    new = (rw (==_refl so), Holds-new ring so enq owner msg m)

    filled :
        (i : ℕ) (c : Option Message)
        → get_elem? (cells ++ some msg ∷ []) i ≡ some c
        → InSlot (enqueued ring so enq owner msg m) ring cap (deq + i) c
    filled i c h = elim (get_elem?-snoc cells (some msg) c i h) [
      | inl (l, e) ↦
          InSlot-other ring cap so enq (deq + i) owner msg m c
            (λ w.
              slot_apart ring cap (deq + i) enq (omega (arith, r.at_least_two))
                (omega (arith, r.span)) (omega (arith, r.span, r.fits)) (sym w))
            (r.filled i c e)
      | inr (l, e) ↦
          subst
            (λ (c : Option Message). InSlot (enqueued ring so enq owner msg m) ring cap (deq + i) c)
            e
            (subst (λ (q : ℕ). InSlot (enqueued ring so enq owner msg m) ring cap q (some msg))
              (omega (arith, r.span)) new)
    ]

-- On a ring at rest with a free slot, a message whose name has at most 128 bytes, and whose body
-- has at most 512 bytes and the configured inline size, is enqueued: the
-- answer is Ok, the ring holds the old cells followed by the message, and the configured inline size
-- stays. One round of the loop is enough; no counter may reach 2 ^ 64.
pub try_enqueue-ok :
    (env : Env) (slab : SlabAllocator) (m : Memory) (ring cap deq enq : ℕ)
    (cells : List (Option Message)) (owner : OwnerIdentity) (msg : Message)
    → 0 < env.rounds
    → IsRing m ring cap deq enq cells
    → length cells < cap
    → enq + 1 < u64_mod
    → length msg.name ≤ 128
    → length msg.body ≤ 512
    → length msg.body ≤ m.word 0 hdr_inline_size
    → (m' : Memory) × (exec (try_enqueue env slab ring msg.name msg.body msg.expiry owner) m
        ≡ some (ok, m'))
      × IsRing m' ring cap deq (enq + 1) (cells ++ some msg ∷ [])
      × (m'.word 0 hdr_inline_size ≡ m.word 0 hdr_inline_size)
try_enqueue-ok env slab m ring cap deq enq cells owner msg rounds r room w nl bl i = (
  _,
  enqueue-run env slab ring m msg owner rounds r.capacity r.enqueue_pos
      (r.empty enq (omega arith) (omega (arith, r.span))) w nl bl i,
  enqueued-IsRing m ring cap deq enq cells owner msg r room,
  rw (ne→== (slot_of ring cap enq) 0 (λ q. absurd (omega arith))),
)

-- On a ring at rest that holds as many cells as it has slots, the oldest of them a message, an
-- enqueue of any message answers Full in one round and changes nothing at all: no ticket is used
-- up, no counter moves.
pub try_enqueue-full :
    (env : Env) (slab : SlabAllocator) (m : Memory) (ring cap deq enq : ℕ) (first : Message)
    (rest : List (Option Message)) (owner : OwnerIdentity) (msg : Message)
    → 0 < env.rounds
    → IsRing m ring cap deq enq (some first ∷ rest)
    → length rest + 1 ≡ cap
    → exec (try_enqueue env slab ring msg.name msg.body msg.expiry owner) m ≡ some (full, m)
try_enqueue-full env slab m ring cap deq enq first rest owner msg rounds r crowded =
    full-run env slab ring m msg owner rounds r.capacity r.enqueue_pos behind
      (r.ownerless (enq % cap) (mod-lt enq (omega (arith, r.at_least_two))))
  where
    add-zero' : (deq + 0) % cap ≡ deq % cap
    add-zero' = ap (λ (n : ℕ). n % cap) (omega arith)

    same_slot : deq % cap ≡ enq % cap
    same_slot = sym (add-mod_right deq cap) ∙ ap (λ (n : ℕ). n % cap) (omega (arith, r.span))

    behind : m.word (slot_of ring cap enq) slot_seq < enq
    behind =
        subst (λ (w : ℕ). m.word (slot_offset ring w) slot_seq < enq) (add-zero' ∙ same_slot)
          (omega (arith, (r.filled 0 (some first) refl).0, r.span, r.at_least_two))
