-- ===== src/Ring/Consumed.antt =====
-- A ticket is consumed: the ring after it.
use django_channels_shm.Prelude.{
  ℕ, zero, suc, ◌+◌, ◌%◌, ◌<◌, ◌≡◌, ◌≢◌, refl, ap, sym, ◌∙◌, List, [], ◌∷◌, Option, none, some,
  length, get_elem?, arith, ==_refl, ne→==, ℕ_discrete,
}
use mathlib.Core.Path.{subst}
use native.Mathlib.Nat.{add-mod_right}
use django_channels_shm.Shm.{Memory, set_word}
use django_channels_shm.Layout.{
  ring_enqueue_pos, ring_dequeue_pos, ring_capacity, slot_seq, slot_owner_pid, slot_owner_ticket,
  slot_owner_start_time,
}
use django_channels_shm.Ring.{OwnerIdentity, slot_offset}
use django_channels_shm.Ring.Contents.{
  Message, Holds, slot_of, InSlot, IsRing, slot_apart, slot_ne_ring,
}

-- From `m` to `m'` the round of ticket `deq` is consumed.
pub record Consumed (ring cap deq : ℕ) (m m' : Memory) : Type 0 where
  pub same_capacity : m'.word ring ring_capacity ≡ m.word ring ring_capacity
  pub same_enqueue_pos : m'.word ring ring_enqueue_pos ≡ m.word ring ring_enqueue_pos
  pub moved : m'.word ring ring_dequeue_pos ≡ deq + 1
  pub recycled : m'.word (slot_of ring cap deq) slot_seq ≡ deq + cap
  pub released : m'.word (slot_of ring cap deq) slot_owner_pid ≡ 0
  pub same_seq :
      (s : ℕ) → slot_of ring cap deq ≢ s → s ≢ ring → m'.word s slot_seq ≡ m.word s slot_seq
  pub same_owner :
      (s : ℕ)
      → slot_of ring cap deq ≢ s
      → s ≢ ring
      → m'.word s slot_owner_pid ≡ m.word s slot_owner_pid
  pub same_held :
      (s : ℕ) (old : Message) → slot_of ring cap deq ≢ s → s ≢ ring → Holds m s old → Holds m' s old

pub Consumed-IsRing :
    (ring cap deq enq : ℕ) (m m' : Memory) (c : Option Message) (cells : List (Option Message))
    → Consumed ring cap deq m m'
    → IsRing m ring cap deq enq (c ∷ cells)
    → IsRing m' ring cap (deq + 1) enq cells
Consumed-IsRing ring cap deq enq m m' c cells u r = record {
  capacity = u.same_capacity ∙ r.capacity;
  at_least_two = r.at_least_two;
  enqueue_pos = u.same_enqueue_pos ∙ r.enqueue_pos;
  dequeue_pos = u.moved;
  span = omega (arith, r.span);
  fits = omega (arith, r.fits);
  filled = λ i d h.
      subst (λ (q : ℕ). InSlot m' ring cap q d) (omega arith)
        (kept (deq + suc i) d (omega arith) (omega (arith, r.fits, in_range cells i d h))
          (r.filled (suc i) d h));
  empty = λ q a b. elim (ℕ_discrete q (deq + cap)) [
    | yes e ↦ last q e
    | no n ↦
        u.same_seq (slot_of ring cap q) (apart q (omega (arith, r.span)) (omega arith))
          (slot_ne_ring ring cap q)
        ∙ r.empty q a (omega arith)
  ];
  ownerless = λ i h. elim (ℕ_discrete (slot_of ring cap deq) (slot_offset ring i)) [
    | yes e ↦ ap (λ s. m'.word s slot_owner_pid) (sym e) ∙ u.released
    | no n ↦ u.same_owner (slot_offset ring i) n (λ e. absurd (omega arith)) ∙ r.ownerless i h
  ];
}
  where
    in_range :
        (cs : List (Option Message)) (i : ℕ) (d : Option Message)
        → get_elem? cs i ≡ some d
        → i < length cs
    in_range [] i d h = ground arith
    in_range (x ∷ cs) zero d h = omega arith
    in_range (x ∷ cs) (suc i) d h = omega (arith, in_range cs i d h)

    apart : (q : ℕ) → deq < q → q < deq + cap → slot_of ring cap deq ≢ slot_of ring cap q
    apart q a b = slot_apart ring cap deq q (omega (arith, r.at_least_two)) a b

    kept :
        (q : ℕ) (d : Option Message)
        → deq < q
        → q < deq + cap
        → InSlot m ring cap q d
        → InSlot m' ring cap q d
    kept q none a b h = u.same_seq (slot_of ring cap q) (apart q a b) (slot_ne_ring ring cap q) ∙ h
    kept q (some old) a b h = (
      u.same_seq (slot_of ring cap q) (apart q a b) (slot_ne_ring ring cap q) ∙ h.0,
      u.same_held (slot_of ring cap q) old (apart q a b) (slot_ne_ring ring cap q) h.1,
    )

    last : (q : ℕ) → q ≡ deq + cap → m'.word (slot_of ring cap q) slot_seq ≡ q
    last q e =
        subst (λ (w : ℕ). m'.word (slot_offset ring w) slot_seq ≡ q)
          (sym (ap (λ (n : ℕ). n % cap) e ∙ add-mod_right deq cap)) (u.recycled ∙ sym e)

abbrev pub skipped : ℕ → ℕ → Memory → Memory
skipped ring pos m = set_word ring ring_dequeue_pos (pos + 1) m

abbrev pub dropped : ℕ → ℕ → ℕ → ℕ → Memory → Memory
dropped ring so pos cap m =
    set_word so slot_owner_ticket 0
      (set_word so slot_owner_pid 0 (set_word so slot_seq (pos + cap) (skipped ring pos m)))

abbrev pub delivered : ℕ → ℕ → ℕ → ℕ → OwnerIdentity → Memory → Memory
delivered ring so pos cap owner m = set_word so slot_owner_ticket 0 (
    set_word so slot_owner_pid 0 (
      set_word so slot_seq (pos + cap) (
        set_word so slot_owner_start_time owner.start_time (
          set_word so slot_owner_ticket pos
            (set_word so slot_owner_pid owner.pid (skipped ring pos m))))))

pub skipped-Consumed :
    (ring cap deq : ℕ) (m : Memory)
    → m.word (slot_of ring cap deq) slot_seq ≡ deq + cap
    → m.word (slot_of ring cap deq) slot_owner_pid ≡ 0
    → Consumed ring cap deq m (skipped ring deq m)
skipped-Consumed ring cap deq m e o = record {
  same_capacity = refl;
  same_enqueue_pos = refl;
  moved = rw (==_refl ring);
  recycled = e;
  released = rw (ne→== ring (slot_of ring cap deq) (λ q. slot_ne_ring ring cap deq (sym q))) o;
  same_seq = λ s n n'. refl;
  same_owner = λ s n n'. rw (ne→== ring s (λ q. n' (sym q)));
  same_held = λ s old n n' h. record {
    name_len = h.name_len;
    name = h.name;
    body_len = h.body_len;
    body = h.body;
    expiry = h.expiry;
    no_page = h.no_page;
  };
}

pub dropped-Consumed :
    (ring cap deq : ℕ) (m : Memory)
    → Consumed ring cap deq m (dropped ring (slot_of ring cap deq) deq cap m)
dropped-Consumed ring cap' deq m = record {
  same_capacity = rw (ne→== so ring apart);
  same_enqueue_pos = rw (ne→== so ring apart);
  moved = rw (ne→== so ring apart, ==_refl ring);
  recycled = rw (==_refl so);
  released = rw (==_refl so);
  same_seq = λ s n n'. rw (ne→== so s n);
  same_owner = λ s n n'. rw (ne→== so s n, ne→== ring s (λ q. n' (sym q)));
  same_held = λ s old n n' h. record {
    name_len = h.name_len;
    name = h.name;
    body_len = h.body_len;
    body = h.body;
    expiry = h.expiry;
    no_page = h.no_page;
  };
}
  where
    so : ℕ
    so = slot_of ring cap' deq

    apart : so ≢ ring
    apart = slot_ne_ring ring cap' deq

pub delivered-Consumed :
    (ring cap deq : ℕ) (owner : OwnerIdentity) (m : Memory)
    → Consumed ring cap deq m (delivered ring (slot_of ring cap deq) deq cap owner m)
delivered-Consumed ring cap' deq owner m = record {
  same_capacity = rw (ne→== so ring apart);
  same_enqueue_pos = rw (ne→== so ring apart);
  moved = rw (ne→== so ring apart, ==_refl ring);
  recycled = rw (==_refl so);
  released = rw (==_refl so);
  same_seq = λ s n n'. rw (ne→== so s n);
  same_owner = λ s n n'. rw (ne→== so s n, ne→== ring s (λ q. n' (sym q)));
  same_held = λ s old n n' h. record {
    name_len = h.name_len;
    name = h.name;
    body_len = h.body_len;
    body = h.body;
    expiry = h.expiry;
    no_page = h.no_page;
  };
}
  where
    so : ℕ
    so = slot_of ring cap' deq

    apart : so ≢ ring
    apart = slot_ne_ring ring cap' deq
