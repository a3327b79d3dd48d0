-- ===== src/Ring/Undisturbed.antt =====
-- Steps that leave the queue as it is, and how far the slots of a ring at rest are behind.
use django_channels_shm.Prelude.{
  ℕ, zero, suc, ◌+◌, ◌-◌, ◌*◌, ◌/◌, ◌%◌, ◌≤◌, ◌<◌, ◌≡◌, refl, ◌∙◌, List, [], ◌∷◌, Option, none,
  some, length, get_elem?, arith, dec_le,
}
use mathlib.Core.Path.{subst}
use native.Mathlib.Nat.{mod-eq_of_lt, mod-lt, div-add-mod, mul-add-mod_self_left}
use django_channels_shm.Shm.{Memory, set_word}
use django_channels_shm.Layout.{
  ring_enqueue_pos, ring_dequeue_pos, ring_capacity, ring_last_compact_enq, ring_last_compact_deq,
  slot_seq, slot_owner_pid, slot_compact_mark,
}
use django_channels_shm.Ring.{slot_offset}
use django_channels_shm.Ring.Contents.{Message, Holds, slot_of, InSlot, IsRing}

-- From `m` to `m'` nothing changes that the queue is read by.
pub record Undisturbed (ring : ℕ) (m m' : Memory) : Type 0 where
  pub same_header :
      (m'.word ring ring_capacity ≡ m.word ring ring_capacity)
      × (m'.word ring ring_enqueue_pos ≡ m.word ring ring_enqueue_pos)
      × (m'.word ring ring_dequeue_pos ≡ m.word ring ring_dequeue_pos)
  pub same_slot :
      (s : ℕ)
      → (m'.word s slot_seq ≡ m.word s slot_seq)
        × (m'.word s slot_owner_pid ≡ m.word s slot_owner_pid)
  pub same_held : (s : ℕ) (old : Message) → Holds m s old → Holds m' s old

Undisturbed-InSlot :
    (m m' : Memory) (ring cap q : ℕ) (c : Option Message)
    → Undisturbed ring m m'
    → InSlot m ring cap q c
    → InSlot m' ring cap q c
Undisturbed-InSlot m m' ring cap' q none u h = (u.same_slot (slot_of ring cap' q)).0 ∙ h
Undisturbed-InSlot m m' ring cap' q (some msg) u h =
    ((u.same_slot (slot_of ring cap' q)).0 ∙ h.0, u.same_held (slot_of ring cap' q) msg h.1)

pub Undisturbed-IsRing :
    (m m' : Memory) (ring cap deq enq : ℕ) (cells : List (Option Message))
    → Undisturbed ring m m'
    → IsRing m ring cap deq enq cells
    → IsRing m' ring cap deq enq cells
Undisturbed-IsRing m m' ring cap' deq enq cells u r = record {
  capacity = u.same_header.0 ∙ r.capacity;
  at_least_two = r.at_least_two;
  enqueue_pos = u.same_header.1 ∙ r.enqueue_pos;
  dequeue_pos = u.same_header.2 ∙ r.dequeue_pos;
  span = r.span;
  fits = r.fits;
  filled = λ i c h. Undisturbed-InSlot m m' ring cap' (deq + i) c u (r.filled i c h);
  empty = λ q a b. (u.same_slot (slot_of ring cap' q)).0 ∙ r.empty q a b;
  ownerless = λ i h. (u.same_slot (slot_offset ring i)).1 ∙ r.ownerless i h;
}

pub marked-Undisturbed :
    (m : Memory) (ring a v : ℕ) → Undisturbed ring m (set_word a slot_compact_mark v m)
marked-Undisturbed m ring a v = record {
  same_header = (refl, refl, refl);
  same_slot = λ s. (refl, refl);
  same_held = λ s old h. record {
    name_len = h.name_len;
    name = h.name;
    body_len = h.body_len;
    body = h.body;
    expiry = h.expiry;
    no_page = h.no_page;
  };
}

-- The two counters that `compact` writes down at its end.
abbrev pub noted : ℕ → ℕ → ℕ → Memory → Memory
noted ring enq deq m =
    set_word ring ring_last_compact_deq deq (set_word ring ring_last_compact_enq enq m)

pub noted-Undisturbed : (m : Memory) (ring enq deq : ℕ) → Undisturbed ring m (noted ring enq deq m)
noted-Undisturbed m ring enq deq = record {
  same_header = (refl, refl, refl);
  same_slot = λ s. (refl, refl);
  same_held = λ s old h. record {
    name_len = h.name_len;
    name = h.name;
    body_len = h.body_len;
    body = h.body;
    expiry = h.expiry;
    no_page = h.no_page;
  };
}

-- Every slot belongs to a ticket of the window from `deq` on.
ticket_of_slot : (cap deq i : ℕ) → i < cap → (q : ℕ) × (deq ≤ q) × (q < deq + cap) × (q % cap ≡ i)
ticket_of_slot cap' deq i l = elim (dec_le (deq % cap') i) [
  | yes a ↦ (
    cap' * (deq / cap') + i,
    omega (arith, div-add-mod deq cap'),
    omega (arith, div-add-mod deq cap', mod-lt deq {m = cap'} (omega arith)),
    mul-add-mod_self_left cap' (deq / cap') i ∙ mod-eq_of_lt l,
  )
  | no b ↦ (
    cap' * (deq / cap' + 1) + i,
    omega (arith, div-add-mod deq cap', mod-lt deq {m = cap'} (omega arith)),
    omega (arith, div-add-mod deq cap'),
    mul-add-mod_self_left cap' (deq / cap' + 1) i ∙ mod-eq_of_lt l,
  )
]

get_elem?-in :
    (cells : List (Option Message)) (i : ℕ)
    → i < length cells
    → (c : Option Message) × (get_elem? cells i ≡ some c)
get_elem?-in [] i l = absurd (omega arith)
get_elem?-in (c ∷ cells) zero l = (c, refl)
get_elem?-in (c ∷ cells) (suc i) l = get_elem?-in cells i (omega arith)

-- The slots of a ring at rest are within one round of the frontier.
pub recent :
    (m : Memory) (ring cap deq enq i : ℕ) (cells : List (Option Message))
    → IsRing m ring cap deq enq cells
    → i < cap
    → enq < m.word (slot_offset ring i) slot_seq + cap
recent m ring cap' deq enq i cells r l =
    let (q, a, b, e) = ticket_of_slot cap' deq i l in
    subst (λ (w : ℕ). enq < m.word (slot_offset ring w) slot_seq + cap') e
      (elim (dec_le enq q) [
        | yes late ↦ omega (arith, r.empty q late b, r.at_least_two)
        | no early ↦
            let (c, f) = get_elem?-in cells (q - deq) (omega (arith, r.span)) in
            shown q c
              (subst (λ (w : ℕ). InSlot m ring cap' w c) (omega arith) (r.filled (q - deq) c f)) a
      ])
  where
    shown :
        (q : ℕ) (c : Option Message)
        → InSlot m ring cap' q c
        → deq ≤ q
        → enq < m.word (slot_of ring cap' q) slot_seq + cap'
    shown q none h a = omega (arith, h, r.span, r.fits, r.at_least_two)
    shown q (some msg) h a = omega (arith, h.0, r.span, r.fits)
