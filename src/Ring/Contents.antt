-- ===== src/Ring/Contents.antt =====
-- The queue that a ring holds while no operation is in progress.
use django_channels_shm.Prelude.{
  ℕ, ◌+◌, ◌%◌, ◌≤◌, ◌<◌, ◌≡◌, ◌≢◌, List, Option, none, some, length, get_elem?, padded, arith,
}
use native.Mathlib.Nat.{div-add-mod}
use django_channels_shm.Shm.{Memory}
use django_channels_shm.Layout.{
  ring_enqueue_pos, ring_dequeue_pos, ring_capacity, slot_seq, slot_owner_pid, slot_expiry_ts,
  slot_channel_len, slot_channel_name, slot_msg_len, slot_inline, slot_overflow_off,
}
use django_channels_shm.Ring.{slot_offset}

-- A message with the bits of its expiry time.
pub record Message : Type 0 where
  pub name : List ℕ
  pub body : List ℕ
  pub expiry : ℕ

-- The slot at `so` holds the message, inline.
pub record Holds (m : Memory) (so : ℕ) (msg : Message) : Type 0 where
  pub name_len : m.word so slot_channel_len ≡ length msg.name
  pub name : padded (length msg.name) (m.bytes so slot_channel_name) ≡ msg.name
  pub body_len : m.word so slot_msg_len ≡ length msg.body
  pub body : padded (length msg.body) (m.bytes so slot_inline) ≡ msg.body
  pub expiry : m.word so slot_expiry_ts ≡ msg.expiry
  pub no_page : m.word so slot_overflow_off ≡ 0

abbrev pub slot_of : ℕ → ℕ → ℕ → ℕ
slot_of ring cap q = slot_offset ring (q % cap)

-- What the slot of ticket `q` shows: a published message, or a round that was given up.
abbrev pub InSlot : Memory → ℕ → ℕ → ℕ → Option Message → Type 0
InSlot m ring cap q (some msg) =
    (m.word (slot_of ring cap q) slot_seq ≡ q + 1) × Holds m (slot_of ring cap q) msg
InSlot m ring cap q none = m.word (slot_of ring cap q) slot_seq ≡ q + cap

-- The tickets from `deq` to `enq` hold `cells`, oldest first; the next ones find their slots empty.
pub record IsRing (m : Memory) (ring cap deq enq : ℕ) (cells : List (Option Message)) : Type 0 where
  pub capacity : m.word ring ring_capacity ≡ cap
  pub at_least_two : 2 ≤ cap
  pub enqueue_pos : m.word ring ring_enqueue_pos ≡ enq
  pub dequeue_pos : m.word ring ring_dequeue_pos ≡ deq
  pub span : enq ≡ deq + length cells
  pub fits : length cells ≤ cap
  pub filled :
      (i : ℕ) (c : Option Message) → get_elem? cells i ≡ some c → InSlot m ring cap (deq + i) c
  pub empty : (q : ℕ) → enq ≤ q → q < deq + cap → m.word (slot_of ring cap q) slot_seq ≡ q
  pub ownerless : (i : ℕ) → i < cap → m.word (slot_offset ring i) slot_owner_pid ≡ 0

-- Two tickets of one window of `cap` have different slots.
pub mod_apart : (cap a b : ℕ) → 0 < cap → a < b → b < a + cap → a % cap ≢ b % cap
mod_apart cap a b p l w e = grind (arith, div-add-mod a cap, div-add-mod b cap)

pub slot_apart :
    (ring cap a b : ℕ) → 0 < cap → a < b → b < a + cap → slot_of ring cap a ≢ slot_of ring cap b
slot_apart ring cap a b p l w e = mod_apart cap a b p l w (omega arith)

pub slot_ne_ring : (ring cap q : ℕ) → slot_of ring cap q ≢ ring
slot_ne_ring ring cap q e = absurd (omega arith)
