-- ===== src/Ring/Concurrent/Roles.antt =====
-- What a process may do next, by the part that it plays: it looks for a ticket, fills the slot of its
-- ticket, empties one, or is about to return. Each is a predicate on the rest of its program.
use django_channels_shm.Prelude.{ℕ, ◌%◌, ◌<◌, ◌≡◌, ◌≢◌, ◌⊎◌, padded, length}
use django_channels_shm.Shm.{
  Memory, set_word, set_bytes, add64, Prog, ret, diverge, load, store, cas, fetch_add, read, write,
}
use django_channels_shm.Layout.{
  hdr_inline_size, ring_enqueue_pos, ring_dequeue_pos, ring_capacity, ring_generation, slot_seq,
  slot_owner_pid, slot_owner_ticket, slot_owner_start_time, slot_expiry_ts, slot_channel_len,
  slot_channel_name, slot_msg_len, slot_inline, slot_overflow_off,
}
use django_channels_shm.Ring.{slot_offset}
use django_channels_shm.Ring.Contents.{Message, slot_of}

-- The fields that name the owner of a slot. Anyone may clear them after its work in the slot.
abbrev pub OwnerField : ℕ → Type 0
OwnerField f = (f ≡ slot_owner_pid) ⊎ (f ≡ slot_owner_ticket) ⊎ (f ≡ slot_owner_start_time)

-- The fields of a message.
abbrev pub WordField : ℕ → Type 0
WordField f = (f ≡ slot_expiry_ts) ⊎ (f ≡ slot_channel_len) ⊎ (f ≡ slot_msg_len)

abbrev pub BytesField : ℕ → Type 0
BytesField f = (f ≡ slot_channel_name) ⊎ (f ≡ slot_inline)

-- The message is in the fields of the slot.
pub record Written (m : Memory) (so : ℕ) (msg : Message) : Type 0 where
  pub name_len : m.word so slot_channel_len ≡ length msg.name
  pub name : padded (length msg.name) (m.bytes so slot_channel_name) ≡ msg.name
  pub body_len : m.word so slot_msg_len ≡ length msg.body
  pub body : padded (length msg.body) (m.bytes so slot_inline) ≡ msg.body
  pub expiry : m.word so slot_expiry_ts ≡ msg.expiry

-- A receiver looks for a ticket, as a sender does, or empties the slot of its ticket `q`, where `m`
-- has the message.
pub data Mode : Type 0 where
  looking : ℕ → ℕ → Mode
  emptying : ℕ → Message → Memory → Mode

module _ (ring cap inline_size gen : ℕ) where
  -- Numbers that stay as they are while no flush runs and every message is inline.
  pub data Known : ℕ → ℕ → ℕ → Type 0 where
    configured : Known 0 hdr_inline_size inline_size
    slots : Known ring ring_capacity cap
    generation : Known ring ring_generation gen
    no_page : (x : ℕ) → x < cap → Known (slot_offset ring x) slot_overflow_off 0

  -- The access clears or sets an owner field of a slot.
  abbrev pub Owning : ℕ → ℕ → Type 0
  Owning o f = (x : ℕ) × (x < cap) × (o ≡ slot_offset ring x) × OwnerField f

  -- Before the return: the result is `Fin`.
  unfoldable pub Leaving : {A : Type 0} → (A → Type 0) → Prog A → Type 0
  Leaving Fin (ret a) = Fin a
  Leaving Fin diverge = Unit
  Leaving Fin (load o f k) =
      ((w : ℕ) × Known o f w × Leaving Fin (k w)) ⊎ ((w : ℕ) → Leaving Fin (k w))
  Leaving Fin (store o f w k) = Owning o f × Leaving Fin k
  Leaving Fin (cas o f e d k) = ⊥
  Leaving Fin (fetch_add o f d k) = ⊥
  Leaving Fin (read o f n k) = ⊥
  Leaving Fin (write o f d k) = ⊥

  -- The slot of ticket `q` is filled with the message, then published. `m` has what was written.
  unfoldable pub Filling : {A : Type 0} → (A → Type 0) → Message → ℕ → Prog A → Memory → Type 0
  Filling Fin msg q (ret a) m = ⊥
  Filling Fin msg q diverge m = Unit
  Filling Fin msg q (load o f k) m =
      ((w : ℕ) × Known o f w × Filling Fin msg q (k w) m) ⊎ ((w : ℕ) → Filling Fin msg q (k w) m)
  Filling Fin msg q (store o f w k) m =
      (Owning o f × Filling Fin msg q k m)
      ⊎ ((o ≡ slot_of ring cap q) × WordField f × Filling Fin msg q k (set_word o f w m))
      ⊎ ((o ≡ slot_of ring cap q) × (f ≡ slot_overflow_off) × (w ≡ 0) × Filling Fin msg q k m)
      ⊎ ((o ≡ slot_of ring cap q)
          × (f ≡ slot_seq)
          × (w ≡ add64 q 1)
          × Written m (slot_of ring cap q) msg
          × Leaving Fin k)
  Filling Fin msg q (cas o f e d k) m = ⊥
  Filling Fin msg q (fetch_add o f d k) m = ⊥
  Filling Fin msg q (read o f n k) m = ⊥
  Filling Fin msg q (write o f d k) m =
      (o ≡ slot_of ring cap q) × BytesField f × Filling Fin msg q k (set_bytes o f d m)

  -- A sender looks for a ticket. The number `v` was read in slot `x`, which has passed it for good.
  unfoldable pub Seeking :
      {A : Type 0} → (A → Type 0) → (A → Type 0) → Message → ℕ → ℕ → Prog A → Type 0
  Seeking None Sent msg x v (ret a) = None a
  Seeking None Sent msg x v diverge = Unit
  Seeking None Sent msg x v (load o f k) =
      ((w : ℕ) × Known o f w × Seeking None Sent msg x v (k w))
      ⊎ ((y : ℕ) × (y < cap)
          × (o ≡ slot_offset ring y)
          × (f ≡ slot_seq)
          × ((w : ℕ) → Seeking None Sent msg y w (k w)))
      ⊎ ((w : ℕ) → Seeking None Sent msg x v (k w))
  Seeking None Sent msg x v (store o f w k) = ⊥
  Seeking None Sent msg x v (cas o f e d k) =
      (o ≡ ring)
      × (f ≡ ring_enqueue_pos)
      × (d ≡ add64 e 1)
      × (x ≡ e % cap)
      × (v ≡ e)
      × ((w : ℕ) → w ≢ e → Seeking None Sent msg x v (k w))
      × ((m : Memory) → Filling Sent msg e (k e) m)
  Seeking None Sent msg x v (fetch_add o f d k) = ⊥
  Seeking None Sent msg x v (read o f n k) = ⊥
  Seeking None Sent msg x v (write o f d k) = ⊥

  -- A receiver in its mode.
  unfoldable pub Receiving :
      {A : Type 0} → (A → Type 0) → (Message → A → Type 0) → Mode → Prog A → Type 0
  Receiving None Got (looking x v) (ret a) = None a
  Receiving None Got (looking x v) diverge = Unit
  Receiving None Got (looking x v) (load o f k) =
      ((w : ℕ) × Known o f w × Receiving None Got (looking x v) (k w))
      ⊎ ((y : ℕ) × (y < cap)
          × (o ≡ slot_offset ring y)
          × (f ≡ slot_seq)
          × ((w : ℕ) → Receiving None Got (looking y w) (k w)))
      ⊎ ((w : ℕ) → Receiving None Got (looking x v) (k w))
  Receiving None Got (looking x v) (store o f w k) = Owning o f × Receiving None Got (looking x v) k
  Receiving None Got (looking x v) (cas o f e d k) =
      (o ≡ ring)
      × (f ≡ ring_dequeue_pos)
      × (d ≡ add64 e 1)
      × (x ≡ e % cap)
      × ((w : ℕ) → w ≢ e → Receiving None Got (looking x v) (k w))
      × (((v ≡ add64 e 1)
            × ((m : Memory) (msg : Message)
                → Written m (slot_of ring cap e) msg
                → Receiving None Got (emptying e msg m) (k e)))
          ⊎ (add64 e 1 < v))
  Receiving None Got (looking x v) (fetch_add o f d k) = ⊥
  Receiving None Got (looking x v) (read o f n k) = ⊥
  Receiving None Got (looking x v) (write o f d k) = ⊥
  Receiving None Got (emptying q msg m) (ret a) = ⊥
  Receiving None Got (emptying q msg m) diverge = Unit
  Receiving None Got (emptying q msg m) (load o f k) =
      ((w : ℕ) × Known o f w × Receiving None Got (emptying q msg m) (k w))
      ⊎ ((o ≡ slot_of ring cap q)
          × WordField f
          × Receiving None Got (emptying q msg m) (k (m.word o f)))
      ⊎ ((w : ℕ) → Receiving None Got (emptying q msg m) (k w))
  Receiving None Got (emptying q msg m) (store o f w k) =
      (Owning o f × Receiving None Got (emptying q msg m) k)
      ⊎ ((o ≡ slot_of ring cap q)
          × (f ≡ slot_seq)
          × (w ≡ add64 q cap)
          × (Leaving (Got msg) k ⊎ Receiving None Got (looking 0 0) k))
  Receiving None Got (emptying q msg m) (cas o f e d k) = ⊥
  Receiving None Got (emptying q msg m) (fetch_add o f d k) = ⊥
  Receiving None Got (emptying q msg m) (read o f n k) =
      (o ≡ slot_of ring cap q)
      × BytesField f
      × Receiving None Got (emptying q msg m) (k (padded n (m.bytes o f)))
  Receiving None Got (emptying q msg m) (write o f d k) = ⊥
