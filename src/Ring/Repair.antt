-- ===== src/Ring/Repair.antt =====
-- Crash recovery in ring.rs: `recover_slot`, `repair_slot_to` and `compact`.
use django_channels_shm.Prelude.{
  ℕ, zero, suc, ◌+◌, ◌-◌, ◌*◌, ◌/◌, ◌%◌, max, ◌&&◌, ◌||◌, leb, ◌==◌, if◌then◌else◌,
}
use django_channels_shm.Shm.{
  Prog, ret, ◌>>=◌, ◌>>◌, add64, load_u64, store_u64, cas_u64, read_u32, read_u8, write_u8,
}
use django_channels_shm.Layout.{
  ring_enqueue_pos, ring_dequeue_pos, ring_last_compact_enq, ring_last_compact_deq, slot_seq,
  slot_owner_pid, slot_owner_ticket, slot_compact_mark, slot_msg_len, slot_overflow_off,
  slot_recovering,
}
use django_channels_shm.Slab
use django_channels_shm.Slab.{SlabAllocator}
use django_channels_shm.Ring.{slot_offset, capacity}

-- The smallest ticket from `max_pos` on whose slot is `i`.
unfoldable pub next_ticket : ℕ → ℕ → ℕ → ℕ
next_ticket cap max_pos i =
    let base : ℕ = max_pos / cap * cap in
    if leb (max_pos % cap) i then add64 base i else add64 (add64 base cap) i

module _ (rounds : ℕ) (slab : SlabAllocator) where
  -- Claim the slot's overflow page, then free it.
  unfoldable pub release_overflow : ℕ → Prog (Unit {0})
  release_overflow slot_off = do
    overflow_off ← load_u64 slot_off slot_overflow_off
    if overflow_off == 0 then ret tt else (do
      msg_len ← read_u32 slot_off slot_msg_len
      claimed ← cas_u64 slot_off slot_overflow_off overflow_off 0
      if claimed then Slab.free slab rounds overflow_off msg_len else ret tt)

  unfoldable pub repair_slot_to : ℕ → ℕ → ℕ → Prog (Unit {0})
  unfolding release_overflow
  repair_slot_to slot_off observed_seq target = do
    release_overflow slot_off
    _ ← cas_u64 slot_off slot_seq observed_seq target
    _ ← cas_u64 slot_off slot_owner_pid slot_recovering 0
    store_u64 slot_off slot_owner_ticket 0

  -- The comparison on the owner is the mutex: whoever turns the dead pid into the sentinel repairs.
  unfoldable pub recover_slot : ℕ → ℕ → ℕ → Prog (Unit {0})
  unfolding repair_slot_to
  recover_slot slot_off cap dead_owner_pid = do
    claimed ← cas_u64 slot_off slot_owner_pid dead_owner_pid slot_recovering
    if claimed
        then (do
          ticket ← load_u64 slot_off slot_owner_ticket
          observed_seq ← load_u64 slot_off slot_seq
          repair_slot_to slot_off observed_seq (add64 ticket cap))
        else ret tt

  module _ (ring : ℕ) where
    -- One round of the loop of `compact`, at slot `i`.
    unfoldable pub compact_slot : ℕ → ℕ → ℕ → Prog (Unit {0})
    unfolding repair_slot_to next_ticket
    compact_slot cap max_pos i = do
      let slot_off = slot_offset ring i
      seq ← load_u64 slot_off slot_seq
      owner_pid ← read_u32 slot_off slot_owner_pid
      let ownerless = owner_pid == 0 || owner_pid == slot_recovering
      if leb cap max_pos && leb seq (max_pos - cap) && ownerless
          then (do
            compact_mark ← read_u8 slot_off slot_compact_mark
            if compact_mark == 1
                then (do
                  target ←
                      (if owner_pid == slot_recovering
                        then (do
                          ticket ← load_u64 slot_off slot_owner_ticket
                          ret (add64 ticket cap))
                        else ret (next_ticket cap max_pos i))
                  repair_slot_to slot_off seq target
                  write_u8 slot_off slot_compact_mark 0)
                else write_u8 slot_off slot_compact_mark 1)
          else write_u8 slot_off slot_compact_mark 0

    unfoldable pub compact_slots : ℕ → ℕ → ℕ → ℕ → Prog (Unit {0})
    unfolding compact_slot
    compact_slots zero cap max_pos i = ret tt
    compact_slots (suc n) cap max_pos i = do
      compact_slot cap max_pos i
      compact_slots n cap max_pos (i + 1)

    unfoldable pub compact : Prog (Unit {0})
    unfolding compact_slots
    compact = do
      cap ← capacity ring
      enq ← load_u64 ring ring_enqueue_pos
      deq ← load_u64 ring ring_dequeue_pos
      compact_slots cap cap (max enq deq) 0
      store_u64 ring ring_last_compact_enq enq
      store_u64 ring ring_last_compact_deq deq
