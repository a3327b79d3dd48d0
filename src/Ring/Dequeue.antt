-- ===== src/Ring/Dequeue.antt =====
-- `Ring::try_dequeue` of ring.rs.
use django_channels_shm.Prelude.{
  ℕ, zero, suc, ◌%◌, ltb, ◌==◌, if◌then◌else◌, Option, none, some, List,
}
use django_channels_shm.Shm.{
  Prog, ret, diverge, ◌>>=◌, ◌>>◌, add64, load_u64, store_u64, cas_u64, read_u32, write_u32,
  read_u16, read_bytes, copy_out,
}
use django_channels_shm.Layout.{
  ring_dequeue_pos, ring_generation, slot_seq, slot_owner_pid, slot_owner_ticket,
  slot_owner_start_time, slot_expiry_ts, slot_channel_len, slot_channel_name, slot_msg_len,
  slot_inline, slot_overflow_off, slot_recovering,
}
use django_channels_shm.Layout.Process.{Env, pid_dead}
use django_channels_shm.Slab
use django_channels_shm.Slab.{SlabAllocator}
use django_channels_shm.Ring.{OwnerIdentity, answer, slot_offset, capacity}
use django_channels_shm.Ring.Repair.{recover_slot, release_overflow}

-- The channel name and the message.
abbrev pub Delivery : Type 0
Delivery = List ℕ × List ℕ

module _ (env : Env) (slab : SlabAllocator) where
  -- The payload of a message in an overflow page, which is claimed and freed, or inline.
  unfoldable pub take_payload : ℕ → Prog (List ℕ)
  take_payload so = do
    msg_len ← read_u32 so slot_msg_len
    overflow_off ← load_u64 so slot_overflow_off
    if overflow_off == 0 then read_bytes so slot_inline msg_len else (do
      data' ← copy_out overflow_off 0 msg_len
      claimed ← cas_u64 so slot_overflow_off overflow_off 0
      if claimed then (Slab.free slab env.rounds overflow_off msg_len >> ret data') else ret data')

  -- From the owner record of the consumer to the return.
  unfoldable pub deliver : ℕ → ℕ → ℕ → OwnerIdentity → Prog (Option Delivery)
  unfolding take_payload
  deliver so pos cap owner = do
    write_u32 so slot_owner_pid owner.pid
    store_u64 so slot_owner_ticket pos
    store_u64 so slot_owner_start_time owner.start_time
    ch_len ← read_u16 so slot_channel_len
    channel_name ← read_bytes so slot_channel_name ch_len
    msg_data ← take_payload so
    store_u64 so slot_seq (add64 pos cap)
    write_u32 so slot_owner_pid 0
    store_u64 so slot_owner_ticket 0
    ret (some (channel_name, msg_data))

  -- An expired message: its slot is recycled and its page released.
  unfoldable pub drop_expired : ℕ → ℕ → ℕ → Prog (Unit {0})
  unfolding release_overflow
  drop_expired so pos cap = do
    store_u64 so slot_seq (add64 pos cap)
    write_u32 so slot_owner_pid 0
    store_u64 so slot_owner_ticket 0
    release_overflow env.rounds slab so

  module _ (ring : ℕ) where
    -- The loop, of at most so many rounds.
    unfoldable pub dequeue_loop : ℕ → ℕ → ℕ → OwnerIdentity → Prog (Option Delivery)
    unfolding deliver drop_expired
    dequeue_loop zero cap now owner = diverge
    dequeue_loop (suc rounds) cap now owner = do
      pos ← load_u64 ring ring_dequeue_pos
      gen0 ← load_u64 ring ring_generation
      let slot_off = slot_offset ring (pos % cap)
      seq ← load_u64 slot_off slot_seq
      if ltb seq (add64 pos 1)
          then (do
            owner_pid ← read_u32 slot_off slot_owner_pid
            if owner_pid == 0 then ret none else (do
              owner_st ← load_u64 slot_off slot_owner_start_time
              if owner_pid == slot_recovering then ret none else (do
                dead ← answer (pid_dead env owner_pid owner_st)
                if dead
                    then (recover_slot env.rounds slab slot_off cap owner_pid
                        >> dequeue_loop rounds cap now owner)
                    else ret none)))
          else (if ltb (add64 pos 1) seq
              then (do
                _ ← cas_u64 ring ring_dequeue_pos pos (add64 pos 1)
                dequeue_loop rounds cap now owner)
              else (do
                claimed ← cas_u64 ring ring_dequeue_pos pos (add64 pos 1)
                if claimed
                    then (do
                      gen ← load_u64 ring ring_generation
                      if gen == gen0
                          then (do
                            expiry_ts ← load_u64 slot_off slot_expiry_ts
                            if env.later now expiry_ts
                                then (drop_expired slot_off pos cap
                                    >> dequeue_loop rounds cap now owner)
                                else deliver slot_off pos cap owner)
                          else (do
                            _ ← cas_u64 slot_off slot_seq (add64 pos 1) (add64 pos cap)
                            write_u32 slot_off slot_owner_pid 0
                            store_u64 slot_off slot_owner_ticket 0
                            ret none))
                    else dequeue_loop rounds cap now owner))

    -- `none` if no message is available.
    unfoldable pub try_dequeue : ℕ → OwnerIdentity → Prog (Option Delivery)
    unfolding dequeue_loop
    try_dequeue now owner = do cap ← capacity ring; dequeue_loop env.rounds cap now owner
