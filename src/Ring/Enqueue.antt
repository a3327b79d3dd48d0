-- ===== src/Ring/Enqueue.antt =====
-- `Ring::try_enqueue` of ring.rs, step by step as its comments number it.
use django_channels_shm.Prelude.{
  ℕ, zero, suc, ◌+◌, ◌%◌, ◌^◌, ltb, leb, ◌==◌, if◌then◌else◌, ◌||◌, Option, none, some, List,
  length, take, min,
}
use django_channels_shm.Shm.{
  Prog, ret, diverge, ◌>>=◌, ◌>>◌, add64, load_u64, store_u64, cas_u64, read_u32, write_u32,
  write_u16, copy_in, copy_field,
}
use django_channels_shm.Layout.{
  hdr_inline_size, ring_enqueue_pos, ring_generation, slot_seq, slot_owner_pid, slot_owner_ticket,
  slot_owner_start_time, slot_expiry_ts, slot_channel_len, slot_channel_name, slot_msg_len,
  slot_inline, slot_overflow_off, slot_recovering,
}
use django_channels_shm.Layout.Process.{Env, pid_dead}
use django_channels_shm.Slab
use django_channels_shm.Slab.{SlabAllocator}
use django_channels_shm.Ring.{
  OwnerIdentity, EnqueueResult, ok, full, seq_ahead_spin_bound, answer, slot_offset, capacity,
}
use django_channels_shm.Ring.Repair.{recover_slot}

module _ (env : Env) (slab : SlabAllocator) (ring : ℕ) where
  -- Step 1: the ticket and the offset of its slot, or `none` for Full. `spins` counts the rounds
  -- that found the slot ahead.
  unfoldable pub claim : ℕ → ℕ → ℕ → Prog (Option (ℕ × ℕ))
  unfolding recover_slot pid_dead
  claim zero spins cap = diverge
  claim (suc rounds) spins cap = do
    p ← load_u64 ring ring_enqueue_pos
    let so = slot_offset ring (p % cap)
    seq ← load_u64 so slot_seq
    if seq == p
        then (do
          won ← cas_u64 ring ring_enqueue_pos p (add64 p 1)
          if won then ret (some (p, so)) else claim rounds spins cap)
        else (if ltb seq p
            then (do
              owner_pid ← read_u32 so slot_owner_pid
              if owner_pid == 0 || owner_pid == slot_recovering then ret none else (do
                start_time ← load_u64 so slot_owner_start_time
                dead ← answer (pid_dead env owner_pid start_time)
                if dead
                    then (recover_slot env.rounds slab so cap owner_pid >> claim rounds spins cap)
                    else ret none))
            else (if leb seq_ahead_spin_bound (spins + 1)
                then ret none
                else claim rounds (spins + 1) cap))

  -- Step 2: the owner record of the ticket.
  unfoldable pub record_owner : ℕ → ℕ → OwnerIdentity → Prog (Unit {0})
  record_owner so pos owner = do
    write_u32 so slot_owner_pid owner.pid
    store_u64 so slot_owner_ticket pos
    store_u64 so slot_owner_start_time owner.start_time

  -- Step 3: the overflow page of a message that does not fit inline, or 0. `none` is Full: the slab
  -- is exhausted, and the ticket's round is skipped unless a flush came between.
  unfoldable pub overflow_page : ℕ → ℕ → ℕ → ℕ → ℕ → List ℕ → OwnerIdentity → Prog (Option ℕ)
  overflow_page so pos cap gen0 inline_size msg_data owner =
      if ltb inline_size (length msg_data)
      then (do
        off ← Slab.alloc slab env.rounds (length msg_data)
        if off == 0
            then (do
              gen ← load_u64 ring ring_generation
              if gen == gen0
                  then (do
                    _ ← cas_u64 so slot_seq pos (add64 pos cap)
                    write_u32 so slot_owner_pid 0
                    store_u64 so slot_owner_ticket 0
                    ret none)
                  else (do _ ← cas_u64 so slot_owner_pid owner.pid 0; ret none))
            else ret (some off))
      else ret (some 0)

  -- Step 4: the payload. The inline field has 512 bytes.
  unfoldable pub write_payload : ℕ → ℕ → List ℕ → List ℕ → ℕ → Prog (Unit {0})
  write_payload so overflow_off channel_name msg_data expiry_ts = do
    store_u64 so slot_expiry_ts expiry_ts
    let name_len = min (length channel_name) 128
    write_u16 so slot_channel_len (name_len % 2 ^ 16)
    copy_in so slot_channel_name (take name_len channel_name)
    write_u32 so slot_msg_len (length msg_data % 2 ^ 32)
    if overflow_off == 0
        then (do copy_field 512 so slot_inline msg_data; store_u64 so slot_overflow_off 0)
        else (do copy_in overflow_off 0 msg_data; store_u64 so slot_overflow_off overflow_off)

  -- Steps 5 to 7: publish, unless a flush came between; retract if it came just after.
  unfoldable pub publish : ℕ → ℕ → ℕ → ℕ → OwnerIdentity → Prog EnqueueResult
  publish so pos cap gen0 owner = do
    gen ← load_u64 ring ring_generation
    if gen == gen0
        then (do
          store_u64 so slot_seq (add64 pos 1)
          write_u32 so slot_owner_pid 0
          store_u64 so slot_owner_ticket 0
          gen' ← load_u64 ring ring_generation
          if gen' == gen0
              then ret ok
              else (do _ ← cas_u64 so slot_seq (add64 pos 1) (add64 pos cap); ret ok))
        else (do _ ← cas_u64 so slot_owner_pid owner.pid 0; ret full)

  -- From the claimed ticket on.
  unfoldable pub admit :
      ℕ → ℕ → ℕ → List ℕ → List ℕ → ℕ → OwnerIdentity → Option (ℕ × ℕ) → Prog EnqueueResult
  unfolding record_owner
  admit cap inline_size gen0 channel_name msg_data expiry_ts owner none = ret full
  admit cap inline_size gen0 channel_name msg_data expiry_ts owner (some (pos, so)) = do
    record_owner so pos owner
    page ← overflow_page so pos cap gen0 inline_size msg_data owner
    elim page [
      | none ↦ ret full
      | some overflow_off ↦ do
        write_payload so overflow_off channel_name msg_data expiry_ts
        publish so pos cap gen0 owner
    ]

  -- The expiry is given by the bits of its `f64`.
  unfoldable pub try_enqueue : List ℕ → List ℕ → ℕ → OwnerIdentity → Prog EnqueueResult
  try_enqueue channel_name msg_data expiry_ts owner = do
    cap ← capacity ring
    inline_size ← read_u32 0 hdr_inline_size
    gen0 ← load_u64 ring ring_generation
    claimed ← claim env.rounds 0 cap
    admit cap inline_size gen0 channel_name msg_data expiry_ts owner claimed
