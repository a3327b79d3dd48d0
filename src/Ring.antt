-- ===== src/Ring.antt =====
-- crates/_channels_shm_native/src/ring.rs: the bounded ring of a channel. A ring is named by the
-- offset of its header. `yield_now` has no effect on the region and is left out.
pub mod Enqueue
pub mod Dequeue
pub mod Repair
pub mod Contents
pub mod EnqueueRun
pub mod FifoEnqueue
pub mod Consumed
pub mod DequeueRun
pub mod FifoDequeue
pub mod Fresh
pub mod Reset
pub mod Recovery
pub mod Undisturbed
pub mod Compaction
pub mod Stream
pub mod DeadOwner
pub mod NextTicket
pub mod Concurrent
use django_channels_shm.Prelude.{
  ℕ, zero, suc, ◌+◌, ◌*◌, Bool, Option, none, some, ◌==◌, if◌then◌else◌,
}
use django_channels_shm.Shm.{
  Prog, ret, diverge, ◌>>=◌, ◌>>◌, add64, load_u64, store_u64, read_u32, write_u32, write_u16,
  write_u8,
}
use django_channels_shm.Layout.{
  hdr_inline_size, ring_enqueue_pos, ring_dequeue_pos, ring_capacity, ring_last_compact_enq,
  ring_last_compact_deq, ring_generation, ring_header_size, slot_seq, slot_owner_pid,
  slot_owner_ticket, slot_owner_start_time, slot_compact_mark, slot_expiry_ts, slot_channel_len,
  slot_msg_len, slot_overflow_off, slot_size,
}

pub record OwnerIdentity : Type 0 where
  pub pid : ℕ
  pub start_time : ℕ

pub data EnqueueResult : Type 0 where
  ok full : EnqueueResult

-- `SEQ_AHEAD_SPIN_BOUND`
abbrev pub seq_ahead_spin_bound : ℕ
seq_ahead_spin_bound = 64

-- What a computed answer stands for; a panic gives no result.
abbrev pub answer : {A : Type 0} → Option A → Prog A
answer none = diverge
answer (some a) = ret a

module _ (ring : ℕ) where
  abbrev pub slot_offset : ℕ → ℕ
  slot_offset idx = ring + ring_header_size + idx * slot_size

  abbrev pub capacity : Prog ℕ
  capacity = read_u32 ring ring_capacity

  -- The loop of `init` over the slots from `i` on, `n` of them left.
  unfoldable pub init_slots : ℕ → ℕ → Prog (Unit {0})
  init_slots zero i = ret tt
  init_slots (suc n) i = do
    let slot_off = slot_offset i
    store_u64 slot_off slot_seq i
    write_u32 slot_off slot_owner_pid 0
    store_u64 slot_off slot_owner_ticket 0
    store_u64 slot_off slot_owner_start_time 0
    write_u8 slot_off slot_compact_mark 0
    store_u64 slot_off slot_expiry_ts 0
    write_u16 slot_off slot_channel_len 0
    write_u32 slot_off slot_msg_len 0
    store_u64 slot_off slot_overflow_off 0
    init_slots n (i + 1)

  unfoldable pub init : ℕ → Prog (Unit {0})
  unfolding init_slots
  init cap = do
    store_u64 ring ring_enqueue_pos 0
    store_u64 ring ring_dequeue_pos 0
    write_u32 ring ring_capacity cap
    store_u64 ring ring_last_compact_enq 0
    store_u64 ring ring_last_compact_deq 0
    store_u64 ring ring_generation 0
    init_slots cap 0

  -- The loop of `reset`; an overflow page is only forgotten, since the pool is reset too.
  unfoldable pub reset_slots : ℕ → ℕ → Prog (Unit {0})
  reset_slots zero i = ret tt
  reset_slots (suc n) i = do
    let slot_off = slot_offset i
    store_u64 slot_off slot_seq i
    write_u32 slot_off slot_owner_pid 0
    store_u64 slot_off slot_owner_ticket 0
    store_u64 slot_off slot_owner_start_time 0
    write_u8 slot_off slot_compact_mark 0
    store_u64 slot_off slot_expiry_ts 0
    write_u16 slot_off slot_channel_len 0
    write_u32 slot_off slot_msg_len 0
    overflow_off ← load_u64 slot_off slot_overflow_off
    if overflow_off == 0
        then reset_slots n (i + 1)
        else (store_u64 slot_off slot_overflow_off 0 >> reset_slots n (i + 1))

  -- The generation is bumped before anything is torn down.
  unfoldable pub reset : Prog (Unit {0})
  unfolding reset_slots
  reset = do
    cap ← capacity
    gen ← load_u64 ring ring_generation
    store_u64 ring ring_generation (add64 gen 1)
    store_u64 ring ring_enqueue_pos 0
    store_u64 ring ring_dequeue_pos 0
    store_u64 ring ring_last_compact_enq 0
    store_u64 ring ring_last_compact_deq 0
    reset_slots cap 0
