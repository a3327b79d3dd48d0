-- ===== src/Ring/Concurrent.antt =====
-- Any number of processes at one ring, each with one call of `try_enqueue` or `try_dequeue`, their
-- accesses interleaved.
pub mod Roles
pub mod Senders
pub mod Receivers
pub mod Invariant
pub mod Quiet
pub mod Counters
pub mod Claims
pub mod Takes
pub mod Slots
pub mod Steps
pub mod Sends
pub mod Receives
pub mod Course
pub mod Ended
pub mod Delivered
use django_channels_shm.Prelude.{ℕ, Option}
use django_channels_shm.Shm.{Memory, Prog, ret, ◌>>=◌}
use django_channels_shm.Shm.Interleave.{System}
use django_channels_shm.Layout.Process.{Env}
use django_channels_shm.Slab.{SlabAllocator}
use django_channels_shm.Ring.{OwnerIdentity, EnqueueResult}
use django_channels_shm.Ring.Enqueue.{try_enqueue}
use django_channels_shm.Ring.Dequeue.{Delivery, try_dequeue}
use django_channels_shm.Ring.Contents.{Message}

-- What a process is to do, and what its call returned.
pub data Call : Type 0 where
  send : Message → OwnerIdentity → Call
  receive : ℕ → OwnerIdentity → Call

pub data Outcome : Type 0 where
  sent : EnqueueResult → Outcome
  received : Option Delivery → Outcome

module _ (env : Env) (slab : SlabAllocator) (ring : ℕ) where
  unfoldable pub program : Call → Prog Outcome
  program (send msg owner) = do
    result ← try_enqueue env slab ring msg.name msg.body msg.expiry owner
    ret (sent result)
  program (receive now owner) = do
    result ← try_dequeue env slab ring now owner
    ret (received result)

  abbrev pub traffic : (ℕ → Call) → Memory → System Outcome
  traffic calls m = record { memory = m; procs = λ i. program (calls i) }
