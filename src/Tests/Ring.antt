-- ===== src/Tests/Ring.antt =====
-- A ring of two slots at offset 4096, inline messages of up to 512 bytes.
use django_channels_shm.Prelude.{
  true, ◌%◌, ◌≤◌, ◌<◌, ◌+◌, ℕ, zero, suc, ◌≡◌, refl, sym, ◌&&◌, none, some, [], ◌∷◌, ltb, ◌==◌,
  if◌then◌else◌, arith, ne→==,
}
use django_channels_shm.Shm.{Memory, add64, set_word, exec}
use django_channels_shm.Layout.{
  hdr_inline_size, ring_capacity, ring_enqueue_pos, ring_generation, ring_last_compact_enq,
  ring_last_compact_deq, slot_seq, slot_owner_pid,
}
use django_channels_shm.Layout.Process.{Env, pid_dead}
use django_channels_shm.Tests.Layout.{env}
use django_channels_shm.Tests.Slab.{pool}
use django_channels_shm.Ring.{OwnerIdentity, ok, full, reset, slot_offset}
use django_channels_shm.Ring.Enqueue.{try_enqueue}
use django_channels_shm.Ring.Dequeue.{try_dequeue}
use django_channels_shm.Ring.Repair.{next_ticket, recover_slot, compact}
use django_channels_shm.Ring.Stream.{enqueue_all, dequeue_all, delivery, fifo}
use django_channels_shm.Ring.DeadOwner.{try_dequeue-dead}
use django_channels_shm.Ring.NextTicket.{next_ticket_lem}
use django_channels_shm.Ring.Contents.{Message, slot_of, IsRing}
use django_channels_shm.Ring.FifoEnqueue.{try_enqueue-ok, try_enqueue-full}
use django_channels_shm.Ring.FifoDequeue.{next_live, try_dequeue_lem}
use django_channels_shm.Ring.Reset.{reset-IsRing}
use django_channels_shm.Ring.Recovery.{IsCrashed, recover_slot-IsRing}
use django_channels_shm.Ring.Compaction.{IsUnmarked, compact-IsRing}

abbrev pub owner : OwnerIdentity
owner = record { pid = 7; start_time = 77 }

abbrev pub hello : Message
hello = record { name = 97 ∷ 98 ∷ []; body = 1 ∷ 2 ∷ 3 ∷ []; expiry = 50 }

abbrev pub blank : Message
blank = record { name = []; body = []; expiry = 60 }

abbrev pub empty_ring : Memory
empty_ring = record {
  word = λ o f.
      if (f == slot_seq) && (o == slot_offset 4096 1)
      then 1
      else if (f == ring_capacity) && (o == 4096)
      then 2
      else if (f == hdr_inline_size) && (o == 0)
      then 512
      else 0;
  bytes = λ _ _. [];
}

pub empty_ring-IsRing : IsRing empty_ring 4096 2 0 0 []
empty_ring-IsRing = record {
  capacity = refl;
  at_least_two = omega arith;
  enqueue_pos = refl;
  dequeue_pos = refl;
  span = refl;
  fits = omega arith;
  filled = λ i c h. ground arith;
  empty = λ q a b. by_ticket q b;
  ownerless = λ i h. refl;
}
  where
    by_ticket : (q : ℕ) → q < 2 → empty_ring.word (slot_of 4096 2 q) slot_seq ≡ q
    by_ticket zero h = refl
    by_ticket (suc zero) h = refl
    by_ticket (suc (suc q)) h = absurd (omega arith)

-- The first message goes in, and then the second one.
abbrev with_hello :
    (m' : Memory) × (exec
        (try_enqueue env pool 4096 hello.name hello.body hello.expiry owner)
        empty_ring
      ≡ some (ok, m'))
    × IsRing m' 4096 2 0 1 (some hello ∷ [])
    × (m'.word 0 hdr_inline_size ≡ 512)
with_hello =
    try_enqueue-ok env pool empty_ring 4096 2 0 0 [] owner hello (omega arith) empty_ring-IsRing
      (omega arith) (omega arith) (omega arith) (omega arith) (omega arith)

abbrev with_both :
    (m' : Memory) × (exec (try_enqueue env pool 4096 [] [] 60 owner) with_hello.0 ≡ some (ok, m'))
    × IsRing m' 4096 2 0 2 (some hello ∷ some blank ∷ [])
    × (m'.word 0 hdr_inline_size ≡ with_hello.0.word 0 hdr_inline_size)
with_both =
    try_enqueue-ok env pool with_hello.0 4096 2 0 1 (some hello ∷ []) owner blank (omega arith)
      with_hello.2 (omega arith) (omega arith) (omega arith) (omega arith) (omega arith)

try_enqueue-ok_example :
    (m' : Memory) × (exec (try_enqueue env pool 4096 (97 ∷ []) (9 ∷ []) 5 owner) empty_ring
      ≡ some (ok, m'))
    × IsRing m' 4096 2 0 1 (some (record { name = 97 ∷ []; body = 9 ∷ []; expiry = 5 }) ∷ [])
    × (m'.word 0 hdr_inline_size ≡ 512)
try_enqueue-ok_example =
    try_enqueue-ok env pool empty_ring 4096 2 0 0 [] owner
      (record { name = 97 ∷ []; body = 9 ∷ []; expiry = 5 }) (omega arith) empty_ring-IsRing
      (omega arith) (omega arith) (omega arith) (omega arith) (omega arith)

try_enqueue-full_example :
    exec (try_enqueue env pool 4096 [] [] 60 owner) with_both.0 ≡ some (full, with_both.0)
try_enqueue-full_example =
    try_enqueue-full env pool with_both.0 4096 2 0 2 hello (some blank ∷ []) owner blank
      (omega arith) with_both.2 refl

-- The clock stands at 55: `hello` has expired and `blank` has not.
abbrev at_55 : Env
at_55 = record { kill = env.kill; stat = env.stat; later = λ a b. ltb b a; rounds = 8 }

try_dequeue_example :
    (m' : Memory) × (deq' : ℕ) × (exec (try_dequeue at_55 pool 4096 55 owner) with_both.0
      ≡ some (some ([], []), m'))
    × IsRing m' 4096 2 deq' 2 []
unfolding next_live
try_dequeue_example =
    try_dequeue_lem at_55 pool with_both.0 4096 2 0 2 (some hello ∷ some blank ∷ []) owner 55
      (omega arith) with_both.2 (omega arith)

reset_example :
    (m' : Memory) × (exec (reset 4096) with_both.0 ≡ some (tt, m'))
    × IsRing m' 4096 2 0 0 []
    × (m'.word 4096 ring_generation ≡ add64 (with_both.0.word 4096 ring_generation) 1)
reset_example = reset-IsRing 4096 with_both.0 2 (omega arith) with_both.2.capacity

-- Process 9 took ticket 0 and died.
abbrev crashed : Memory
crashed =
    set_word 4096 ring_enqueue_pos 1 (set_word (slot_offset 4096 0) slot_owner_pid 9 empty_ring)

is_crashed : IsCrashed crashed 4096 2 0 0 9 []
is_crashed = record {
  before = empty_ring;
  at_rest = empty_ring-IsRing;
  had_room = omega arith;
  claimed = refl;
  owner = refl;
  ticket = refl;
  unpublished = refl;
  no_page = refl;
  same_capacity = refl;
  same_dequeue_pos = refl;
  same_seq = λ s n n'. rw (ne→== 4096 s (λ q. n' (sym q)));
  same_owner = λ s n n'. rw (ne→== (slot_offset 4096 0) s n);
  same_held = λ s old n n' h. record {
    name_len = h.name_len;
    name = h.name;
    body_len = h.body_len;
    body = h.body;
    expiry = h.expiry;
    no_page = h.no_page;
  };
}

recover_slot-IsRing_example :
    (m' : Memory) × (exec (recover_slot 8 pool (slot_of 4096 2 0) 2 9) crashed ≡ some (tt, m'))
    × IsRing m' 4096 2 0 1 (none ∷ [])
recover_slot-IsRing_example =
    recover_slot-IsRing 8 pool crashed 4096 2 0 0 9 [] is_crashed (omega arith)

compact_example :
    (m' : Memory) × (exec (compact 8 pool 4096) with_both.0 ≡ some (tt, m'))
    × IsRing m' 4096 2 0 2 (some hello ∷ some blank ∷ [])
    × IsUnmarked 4096 2 m'
    × (m'.word 4096 ring_last_compact_enq ≡ 2)
    × (m'.word 4096 ring_last_compact_deq ≡ 0)
compact_example =
    compact-IsRing 8 pool with_both.0 4096 2 0 2 (some hello ∷ some blank ∷ []) with_both.2

fifo_example :
    (m₁ : Memory) × (m' : Memory) × (deq' : ℕ) × (exec
        (enqueue_all env pool 4096 owner (hello ∷ blank ∷ []))
        empty_ring
      ≡ some (ok ∷ ok ∷ [], m₁))
    × (exec (dequeue_all env pool 4096 owner 55 2) m₁
        ≡ some (delivery hello ∷ delivery blank ∷ [], m'))
    × IsRing m' 4096 2 deq' 2 []
fifo_example =
    fifo env pool 4096 2 (omega arith) owner owner 55 (hello ∷ blank ∷ []) empty_ring 0 0
      empty_ring-IsRing (omega arith) (omega arith) (omega arith) (omega arith) (refl, (refl, tt))

dead_9 : pid_dead at_55 9 0 ≡ some true
unfolding pid_dead
dead_9 = refl

try_dequeue-dead_example :
    (m' : Memory) × (deq' : ℕ) × (exec (try_dequeue at_55 pool 4096 55 owner) crashed
      ≡ some (none, m'))
    × IsRing m' 4096 2 deq' 1 []
try_dequeue-dead_example =
    try_dequeue-dead at_55 pool crashed 4096 2 0 0 9 owner 55 (omega arith) is_crashed dead_9
      (omega arith)

next_ticket_example :
    (6 ≤ next_ticket 4 6 1) × (next_ticket 4 6 1 < 6 + 4) × (next_ticket 4 6 1 % 4 ≡ 1)
next_ticket_example = next_ticket_lem 4 6 1 (omega arith) (omega arith)
