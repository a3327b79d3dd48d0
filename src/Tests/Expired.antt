-- ===== src/Tests/Expired.antt =====
-- A consumer drops an expired message that has an overflow page, and a producer takes its slot before
-- the consumer has looked for the page: the producer's message loses its page.
use django_channels_shm.Prelude.{
  ℕ, zero, suc, ◌≡◌, refl, ◌&&◌, ◌||◌, none, some, [], ◌∷◌, ltb, ◌==◌, if◌then◌else◌, position_from,
}
use django_channels_shm.Shm.{Memory, ret}
use django_channels_shm.Shm.Interleave.{System, access, run, alone}
use django_channels_shm.Layout.{hdr_inline_size, ring_capacity, slot_seq, slot_overflow_off}
use django_channels_shm.Layout.Process.{Env, other_errno}
use django_channels_shm.Layout.SizeClass.{size_class_idx}
use django_channels_shm.Slab.{
  alloc, free, spinlock_acquire, spinlock_release, alloc_from_class, pop_free, bump_alloc,
  push_free,
}
use django_channels_shm.Ring.{slot_offset, ok}
use django_channels_shm.Ring.Repair.{release_overflow}
use django_channels_shm.Ring.Enqueue.{
  try_enqueue, claim, admit, overflow_page, write_payload, publish,
}
use django_channels_shm.Ring.Dequeue.{
  try_dequeue, dequeue_loop, deliver, drop_expired, take_payload,
}
use django_channels_shm.Ring.Concurrent.{
  Call, send, receive, Outcome, sent, received, program, traffic,
}
use django_channels_shm.Tests.Slab.{pool}
use django_channels_shm.Tests.Ring.{owner}

-- The clock compares the numbers.
abbrev clock : Env
clock = record { kill = λ pid. other_errno; stat = λ pid. none; later = λ a b. ltb b a; rounds = 8 }

-- A ring of two slots at 131072, in which bodies of more than two bytes go to a page.
abbrev start : Memory
start = record {
  word = λ o f.
      if (f == slot_seq) && (o == slot_offset 131072 1)
      then 1
      else if ((f == ring_capacity) && (o == 131072)) || ((f == hdr_inline_size) && (o == 0))
      then 2
      else if (f == 0) && (o == 4288)
      then 4296
      else 0;
  bytes = λ _ _. [];
}

abbrev calls : ℕ → Call
calls zero = send (record { name = 97 ∷ []; body = 1 ∷ 2 ∷ 3 ∷ []; expiry = 10 }) owner
calls (suc zero) = receive 20 owner
calls (suc (suc zero)) = send (record { name = 98 ∷ []; body = 4 ∷ []; expiry = 50 }) owner
calls (suc (suc (suc zero))) =
    send (record { name = 99 ∷ []; body = 5 ∷ 6 ∷ 7 ∷ []; expiry = 50 }) owner
calls (suc (suc (suc (suc j)))) = receive 20 owner

-- The consumer has given the slot back, and the two producers have sent their messages.
abbrev between : System Outcome
between =
    run (alone 45 3) (
      run (alone 45 2) (run (alone 8 1) (run (alone 45 0) (traffic clock pool 131072 calls start))))

-- Then the consumer goes on, and another one takes the last message.
abbrev end : System Outcome
end = run (alone 45 4) (run (alone 45 1) between)

page_written : between.memory.word (slot_offset 131072 0) slot_overflow_off ≡ 4808
unfolding run access program claim admit overflow_page write_payload publish try_enqueue
    release_overflow dequeue_loop deliver drop_expired take_payload try_dequeue alloc free
    size_class_idx position_from spinlock_acquire spinlock_release alloc_from_class pop_free
    bump_alloc push_free
page_written = refl

page_lost :
    (between.procs 3 ≡ ret (sent ok))
    × (end.procs 1 ≡ ret (received (some (98 ∷ [], 4 ∷ []))))
    × (end.procs 4 ≡ ret (received (some (99 ∷ [], 0 ∷ 0 ∷ 0 ∷ []))))
unfolding run access program claim admit overflow_page write_payload publish try_enqueue
    release_overflow dequeue_loop deliver drop_expired take_payload try_dequeue alloc free
    size_class_idx position_from spinlock_acquire spinlock_release alloc_from_class pop_free
    bump_alloc push_free
page_lost = (refl, refl, refl)
