-- ===== src/Tests/Torn.antt =====
-- A producer dies between the record of its pid and that of its ticket: the repair of its slot takes the
-- ticket for 0, and in this ring the slot then counts as published.
use django_channels_shm.Prelude.{
  ℕ, zero, suc, ◌≡◌, refl, false, none, some, [], ◌∷◌, ◌==◌, if◌then◌else◌,
}
use django_channels_shm.Shm.{ret}
use django_channels_shm.Shm.Interleave.{System, access, run, alone}
use django_channels_shm.Layout.{slot_owner_pid, slot_owner_ticket, ring_enqueue_pos}
use django_channels_shm.Layout.Process.{Env, other_errno, no_such_process, pid_dead}
use django_channels_shm.Ring.{slot_offset}
use django_channels_shm.Ring.Repair.{release_overflow, repair_slot_to, recover_slot}
use django_channels_shm.Ring.Enqueue.{
  try_enqueue, claim, admit, overflow_page, write_payload, publish,
}
use django_channels_shm.Ring.Dequeue.{
  try_dequeue, dequeue_loop, deliver, drop_expired, take_payload,
}
use django_channels_shm.Ring.Concurrent.{Call, send, receive, Outcome, received, program, traffic}
use django_channels_shm.Tests.Slab.{pool}
use django_channels_shm.Tests.Ring.{owner, hello, empty_ring}

-- Process 7 runs and process 9 is gone.
abbrev nine_gone : Env
nine_gone = record {
  kill = λ pid. if pid == 7 then other_errno else no_such_process;
  stat = λ pid. none;
  later = λ a b. false;
  rounds = 8;
}

abbrev calls : ℕ → Call
calls zero = send hello owner
calls (suc zero) =
    send (record { name = 98 ∷ []; body = 4 ∷ []; expiry = 50 })
      (record { pid = 9; start_time = 99 })
calls (suc (suc j)) = receive 20 owner

-- Process 1 has taken ticket 1 and recorded its pid, no more.
abbrev died : System Outcome
died = run (alone 7 1) (run (alone 45 0) (traffic nine_gone pool 4096 calls empty_ring))

abbrev end : System Outcome
end = run (alone 45 3) (run (alone 45 2) died)

recorded :
    (died.memory.word (slot_offset 4096 1) slot_owner_pid ≡ 9)
    × (died.memory.word (slot_offset 4096 1) slot_owner_ticket ≡ 0)
    × (died.memory.word 4096 ring_enqueue_pos ≡ 2)
unfolding run access program claim admit overflow_page write_payload publish try_enqueue
    release_overflow repair_slot_to recover_slot dequeue_loop deliver drop_expired take_payload
    try_dequeue pid_dead
recorded = (refl, refl, refl)

-- The second receiver gets a message that nobody has written.
never_sent :
    (end.procs 2 ≡ ret (received (some (hello.name, hello.body))))
    × (end.procs 3 ≡ ret (received (some ([], []))))
unfolding run access program claim admit overflow_page write_payload publish try_enqueue
    release_overflow repair_slot_to recover_slot dequeue_loop deliver drop_expired take_payload
    try_dequeue pid_dead
never_sent = (refl, refl)
