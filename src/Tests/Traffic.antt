-- ===== src/Tests/Traffic.antt =====
-- Two senders and two receivers at the ring of the tests.
use django_channels_shm.Prelude.{ℕ, zero, suc, ◌≡◌, refl, none, some, List, [], ◌∷◌, false, arith}
use mathlib.Core.Path.{subst}
use django_channels_shm.Shm.{ret}
use django_channels_shm.Shm.Interleave.{System, access, run}
use django_channels_shm.Layout.Process.{Env, other_errno, pid_dead}
use django_channels_shm.Ring.{ok, OwnerIdentity}
use django_channels_shm.Ring.Contents.{Message}
use django_channels_shm.Ring.Enqueue.{
  try_enqueue, claim, admit, overflow_page, write_payload, publish,
}
use django_channels_shm.Ring.Dequeue.{try_dequeue}
use django_channels_shm.Ring.Concurrent.{
  Call, send, receive, Outcome, sent, received, program, traffic,
}
use django_channels_shm.Ring.Concurrent.Delivered.{
  IsFresh, IsInline, IsDelivered, traffic-IsDelivered,
}
use django_channels_shm.Tests.Slab.{pool}
use django_channels_shm.Tests.Ring.{owner, hello, blank, empty_ring, empty_ring-IsRing}

-- Every process runs, and may not be signalled.
abbrev guarded : Env
guarded = record { kill = λ pid. other_errno; stat = λ pid. none; later = λ a b. false; rounds = 8 }

guarded_alive : (pid start_time : ℕ) → pid_dead guarded pid start_time ≡ some false
unfolding pid_dead
guarded_alive pid start_time = ground arith

abbrev calls : ℕ → Call
calls zero = send hello owner
calls (suc zero) = send blank owner
calls (suc (suc j)) = receive 40 owner

hello_fits : IsInline 512 hello
hello_fits = (omega arith, omega arith, omega arith)

blank_fits : IsInline 512 blank
blank_fits = (omega arith, omega arith, omega arith)

calls_fit : (j : ℕ) (msg : Message) (o : OwnerIdentity) → calls j ≡ send msg o → IsInline 512 msg
calls_fit zero msg o e = subst (IsInline 512) {x = hello} {y = msg} (cc e) hello_fits
calls_fit (suc zero) msg o e = subst (IsInline 512) {x = blank} {y = msg} (cc e) blank_fits
calls_fit (suc (suc j)) msg o e = absurd (cc e)

fresh : IsFresh empty_ring 4096 2 512
fresh = record { is_ring = empty_ring-IsRing; limit = refl; no_pages = λ x h. refl }

-- Processes `i` and `j` take turns.
abbrev turns : ℕ → ℕ → ℕ → List ℕ → List ℕ
turns zero i j rest = rest
turns (suc n) i j rest = i ∷ j ∷ turns n i j rest

abbrev order : List ℕ
order = turns 25 0 1 (turns 30 2 3 [])

abbrev result : System Outcome
result = run order (traffic guarded pool 4096 calls empty_ring)

traffic-IsDelivered_example : IsDelivered calls result
traffic-IsDelivered_example =
    traffic-IsDelivered guarded pool 4096 2 512 calls empty_ring order fresh guarded_alive calls_fit
      (omega arith)

results :
    (result.procs 0 ≡ ret (sent ok))
    × (result.procs 1 ≡ ret (sent ok))
    × (result.procs 2 ≡ ret (received (some (hello.name, hello.body))))
    × (result.procs 3 ≡ ret (received (some (blank.name, blank.body))))
unfolding run access program claim admit overflow_page write_payload publish try_enqueue try_dequeue
results = (refl, refl, refl, refl)
