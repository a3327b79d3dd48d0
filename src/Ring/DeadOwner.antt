-- ===== src/Ring/DeadOwner.antt =====
-- A consumer that meets the slot of a dead producer.
use django_channels_shm.Prelude.{
  ℕ, zero, suc, ◌+◌, ◌≤◌, ◌<◌, ◌≡◌, ◌≢◌, refl, inl, inr, sym, ◌∙◌, [], ◌∷◌, true, none, some, ne→==,
  lt→ltb, arith,
}
use mathlib.Core.Path.{subst}
use native.Mathlib.Nat.{mod-eq_of_lt}
use django_channels_shm.Shm.{Memory, add64, u64_mod, exec}
use django_channels_shm.Shm.Exec.{exec-bind}
use django_channels_shm.Layout.{
  ring_capacity, ring_dequeue_pos, slot_seq, slot_owner_pid, slot_owner_start_time, slot_recovering,
}
use django_channels_shm.Layout.Process.{Env, pid_dead, pid_dead_sentinel}
use django_channels_shm.Slab.{SlabAllocator}
use django_channels_shm.Ring.{OwnerIdentity}
use django_channels_shm.Ring.Dequeue.{dequeue_loop, try_dequeue}
use django_channels_shm.Ring.Repair.{recover_slot}
use django_channels_shm.Ring.Contents.{slot_of, IsRing}
use django_channels_shm.Ring.Recovery.{IsCrashed, recover_slot-IsRing}
use django_channels_shm.Ring.FifoDequeue.{next_live, dequeue_loop-Served}

module _ (env : Env) (slab : SlabAllocator) (ring : ℕ) (owner : OwnerIdentity) (now : ℕ) where
  -- The slot of the next ticket is not published and its owner is dead: it is repaired, and the loop
  -- goes on.
  loop-dead :
      (k cap pos pid start_time : ℕ) (m m' : Memory)
      → m.word ring ring_dequeue_pos ≡ pos
      → m.word (slot_of ring cap pos) slot_seq ≡ pos
      → m.word (slot_of ring cap pos) slot_owner_pid ≡ pid
      → m.word (slot_of ring cap pos) slot_owner_start_time ≡ start_time
      → pid ≢ 0
      → pid ≢ slot_recovering
      → pid_dead env pid start_time ≡ some true
      → pos + 1 < u64_mod
      → exec (recover_slot env.rounds slab (slot_of ring cap pos) cap pid) m ≡ some (tt, m')
      → exec (dequeue_loop env slab ring (suc k) cap now owner) m
        ≡ exec (dequeue_loop env slab ring k cap now owner) m'
  unfolding dequeue_loop exec
  loop-dead k cap' pos pid start_time m m' e s o t nz nr dead w ran =
      let w' : add64 pos 1 ≡ pos + 1 = mod-eq_of_lt w in
      rw
        (
          e,
          s,
          w',
          lt→ltb pos (pos + 1) (omega arith),
          exec,
          o,
          ne→== pid 0 nz,
          exec,
          ne→== pid slot_recovering nr,
          exec,
          t,
          dead,
          exec,
        )
        (exec-bind (recover_slot env.rounds slab (slot_of ring cap' pos) cap' pid) _ m ran)

-- A process that is reported dead is no sentinel.
dead_ne :
    (env : Env) (pid start_time : ℕ)
    → pid_dead env pid start_time ≡ some true
    → (pid ≢ 0) × (pid ≢ slot_recovering)
dead_ne env pid start_time dead = (
  (λ e. cc (pid_dead_sentinel env pid start_time (inl e), dead)),
  (λ e. cc (pid_dead_sentinel env pid start_time (inr (omega (arith, e))), dead)),
)

-- The ring was at rest and empty when a producer took a ticket and died after it had recorded its pid
-- and that ticket in the slot, and before it published, without an overflow page. A consumer that is
-- told that the process is dead repairs the slot, passes over the round and answers None in three
-- rounds; the ring is then at rest and empty again. No counter may come near 2 ^ 64.
pub try_dequeue-dead :
    (env : Env) (slab : SlabAllocator) (m : Memory) (ring cap deq enq pid : ℕ)
    (owner : OwnerIdentity) (now : ℕ)
    → 3 ≤ env.rounds
    → IsCrashed m ring cap deq enq pid []
    → pid_dead env pid (m.word (slot_of ring cap enq) slot_owner_start_time) ≡ some true
    → enq + 1 + cap < u64_mod
    → (m' : Memory) × (deq' : ℕ) × (exec (try_dequeue env slab ring now owner) m ≡ some (none, m'))
      × IsRing m' ring cap deq' (enq + 1) []
unfolding try_dequeue next_live exec
try_dequeue-dead env slab m ring cap' deq enq pid owner now three x dead w =
    let r = x.at_rest in
    let (m₁, repair, r₁) =
      recover_slot-IsRing env.rounds slab m ring cap' deq enq pid [] x (omega arith) in
    let deq_pos : m.word ring ring_dequeue_pos ≡ enq =
      x.same_dequeue_pos ∙ r.dequeue_pos ∙ omega (arith, r.span) in
    let cap_eq = x.same_capacity ∙ r.capacity in
    let (nz, nr) = dead_ne env pid (m.word (slot_of ring cap' enq) slot_owner_start_time) dead in
    go env.rounds three cap_eq m₁ r₁ deq_pos nz nr repair
  where
    go :
        (n : ℕ)
        → 3 ≤ n
        → m.word ring ring_capacity ≡ cap'
        → (m₁ : Memory) → IsRing m₁ ring cap' deq (enq + 1) (none ∷ [])
        → m.word ring ring_dequeue_pos ≡ enq
        → pid ≢ 0
        → pid ≢ slot_recovering
        → exec (recover_slot env.rounds slab (slot_of ring cap' enq) cap' pid) m ≡ some (tt, m₁)
        → (m' : Memory) × (deq' : ℕ) × (exec
              (dequeue_loop env slab ring n (m.word ring ring_capacity) now owner)
              m
            ≡ some (none, m'))
          × IsRing m' ring cap' deq' (enq + 1) []
    go zero h c m₁ r₁ d nz nr repair = absurd (omega arith)
    go (suc k) h c m₁ r₁ d nz nr repair =
        let s =
          dequeue_loop-Served env slab ring cap' (enq + 1) owner now w k deq (none ∷ []) m₁
            (omega arith) r₁ in
        let step =
          loop-dead env slab ring owner now k cap' enq pid
            (m.word (slot_of ring cap' enq) slot_owner_start_time) m m₁ d x.unpublished x.owner refl
            nz nr dead (omega arith) repair in
        (
          s.after,
          s.deq',
          subst
              (λ n. exec (dequeue_loop env slab ring (suc k) n now owner) m ≡ some (none, s.after))
              (sym c) (step ∙ s.ran),
          s.ring',
        )
