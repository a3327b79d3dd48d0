-- ===== src/Ring/FifoDequeue.antt =====
-- `try_dequeue` on a ring at rest: the front of the queue.
use django_channels_shm.Prelude.{
  ℕ, zero, suc, ◌+◌, ◌%◌, ◌<◌, ◌≡◌, refl, sym, inl, inr, List, [], ◌∷◌, Bool, Option, none, some,
  length, arith, if◌then◌else◌, Bool-cases,
}
use mathlib.Core.Path.{subst}
use native.Mathlib.Nat.{mod-lt}
use django_channels_shm.Shm.{Memory, u64_mod, exec}
use django_channels_shm.Layout.Process.{Env}
use django_channels_shm.Slab.{SlabAllocator}
use django_channels_shm.Ring.{OwnerIdentity}
use django_channels_shm.Ring.Dequeue.{Delivery, dequeue_loop, try_dequeue}
use django_channels_shm.Ring.Contents.{Message, slot_of, InSlot, IsRing}
use django_channels_shm.Ring.Consumed.{
  Consumed-IsRing, skipped, dropped, delivered, skipped-Consumed, dropped-Consumed,
  delivered-Consumed,
}
use django_channels_shm.Ring.DequeueRun.{loop-empty, loop-skip, loop-expired, loop-live}

-- What a consumer finds: the first message that has not expired, and the cells behind it. The
-- cells before it are passed over.
unfoldable pub next_live :
    (ℕ → ℕ → Bool) → ℕ → List (Option Message) → Option Delivery × List (Option Message)
next_live later now [] = (none, [])
next_live later now (none ∷ cells) = next_live later now cells
next_live later now (some msg ∷ cells) =
    let rest = next_live later now cells in
    if later now msg.expiry then rest else (some (msg.name, msg.body), cells)

-- What a run of the consumer must show: it gives the answer `found.0`, and the ring then holds the
-- cells `found.1`.
pub record Served (ring cap enq : ℕ) (found : Option Delivery × List (Option Message))
    (run : Option (Option Delivery × Memory)) : Type 0 where
  pub after : Memory
  pub deq' : ℕ
  pub ran : run ≡ some (found.0, after)
  pub ring' : IsRing after ring cap deq' enq found.1

module _ (env : Env) (slab : SlabAllocator) (ring cap enq : ℕ) (owner : OwnerIdentity) (now : ℕ)
    (w : enq + cap < u64_mod) where
  pub dequeue_loop-Served :
      (rounds deq : ℕ) (cells : List (Option Message)) (m : Memory)
      → length cells < rounds
      → IsRing m ring cap deq enq cells
      → Served ring cap enq
          (next_live env.later now cells)
          (exec (dequeue_loop env slab ring rounds cap now owner) m)
  unfolding next_live
  dequeue_loop-Served zero deq cells m h r = absurd (omega arith)
  dequeue_loop-Served (suc k) deq [] m h r = record {
    after = m;
    deq' = deq;
    ran =
        loop-empty env slab ring owner now k cap deq m r.dequeue_pos
          (r.empty deq (omega (arith, r.span)) (omega (arith, r.at_least_two)))
          (r.ownerless (deq % cap) (mod-lt deq (omega (arith, r.at_least_two))))
          (omega (arith, r.span)) r.at_least_two;
    ring' = r;
  }
  dequeue_loop-Served (suc k) deq (none ∷ cells) m h r =
      let small : deq + cap < u64_mod = omega (arith, r.span) in
      let fewer : length cells < k = omega arith in
      let here : deq + 0 ≡ deq = omega arith in
      let s = subst (λ (q : ℕ). InSlot m ring cap q none) here (r.filled 0 none refl) in
      subst (λ run. Served ring cap enq (next_live env.later now cells) run)
        (sym (loop-skip env slab ring owner now k cap deq m r.dequeue_pos s small r.at_least_two))
        (dequeue_loop-Served k (deq + 1) cells (skipped ring deq m) fewer (
          Consumed-IsRing ring cap deq enq m (skipped ring deq m) none cells
            (skipped-Consumed ring cap deq m s
              (r.ownerless (deq % cap) (mod-lt deq (omega (arith, r.at_least_two)))))
            r))
  dequeue_loop-Served (suc k) deq (some msg ∷ cells) m h r =
      let small : deq + cap < u64_mod = omega (arith, r.span) in
      let fewer : length cells < k = omega arith in
      let here : deq + 0 ≡ deq = omega arith in
      let s = subst (λ (q : ℕ). InSlot m ring cap q (some msg)) here (r.filled 0 (some msg) refl) in
      elim (Bool-cases (env.later now msg.expiry)) [
        | inl old ↦ rw old (
            subst (λ run. Served ring cap enq (next_live env.later now cells) run)
              (sym (
                loop-expired env slab ring owner now k cap deq m msg r.dequeue_pos s.0 s.1 old small
                  r.at_least_two))
              (dequeue_loop-Served k (deq + 1) cells (dropped ring (slot_of ring cap deq) deq cap m)
                fewer
                (Consumed-IsRing ring cap deq enq m (dropped ring (slot_of ring cap deq) deq cap m)
                  (some msg) cells (dropped-Consumed ring cap deq m) r)))
        | inr live ↦ rw live (record {
          after = delivered ring (slot_of ring cap deq) deq cap owner m;
          deq' = deq + 1;
          ran =
              loop-live env slab ring owner now k cap deq m msg r.dequeue_pos s.0 s.1 live small
                r.at_least_two;
          ring' =
              Consumed-IsRing ring cap deq enq m
                (delivered ring (slot_of ring cap deq) deq cap owner m) (some msg) cells
                (delivered-Consumed ring cap deq owner m) r;
        })
      ]

-- On a ring at rest, with more rounds than cells and the counters away from 2 ^ 64, `try_dequeue`
-- returns: it gives the oldest message that has not expired, or None if there is none, and the
-- ring then holds just the cells behind it. Rounds that were given up and expired messages are
-- passed over for good.
pub try_dequeue_lem :
    (env : Env) (slab : SlabAllocator) (m : Memory) (ring cap deq enq : ℕ)
    (cells : List (Option Message)) (owner : OwnerIdentity) (now : ℕ)
    → length cells < env.rounds
    → IsRing m ring cap deq enq cells
    → enq + cap < u64_mod
    → (m' : Memory) × (deq' : ℕ) × (exec (try_dequeue env slab ring now owner) m
        ≡ some ((next_live env.later now cells).0, m'))
      × IsRing m' ring cap deq' enq (next_live env.later now cells).1
unfolding try_dequeue exec
try_dequeue_lem env slab m ring cap' deq enq cells owner now h r w =
    let s = dequeue_loop-Served env slab ring cap' enq owner now w env.rounds deq cells m h r in
    (
      s.after,
      s.deq',
      subst
          (λ n.
            exec (dequeue_loop env slab ring env.rounds n now owner) m
            ≡ some ((next_live env.later now cells).0, s.after))
          (sym r.capacity) s.ran,
      s.ring',
    )
