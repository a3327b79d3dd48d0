-- ===== src/Ring/DequeueRun.antt =====
-- The rounds of the loop of `try_dequeue` on a ring at rest.
use django_channels_shm.Prelude.{
  ℕ, suc, ◌+◌, ◌≤◌, ◌<◌, ◌≡◌, true, false, none, some, arith, ==_refl, lt→ltb, ge→ltb,
}
use native.Mathlib.Nat.{mod-eq_of_lt}
use django_channels_shm.Shm.{Memory, add64, u64_mod, exec}
use django_channels_shm.Layout.{ring_dequeue_pos, ring_generation, slot_seq, slot_owner_pid}
use django_channels_shm.Layout.Process.{Env}
use django_channels_shm.Slab.{SlabAllocator}
use django_channels_shm.Ring.{OwnerIdentity}
use django_channels_shm.Ring.Dequeue.{dequeue_loop}
use django_channels_shm.Ring.Contents.{Message, Holds, slot_of}
use django_channels_shm.Ring.Consumed.{skipped, dropped, delivered}

module _ (env : Env) (slab : SlabAllocator) (ring : ℕ) (owner : OwnerIdentity) (now : ℕ) where
  -- The slot of the next ticket is empty: there is no message.
  pub loop-empty :
      (k cap pos : ℕ) (m : Memory)
      → m.word ring ring_dequeue_pos ≡ pos
      → m.word (slot_of ring cap pos) slot_seq ≡ pos
      → m.word (slot_of ring cap pos) slot_owner_pid ≡ 0
      → pos + cap < u64_mod
      → 2 ≤ cap
      → exec (dequeue_loop env slab ring (suc k) cap now owner) m ≡ some (none, m)
  unfolding dequeue_loop exec
  loop-empty k cap pos m e s o w two =
      let w' : add64 pos 1 ≡ pos + 1 = mod-eq_of_lt (omega arith) in
      rw (e, s, w', lt→ltb pos (pos + 1) (omega arith), exec, o, exec)

  -- The round was given up: the consumer passes over it.
  pub loop-skip :
      (k cap pos : ℕ) (m : Memory)
      → m.word ring ring_dequeue_pos ≡ pos
      → m.word (slot_of ring cap pos) slot_seq ≡ pos + cap
      → pos + cap < u64_mod
      → 2 ≤ cap
      → exec (dequeue_loop env slab ring (suc k) cap now owner) m
        ≡ exec (dequeue_loop env slab ring k cap now owner) (skipped ring pos m)
  unfolding dequeue_loop exec
  loop-skip k cap pos m e s w two =
      let w' : add64 pos 1 ≡ pos + 1 = mod-eq_of_lt (omega arith) in
      rw (
        e,
        s,
        w',
        ge→ltb (pos + cap) (pos + 1) (omega arith),
        lt→ltb (pos + 1) (pos + cap) (omega arith),
        exec,
        e,
        ==_refl pos,
      )

  -- The message has expired: its slot is recycled.
  pub loop-expired :
      (k cap pos : ℕ) (m : Memory) (msg : Message)
      → m.word ring ring_dequeue_pos ≡ pos
      → m.word (slot_of ring cap pos) slot_seq ≡ pos + 1
      → Holds m (slot_of ring cap pos) msg
      → env.later now msg.expiry ≡ true
      → pos + cap < u64_mod
      → 2 ≤ cap
      → exec (dequeue_loop env slab ring (suc k) cap now owner) m
        ≡ exec
            (dequeue_loop env slab ring k cap now owner)
            (dropped ring (slot_of ring cap pos) pos cap m)
  unfolding dequeue_loop exec
  loop-expired k cap' pos m msg e s h x w two =
      let w' : add64 pos 1 ≡ pos + 1 = mod-eq_of_lt (omega arith) in
      let w'' : add64 pos cap' ≡ pos + cap' = mod-eq_of_lt w in
      rw (
        e,
        s,
        w',
        ge→ltb (pos + 1) (pos + 1) (omega arith),
        exec,
        e,
        ==_refl pos,
        exec,
        ==_refl (m.word ring ring_generation),
        exec,
        h.expiry,
        x,
        w'',
        exec,
        h.no_page,
        exec,
      )

  -- The message is handed over and its slot recycled.
  pub loop-live :
      (k cap pos : ℕ) (m : Memory) (msg : Message)
      → m.word ring ring_dequeue_pos ≡ pos
      → m.word (slot_of ring cap pos) slot_seq ≡ pos + 1
      → Holds m (slot_of ring cap pos) msg
      → env.later now msg.expiry ≡ false
      → pos + cap < u64_mod
      → 2 ≤ cap
      → exec (dequeue_loop env slab ring (suc k) cap now owner) m
        ≡ some (some (msg.name, msg.body), delivered ring (slot_of ring cap pos) pos cap owner m)
  unfolding dequeue_loop exec
  loop-live k cap' pos m msg e s h x w two =
      let w' : add64 pos 1 ≡ pos + 1 = mod-eq_of_lt (omega arith) in
      let w'' : add64 pos cap' ≡ pos + cap' = mod-eq_of_lt w in
      rw (
        e,
        s,
        w',
        ge→ltb (pos + 1) (pos + 1) (omega arith),
        exec,
        e,
        ==_refl pos,
        exec,
        ==_refl (m.word ring ring_generation),
        exec,
        h.expiry,
        x,
        w'',
        exec,
        h.name_len,
        h.name,
        h.no_page,
        exec,
        h.body_len,
        h.body,
      )
