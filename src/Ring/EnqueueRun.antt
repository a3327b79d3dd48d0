-- ===== src/Ring/EnqueueRun.antt =====
-- The runs of `try_enqueue` on a ring at rest, of messages that fit inline.
use django_channels_shm.Prelude.{
  ℕ, zero, suc, ◌+◌, ◌%◌, ◌≤◌, ◌<◌, ◌≡◌, ◌≢◌, sym, ◌∙◌, none, some, length, arith, ==_refl, ne→==,
  lt→ltb, ge→ltb, min, take-length,
}
use mathlib.Core.Path.{subst}
use native.Mathlib.Nat.{mod-eq_of_lt}
use django_channels_shm.Shm.{Memory, set_word, set_bytes, add64, u64_mod, exec, ◌>>=◌}
use django_channels_shm.Shm.Exec.{exec-bind}
use django_channels_shm.Layout.{
  hdr_inline_size, ring_enqueue_pos, ring_capacity, ring_generation, slot_seq, slot_owner_pid,
  slot_owner_ticket, slot_owner_start_time, slot_expiry_ts, slot_channel_len, slot_channel_name,
  slot_msg_len, slot_inline, slot_overflow_off,
}
use django_channels_shm.Layout.Process.{Env}
use django_channels_shm.Slab.{SlabAllocator}
use django_channels_shm.Ring.{OwnerIdentity, ok, full}
use django_channels_shm.Ring.Enqueue.{
  claim, overflow_page, write_payload, publish, admit, try_enqueue,
}
use django_channels_shm.Ring.Contents.{Message, slot_of, slot_ne_ring}

-- The region after `msg` was published with ticket `pos` in the slot at `so`, in the order of the
-- stores.
abbrev pub enqueued : ℕ → ℕ → ℕ → OwnerIdentity → Message → Memory → Memory
enqueued ring so pos owner msg m = set_word so slot_owner_ticket 0 (
    set_word so slot_owner_pid 0 (
      set_word so slot_seq (pos + 1) (
        set_word so slot_overflow_off 0 (
          set_bytes so slot_inline msg.body (
            set_word so slot_msg_len (length msg.body) (
              set_bytes so slot_channel_name msg.name (
                set_word so slot_channel_len (length msg.name) (
                  set_word so slot_expiry_ts msg.expiry (
                    set_word so slot_owner_start_time owner.start_time (
                      set_word so slot_owner_ticket pos (
                        set_word so slot_owner_pid owner.pid
                          (set_word ring ring_enqueue_pos (pos + 1) m))))))))))))

module _ (env : Env) (slab : SlabAllocator) (ring : ℕ) where
  -- The slot of the next ticket is empty: the ticket is taken.
  claim-empty :
      (rounds : ℕ) (m : Memory) (spins cap pos : ℕ)
      → 0 < rounds
      → m.word ring ring_enqueue_pos ≡ pos
      → m.word (slot_of ring cap pos) slot_seq ≡ pos
      → pos + 1 < u64_mod
      → exec (claim env slab ring rounds spins cap) m
        ≡ some (some (pos, slot_of ring cap pos), set_word ring ring_enqueue_pos (pos + 1) m)
  unfolding claim exec
  claim-empty zero m spins cap pos h e s w = absurd (omega arith)
  claim-empty (suc k) m spins cap pos h e s w =
      let w' : add64 pos 1 ≡ pos + 1 = mod-eq_of_lt w in
      rw (e, s, ==_refl pos, exec, e, ==_refl pos, w', exec)

  -- The slot of the next ticket holds the round before, and nobody owns it: Full, at no cost.
  claim-full :
      (rounds : ℕ) (m : Memory) (spins cap pos : ℕ)
      → 0 < rounds
      → m.word ring ring_enqueue_pos ≡ pos
      → m.word (slot_of ring cap pos) slot_seq < pos
      → m.word (slot_of ring cap pos) slot_owner_pid ≡ 0
      → exec (claim env slab ring rounds spins cap) m ≡ some (none, m)
  unfolding claim exec
  claim-full zero m spins cap pos h e s o = absurd (omega arith)
  claim-full (suc k) m spins cap pos h e s o = rw (
    e,
    ne→== (m.word (slot_of ring cap pos) slot_seq) pos (λ q. absurd (omega arith)),
    lt→ltb (m.word (slot_of ring cap pos) slot_seq) pos s,
    exec,
    o,
    exec,
  )

  -- From the claimed ticket on, with no flush in between.
  admit-run :
      (m : Memory) (cap pos so : ℕ) (msg : Message) (owner : OwnerIdentity)
      → pos + 1 < u64_mod
      → so ≢ ring
      → length msg.name ≤ 128
      → length msg.body ≤ 512
      → length msg.body ≤ m.word 0 hdr_inline_size
      → exec
          (admit env slab ring cap
            (m.word 0 hdr_inline_size)
            (m.word ring ring_generation)
            msg.name
            msg.body
            msg.expiry
            owner
            (some (pos, so)))
          (set_word ring ring_enqueue_pos (pos + 1) m)
        ≡ some (ok, enqueued ring so pos owner msg m)
  unfolding admit overflow_page write_payload publish exec
  admit-run m cap pos so msg owner w n nl bl i =
      let w' : add64 pos 1 ≡ pos + 1 = mod-eq_of_lt w in
      let short : min (length msg.name) 128 ≡ length msg.name = omega arith in
      let narrow : length msg.name % 65536 ≡ length msg.name = omega arith in
      let narrow' : length msg.body % 4294967296 ≡ length msg.body = omega arith in
      rw (
        ge→ltb (m.word 0 hdr_inline_size) (length msg.body) i,
        ge→ltb 512 (length msg.body) bl,
        exec,
        short,
        narrow,
        narrow',
        take-length msg.name,
        ne→== so ring n,
        ==_refl (m.word ring ring_generation),
        w',
        exec,
        ne→== so ring n,
        ==_refl (m.word ring ring_generation),
        exec,
      )

  -- The run of an enqueue that finds its slot empty and needs no overflow page.
  pub enqueue-run :
      (m : Memory) (msg : Message) (owner : OwnerIdentity) {cap pos : ℕ}
      → 0 < env.rounds
      → m.word ring ring_capacity ≡ cap
      → m.word ring ring_enqueue_pos ≡ pos
      → m.word (slot_of ring cap pos) slot_seq ≡ pos
      → pos + 1 < u64_mod
      → length msg.name ≤ 128
      → length msg.body ≤ 512
      → length msg.body ≤ m.word 0 hdr_inline_size
      → exec (try_enqueue env slab ring msg.name msg.body msg.expiry owner) m
        ≡ some (ok, enqueued ring (slot_of ring cap pos) pos owner msg m)
  unfolding try_enqueue exec
  enqueue-run m msg owner {cap = cap'} {pos} r c e s w nl bl i =
      let claimed = claim-empty env.rounds m 0 cap' pos r e s w in
      subst
        (λ n.
          exec
            (claim env slab ring env.rounds 0 n
              >>= admit env slab ring n (m.word 0 hdr_inline_size) (m.word ring ring_generation)
                  msg.name msg.body msg.expiry owner)
            m
          ≡ some (ok, enqueued ring (slot_of ring cap' pos) pos owner msg m))
        (sym c)
        (exec-bind (claim env slab ring env.rounds 0 cap') _ m claimed
          ∙ admit-run m cap' pos (slot_of ring cap' pos) msg owner w (slot_ne_ring ring cap' pos) nl
              bl i)

  pub full-run :
      (m : Memory) (msg : Message) (owner : OwnerIdentity) {cap pos : ℕ}
      → 0 < env.rounds
      → m.word ring ring_capacity ≡ cap
      → m.word ring ring_enqueue_pos ≡ pos
      → m.word (slot_of ring cap pos) slot_seq < pos
      → m.word (slot_of ring cap pos) slot_owner_pid ≡ 0
      → exec (try_enqueue env slab ring msg.name msg.body msg.expiry owner) m ≡ some (full, m)
  unfolding try_enqueue admit exec
  full-run m msg owner {cap = cap'} {pos} r c e s o =
      let claimed = claim-full env.rounds m 0 cap' pos r e s o in
      subst
        (λ n.
          exec
            (claim env slab ring env.rounds 0 n
              >>= admit env slab ring n (m.word 0 hdr_inline_size) (m.word ring ring_generation)
                  msg.name msg.body msg.expiry owner)
            m
          ≡ some (full, m))
        (sym c) (exec-bind (claim env slab ring env.rounds 0 cap') _ m claimed)
