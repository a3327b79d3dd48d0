-- ===== src/Ring/Concurrent/Receivers.antt =====
-- `try_dequeue` plays the part of a receiver while all messages are inline.
use django_channels_shm.Prelude.{
  ℕ, zero, suc, ◌%◌, ◌<◌, ◌≡◌, refl, sym, inl, inr, false, none, some, ltb, ◌==◌, arith, ==_refl,
  ne→==, Bool-cases,
}
use mathlib.Core.Path.{subst}
use native.Mathlib.Nat.{mod-lt}
use django_channels_shm.Shm.Critical.{bind_assoc}
use django_channels_shm.Shm.{Memory, Prog, ret, ◌>>=◌, add64}
use django_channels_shm.Layout.{
  slot_expiry_ts, slot_recovering, slot_owner_pid, slot_owner_ticket, slot_owner_start_time,
}
use django_channels_shm.Layout.Process.{Env, pid_dead}
use django_channels_shm.Slab.{SlabAllocator}
use django_channels_shm.Ring.{OwnerIdentity}
use django_channels_shm.Ring.Dequeue.{
  try_dequeue, dequeue_loop, deliver, drop_expired, take_payload,
}
use django_channels_shm.Ring.Repair.{release_overflow}
use django_channels_shm.Ring.Contents.{Message, slot_of}
use django_channels_shm.Ring.Concurrent.{Outcome, received, program, receive}
use django_channels_shm.Ring.Concurrent.Roles.{
  OwnerField, Owning, slots, generation, no_page, Leaving, Written, Mode, looking, emptying,
  Receiving,
}

-- The result of a receiver that found no message, and of one that got `msg`.
abbrev pub IsNone : Outcome → Type 0
IsNone r = r ≡ received none

abbrev pub IsDelivery : Message → Outcome → Type 0
IsDelivery msg r = r ≡ received (some (msg.name, msg.body))

module _ (env : Env) (slab : SlabAllocator) (ring cap inline_size gen : ℕ) (some_slots : 0 < cap)
    (alive : (pid start_time : ℕ) → pid_dead env pid start_time ≡ some false) (now : ℕ)
    (owner : OwnerIdentity) where
  abbrev Plays : Mode → Prog Outcome → Type 0
  Plays = Receiving ring cap inline_size gen IsNone IsDelivery

  own : (q f : ℕ) → OwnerField f → Owning ring cap inline_size gen (slot_of ring cap q) f
  own q f h = (q % cap, mod-lt q some_slots, refl, h)

  -- An expired message is dropped, and the receiver goes on.
  drop_expired-Receiving :
      (q : ℕ) (msg : Message) (m : Memory) (rest : Prog Outcome)
      → Plays (looking 0 0) rest
      → Plays (emptying q msg m) (drop_expired env slab (slot_of ring cap q) q cap >>= λ _. rest)
  unfolding drop_expired release_overflow Receiving
  drop_expired-Receiving q msg m rest h = inr (
    refl,
    refl,
    refl,
    inr (
      own q slot_owner_pid (inl refl),
      (
        own q slot_owner_ticket (inr (inl refl)),
        inl (0, no_page (q % cap) (mod-lt q some_slots), h),
      ),
    ),
  )

  -- A message is read before its slot is given back.
  deliver-Receiving :
      (q : ℕ) (msg : Message) (m : Memory)
      → Written m (slot_of ring cap q) msg
      → Plays
          (emptying q msg m)
          (deliver env slab (slot_of ring cap q) q cap owner >>= λ r. ret (received r))
  unfolding deliver take_payload Receiving Leaving
  deliver-Receiving q msg m w = inl (
    own q slot_owner_pid (inl refl),
    inl (
      own q slot_owner_ticket (inr (inl refl)),
      inl (
        own q slot_owner_start_time (inr (inr refl)),
        inr (
            inl (
              refl,
              inr (inl refl),
              (
                refl,
                inl refl,
                inr (
                    inl (
                      refl,
                      inr (inr refl),
                      inl (
                        0,
                        no_page (q % cap) (mod-lt q some_slots),
                        (
                          refl,
                          inr refl,
                          inr (
                            refl,
                            refl,
                            refl,
                            inl (
                              own q slot_owner_pid (inl refl),
                              (
                                own q slot_owner_ticket (inr (inl refl)),
                                rw (w.name_len, w.name, w.body_len, w.body),
                              ),
                            ),
                          ),
                        ),
                      ),
                    )),
              ),
            )),
      ),
    ),
  )

  -- The loop for a ticket.
  loop-Receiving :
      (rounds x v : ℕ)
      → Plays
          (looking x v)
          (dequeue_loop env slab ring rounds cap now owner >>= λ r. ret (received r))
  unfolding dequeue_loop Receiving
  loop-Receiving zero x v = tt
  loop-Receiving (suc rounds) x v = inr (
      inr (λ (p : ℕ). inl (
        gen,
        generation,
        inr (
            inl (
              p % cap,
              mod-lt p some_slots,
              refl,
              refl,
              λ (w : ℕ). elim (Bool-cases (ltb w (add64 p 1))) [
                | inl b ↦ rw b (
                    inr (
                      inr (λ (pid : ℕ). elim (Bool-cases (pid == 0)) [
                        | inl z ↦ rw z refl
                        | inr z ↦ rw z (
                            inr (
                              inr (λ (start_time : ℕ). elim (Bool-cases (pid == slot_recovering)) [
                                | inl o ↦ rw o refl
                                | inr o ↦ rw (o, alive pid start_time) refl
                              ])))
                      ])))
                | inr b ↦ elim (Bool-cases (ltb (add64 p 1) w)) [
                  | inl a ↦
                      rw (b, a)
                        (
                          refl,
                          refl,
                          refl,
                          refl,
                          (λ w' n. loop-Receiving rounds (p % cap) w),
                          inr (ground arith),
                        )
                  | inr a ↦
                      rw (b, a)
                        (
                          refl,
                          refl,
                          refl,
                          refl,
                          (λ w' n. rw (ne→== w' p n) (loop-Receiving rounds (p % cap) w)),
                          inl (
                            ground arith,
                            λ m msg written. rw (==_refl p) (
                                inl (
                                  gen,
                                  generation,
                                  rw (==_refl gen) (
                                      inr (
                                        inl (
                                          refl,
                                          inl refl,
                                          elim (Bool-cases (
                                              env.later now
                                                (m.word (slot_of ring cap p) slot_expiry_ts))) [
                                                  | inl late ↦ rw late (
                                                      subst (Plays (emptying p msg m))
                                                        (sym (
                                                          bind_assoc
                                                            (drop_expired env slab
                                                            (slot_of ring cap p) p cap)
                                                            _ _))
                                                        (drop_expired-Receiving p msg m _
                                                          (loop-Receiving rounds 0 0)))
                                                  | inr live ↦
                                                      rw live (deliver-Receiving p msg m written)
                                                ],
                                        ))),
                                )),
                          ),
                        )
                ]
              ],
            )),
      )))

  pub try_dequeue-Receiving : Plays (looking 0 0) (program env slab ring (receive now owner))
  unfolding program try_dequeue Receiving
  try_dequeue-Receiving = inl (cap, slots, loop-Receiving env.rounds 0 0)
