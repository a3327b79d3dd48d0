-- ===== src/Ring/Concurrent/Senders.antt =====
-- `try_enqueue` of an inline message plays the part of a sender.
use django_channels_shm.Prelude.{
  ℕ, zero, suc, ◌%◌, ◌≤◌, ◌<◌, ◌+◌, ◌≡◌, refl, inl, inr, false, some, length, min, ltb, leb, ◌==◌,
  ◌||◌, padded-overlay, take-length, ge→ltb, arith, ==_refl, ne→==, Bool-cases,
}
use native.Mathlib.Nat.{mod-lt}
use django_channels_shm.Shm.{Memory, ret, ◌>>=◌, set_word, set_bytes}
use django_channels_shm.Layout.{
  slot_expiry_ts, slot_channel_len, slot_channel_name, slot_msg_len, slot_inline, slot_recovering,
  slot_owner_pid, slot_owner_ticket, slot_owner_start_time,
}
use django_channels_shm.Layout.Process.{Env, pid_dead}
use django_channels_shm.Slab.{SlabAllocator}
use django_channels_shm.Ring.{OwnerIdentity, ok, full, seq_ahead_spin_bound}
use django_channels_shm.Ring.Enqueue.{
  try_enqueue, claim, record_owner, overflow_page, write_payload, publish, admit,
}
use django_channels_shm.Ring.Contents.{Message, slot_of}
use django_channels_shm.Ring.Concurrent.{Outcome, sent, program, send}
use django_channels_shm.Ring.Concurrent.Roles.{
  OwnerField, Owning, configured, slots, generation, Leaving, Written, Filling, Seeking,
}

-- The result of a sender that found no ticket, and of one that has published.
abbrev pub IsRefused : Outcome → Type 0
IsRefused r = r ≡ sent full

abbrev pub IsSent : Outcome → Type 0
IsSent r = r ≡ sent ok

module _ (env : Env) (slab : SlabAllocator) (ring cap inline_size gen : ℕ) (some_slots : 0 < cap)
    (alive : (pid start_time : ℕ) → pid_dead env pid start_time ≡ some false) (msg : Message)
    (named : length msg.name ≤ 128) (short : length msg.body ≤ 512)
    (inline : length msg.body ≤ inline_size) (owner : OwnerIdentity) where
  own : (q f : ℕ) → OwnerField f → Owning ring cap inline_size gen (slot_of ring cap q) f
  own q f h = (q % cap, mod-lt q some_slots, refl, h)

  publish-Filling :
      (q : ℕ) (m : Memory)
      → Written m (slot_of ring cap q) msg
      → Filling ring cap inline_size gen IsSent msg q
          (publish env slab ring (slot_of ring cap q) q cap gen owner >>= λ r. ret (sent r))
          m
  unfolding publish Filling Leaving
  publish-Filling q m w = inl (
    gen,
    generation,
    rw (==_refl gen) (
        inr (
          inr (
            inr (
              refl,
              refl,
              refl,
              w,
              (
                own q slot_owner_pid (inl refl),
                (
                  own q slot_owner_ticket (inr (inl refl)),
                  inl (gen, generation, rw (==_refl gen) refl),
                ),
              ),
            )))),
  )

  -- The fields of the slot after the payload was written.
  written : ℕ → Memory → Memory
  written so m = set_bytes so slot_inline msg.body (
      set_word so slot_msg_len (length msg.body) (
        set_bytes so slot_channel_name msg.name (
          set_word so slot_channel_len (length msg.name)
            (set_word so slot_expiry_ts msg.expiry m))))

  written-Written : (so : ℕ) (m : Memory) → Written (written so m) so msg
  unfolding written
  written-Written so m = record {
    name_len = rw (==_refl so);
    name = rw (==_refl so) (padded-overlay msg.name _);
    body_len = rw (==_refl so);
    body = rw (==_refl so) (padded-overlay msg.body _);
    expiry = rw (==_refl so);
  }

  -- From the claimed ticket on.
  admit-Filling :
      (q : ℕ) (m : Memory)
      → Filling ring cap inline_size gen IsSent msg q
          ((admit env slab ring cap inline_size gen msg.name msg.body msg.expiry owner
              (some (q, slot_of ring cap q)))
            >>= λ r. ret (sent r))
          m
  unfolding admit record_owner overflow_page write_payload written Filling
  admit-Filling q m =
      let short_name : min (length msg.name) 128 ≡ length msg.name = omega arith in
      let narrow : length msg.name % 65536 ≡ length msg.name = omega arith in
      let narrow' : length msg.body % 4294967296 ≡ length msg.body = omega arith in
      inl (
        own q slot_owner_pid (inl refl),
        inl (
          own q slot_owner_ticket (inr (inl refl)),
          inl (
            own q slot_owner_start_time (inr (inr refl)),
            rw
                (
                  ge→ltb inline_size (length msg.body) inline,
                  ge→ltb 512 (length msg.body) short,
                  short_name,
                  narrow,
                  narrow',
                  take-length msg.name,
                )
                (inr (
                  inl (
                    refl,
                    inl refl,
                    inr (
                        inl (
                          refl,
                          inr (inl refl),
                          (
                            refl,
                            inl refl,
                            inr (
                                inl (
                                  refl,
                                  inr (inr refl),
                                  (
                                    refl,
                                    inr refl,
                                    inr (
                                        inr (
                                          inl (
                                            refl,
                                            refl,
                                            refl,
                                            publish-Filling q _
                                                (written-Written (slot_of ring cap q) m),
                                          ))),
                                  ),
                                )),
                          ),
                        )),
                  ))),
          ),
        ),
      )

  -- The loop for a ticket.
  claim-Seeking :
      (rounds spins x v : ℕ)
      → Seeking ring cap inline_size gen IsRefused IsSent msg x v (
          (claim env slab ring rounds spins cap
            >>= admit env slab ring cap inline_size gen msg.name msg.body msg.expiry owner)
          >>= λ r. ret (sent r))
  unfolding claim admit Seeking
  claim-Seeking zero spins x v = tt
  claim-Seeking (suc rounds) spins x v = inr (
      inr (λ (p : ℕ). inr (
        inl (
          p % cap,
          mod-lt p some_slots,
          refl,
          refl,
          λ (w : ℕ). elim (Bool-cases (w == p)) [
            | inl e ↦ rw e (
              refl,
              refl,
              refl,
              refl,
              ground arith,
              (λ w' n. rw (ne→== w' p n) (claim-Seeking rounds spins (p % cap) w)),
              (λ m. rw (==_refl p) (admit-Filling p m)),
            )
            | inr e ↦ elim (Bool-cases (ltb w p)) [
              | inl l ↦
                  rw (e, l)
                    (inr (
                      inr (λ (pid : ℕ). elim (Bool-cases (pid == 0 || pid == slot_recovering)) [
                        | inl o ↦ rw o refl
                        | inr o ↦
                            rw o (inr (inr (λ (start_time : ℕ). rw (alive pid start_time) refl)))
                      ])))
              | inr l ↦ elim (Bool-cases (leb seq_ahead_spin_bound (spins + 1))) [
                | inl b ↦ rw (e, l, b) refl
                | inr b ↦ rw (e, l, b) (claim-Seeking rounds (spins + 1) (p % cap) w)
              ]
            ]
          ],
        ))))

  pub try_enqueue-Seeking :
      Seeking ring cap inline_size gen IsRefused IsSent msg 0 0
        (program env slab ring (send msg owner))
  unfolding program try_enqueue Seeking
  try_enqueue-Seeking = inl (
    cap,
    slots,
    inl (inline_size, configured, inl (gen, generation, claim-Seeking env.rounds 0 0 0)),
  )
