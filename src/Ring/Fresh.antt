-- ===== src/Ring/Fresh.antt =====
-- The loops over the slots of `init` and `reset` of ring.rs.
use django_channels_shm.Prelude.{
  ℕ, zero, suc, ◌+◌, ◌≤◌, ◌<◌, ◌≡◌, ◌≢◌, refl, ◌∙◌, some, arith, ==_refl, ne→==, ℕ_discrete,
}
use mathlib.Core.Path.{subst}
use django_channels_shm.Shm.{Memory, set_word, exec}
use django_channels_shm.Layout.{
  ring_enqueue_pos, ring_dequeue_pos, ring_capacity, ring_generation, slot_seq, slot_owner_pid,
  slot_owner_ticket, slot_owner_start_time, slot_compact_mark, slot_expiry_ts, slot_channel_len,
  slot_msg_len, slot_overflow_off,
}
use django_channels_shm.Ring.{slot_offset, init_slots, reset_slots}

-- The fields of slot `i` that the queue is read by: its round, its owner and its overflow page.
abbrev pub Clean : ℕ → ℕ → Memory → Type 0
Clean ring i m =
    (m.word (slot_offset ring i) slot_seq ≡ i)
    × (m.word (slot_offset ring i) slot_owner_pid ≡ 0)
    × (m.word (slot_offset ring i) slot_overflow_off ≡ 0)

-- The header is the same.
abbrev SameHeader : ℕ → Memory → Memory → Type 0
SameHeader ring m m' =
    (m'.word ring ring_capacity ≡ m.word ring ring_capacity)
    × (m'.word ring ring_enqueue_pos ≡ m.word ring ring_enqueue_pos)
    × (m'.word ring ring_dequeue_pos ≡ m.word ring ring_dequeue_pos)
    × (m'.word ring ring_generation ≡ m.word ring ring_generation)

-- The slots from `i` on, `n` of them, are clean in `m'`; slots that are clean stay so.
pub record Fresh (ring n i : ℕ) (m m' : Memory) : Type 0 where
  pub clean : (d : ℕ) → i ≤ d → d < i + n → Clean ring d m'
  pub kept : (d : ℕ) → d < i → Clean ring d m → Clean ring d m'
  pub header : SameHeader ring m m'

Fresh-step :
    (ring n i : ℕ) (m m₁ m' : Memory)
    → Clean ring i m₁
    → ((d : ℕ) → d < i → Clean ring d m → Clean ring d m₁)
    → SameHeader ring m m₁
    → Fresh ring n (i + 1) m₁ m'
    → Fresh ring (suc n) i m m'
Fresh-step ring n i m m₁ m' c k h f = record {
  clean = λ d a b. elim (ℕ_discrete i d) [
    | yes e ↦ f.kept d (omega arith) (subst (λ (d : ℕ). Clean ring d m₁) e c)
    | no ne ↦ f.clean d (omega arith) (omega arith)
  ];
  kept = λ d l o. f.kept d (omega arith) (k d l o);
  header = (f.header.0 ∙ h.0, f.header.1 ∙ h.1, f.header.2 ∙ h.2, f.header.3 ∙ h.3);
}

-- The stores of one round, down to the last one.
abbrev cleared : ℕ → ℕ → Memory → Memory
cleared so i m = set_word so slot_msg_len 0 (
    set_word so slot_channel_len 0 (
      set_word so slot_expiry_ts 0 (
        set_word so slot_compact_mark 0 (
          set_word so slot_owner_start_time 0 (
            set_word so slot_owner_ticket 0
              (set_word so slot_owner_pid 0 (set_word so slot_seq i m)))))))

module _ (ring : ℕ) where
  slot_ne : (i d : ℕ) → d < i → slot_offset ring i ≢ slot_offset ring d
  slot_ne i d l e = absurd (omega arith)

  ring_ne : (i : ℕ) → slot_offset ring i ≢ ring
  ring_ne i e = absurd (omega arith)

  -- A round that ends with the page forgotten, or with a page that was 0 already.
  with_page :
      (i : ℕ) (m : Memory)
      → Clean ring i
          (set_word (slot_offset ring i) slot_overflow_off 0 (cleared (slot_offset ring i) i m))
        × SameHeader ring m
            (set_word (slot_offset ring i) slot_overflow_off 0 (cleared (slot_offset ring i) i m))
  with_page i m = (
    (
      rw (==_refl (slot_offset ring i)),
      rw (==_refl (slot_offset ring i)),
      rw (==_refl (slot_offset ring i)),
    ),
    (
      rw (ne→== (slot_offset ring i) ring (ring_ne i)),
      rw (ne→== (slot_offset ring i) ring (ring_ne i)),
      rw (ne→== (slot_offset ring i) ring (ring_ne i)),
      rw (ne→== (slot_offset ring i) ring (ring_ne i)),
    ),
  )

  others :
      (i : ℕ) (m : Memory) (d : ℕ)
      → d < i
      → Clean ring d m
      → Clean ring d
          (set_word (slot_offset ring i) slot_overflow_off 0 (cleared (slot_offset ring i) i m))
        × Clean ring d (cleared (slot_offset ring i) i m)
  others i m d l c =
      let n = ne→== (slot_offset ring i) (slot_offset ring d) (slot_ne i d l) in
      ((rw n c.0, rw n c.1, rw n c.2), (rw n c.0, rw n c.1, c.2))

  pub init_slots-Fresh :
      (n i : ℕ) (m : Memory)
      → (m' : Memory) × (exec (init_slots ring n i) m ≡ some (tt, m')) × Fresh ring n i m m'
  unfolding init_slots exec
  init_slots-Fresh zero i m = (
    m,
    refl,
    record {
      clean = λ d a b. absurd (omega arith);
      kept = λ d l c. c;
      header = (refl, refl, refl, refl);
    },
  )
  init_slots-Fresh (suc n) i m =
      let so = slot_offset ring i in
      let m₁ = set_word so slot_overflow_off 0 (cleared so i m) in
      let (m', ran, f) = init_slots-Fresh n (i + 1) m₁ in
      (
        m',
        ran,
        Fresh-step ring n i m m₁ m' (with_page i m).0 (λ d l c. (others i m d l c).0)
            (with_page i m).1 f,
      )

  -- The page was 0, so the round has no store for it.
  without_page :
      (i : ℕ) (m : Memory)
      → m.word (slot_offset ring i) slot_overflow_off ≡ 0
      → Clean ring i (cleared (slot_offset ring i) i m)
        × SameHeader ring m (cleared (slot_offset ring i) i m)
  without_page i m z =
      let self = ==_refl (slot_offset ring i) in
      let other = ne→== (slot_offset ring i) ring (ring_ne i) in
      ((rw self, rw self, z), (rw other, rw other, rw other, rw other))

  pub reset_slots-Fresh :
      (n i : ℕ) (m : Memory)
      → (m' : Memory) × (exec (reset_slots ring n i) m ≡ some (tt, m')) × Fresh ring n i m m'
  unfolding reset_slots exec
  reset_slots-Fresh zero i m = (
    m,
    refl,
    record {
      clean = λ d a b. absurd (omega arith);
      kept = λ d l c. c;
      header = (refl, refl, refl, refl);
    },
  )
  reset_slots-Fresh (suc n) i m =
      elim (ℕ_discrete (m.word (slot_offset ring i) slot_overflow_off) 0) [
        | yes z ↦
            let (m', ran, f) = reset_slots-Fresh n (i + 1) (cleared (slot_offset ring i) i m) in
            (
              m',
              rw (z, exec) ran,
              Fresh-step ring n i m (cleared (slot_offset ring i) i m) m' (without_page i m z).0
                  (λ d l c. (others i m d l c).1) (without_page i m z).1 f,
            )
        | no nz ↦
            let (m', ran, f) = reset_slots-Fresh n (i + 1) (
              set_word (slot_offset ring i) slot_overflow_off 0
                (cleared (slot_offset ring i) i m)) in
            (
              m',
              rw (ne→== (m.word (slot_offset ring i) slot_overflow_off) 0 nz, exec) ran,
              Fresh-step ring n i m
                  (set_word (slot_offset ring i) slot_overflow_off 0
                    (cleared (slot_offset ring i) i m))
                  m' (with_page i m).0 (λ d l c. (others i m d l c).0) (with_page i m).1 f,
            )
      ]
