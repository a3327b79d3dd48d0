-- ===== src/Slab/Init.antt =====
-- `init` and `reset`: an empty pool, whatever was in it before.
use django_channels_shm.Prelude.{
  ℕ, zero, suc, ◌+◌, ◌*◌, ◌≤◌, ◌<◌, ◌≡◌, refl, [], some, arith, ==_refl, ne→==, eq→==, ℕ_discrete,
}
use django_channels_shm.Shm.{Memory, set_word, exec}
use django_channels_shm.Shm.Exec.{exec-bind}
use django_channels_shm.Slab.{
  SlabAllocator, free_head_offset, bump_ptr_offset, data_start, spinlock_offset, init, init_classes,
}
use django_channels_shm.Slab.Chain.{unused}
use django_channels_shm.Slab.Invariant.{IsPool, IsValid, frontier}

module _ (slab : SlabAllocator) (p : IsPool slab) where
  -- The loop clears the locks and heads from class `i` on, and no word becomes other than zero.
  record Cleared (n i : ℕ) (m m' : Memory) : Type 0 where
    ran : exec (init_classes slab n i) m ≡ some (tt, m')
    heads : (d : ℕ) → i ≤ d → d < i + n → m'.word (free_head_offset slab d) 0 ≡ 0
    locks : (d : ℕ) → i ≤ d → d < i + n → m'.word (spinlock_offset slab d) 0 ≡ 0
    kept : (a : ℕ) → m.word a 0 ≡ 0 → m'.word a 0 ≡ 0

  init_classes-Cleared : (n i : ℕ) (m : Memory) → (m' : Memory) × Cleared n i m m'
  unfolding init_classes exec
  init_classes-Cleared zero i m = (
    m,
    record {
      ran = refl;
      heads = λ d a b. absurd (omega arith);
      locks = λ d a b. absurd (omega arith);
      kept = λ a z. z;
    },
  )
  init_classes-Cleared (suc n) i m =
      let m₁ =
        set_word (slab.free_heads_offset + i * 8) 0 0
          (set_word (slab.spinlocks_offset + i * 8) 0 0 m) in
      let (m', c) = init_classes-Cleared n (i + 1) m₁ in
      (
        m',
        record {
          ran = c.ran;
          heads = λ d a b. elim (ℕ_discrete i d) [
            | yes e ↦
                c.kept (free_head_offset slab d)
                  (rw (eq→== (free_head_offset slab i) (free_head_offset slab d) (omega arith)))
            | no ne ↦ c.heads d (omega arith) (omega arith)
          ];
          locks = λ d a b. elim (ℕ_discrete i d) [
            | yes e ↦
                c.kept (spinlock_offset slab d)
                  (ground (arith, eq→== (spinlock_offset slab i) (spinlock_offset slab d)))
            | no ne ↦ c.locks d (omega arith) (omega arith)
          ];
          kept = λ a z. c.kept a (ground arith);
        },
      )

  -- After `init`, on a pool that holds its metadata and ends below 2 ^ 64, every head, lock and
  -- the bump pointer are clear: the pool is valid, no block is free, none is live, and the next
  -- one is cut off at the start of the data.
  pub init-IsValid :
      (m : Memory)
      → (m' : Memory) × (exec (init slab) m ≡ some (tt, m'))
        × IsValid slab m' (λ _. unused) (λ _. [])
        × (frontier slab m' ≡ data_start slab)
        × ((c : ℕ) → c < 12 → m'.word (spinlock_offset slab c) 0 ≡ 0)
  unfolding init exec
  init-IsValid m =
      let (m₁, c) = init_classes-Cleared slab.num_classes 0 m in
      let m' : Memory = set_word (bump_ptr_offset slab) 0 0 m₁ in
      let front : frontier slab m' ≡ data_start slab = rw (==_refl (bump_ptr_offset slab)) in
      (
        m',
        exec-bind (init_classes slab slab.num_classes 0) _ m c.ran,
        record {
          chains = λ d l.
              rw
                (ne→== (bump_ptr_offset slab) (free_head_offset slab d) (λ q. absurd (omega arith)))
                (c.heads d (omega arith) (omega arith));
          begin = rw front (omega arith);
          stop = rw front (omega (arith, p.room));
          inside = λ a n. absurd (n refl);
          apart = λ a b n na nb. absurd (na refl);
        },
        front,
        λ d l.
            rw (ne→== (bump_ptr_offset slab) (spinlock_offset slab d) (λ q. absurd (omega arith)))
              (c.locks d (omega arith) (omega arith)),
      )
