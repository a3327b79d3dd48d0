-- ===== src/Slab/Race.antt =====
-- Two processes at `alloc` with requests of different classes: each holds a lock, not the same one,
-- while both read and write the one bump pointer.
use django_channels_shm.Prelude.{
  ℕ, zero, suc, ◌+◌, ◌≤◌, ◌<◌, ◌≡◌, ◌≢◌, refl, ap, ap₂, ◌∙◌, some, List, [], arith, ge→ltb,
}
use native.Mathlib.Nat.{mod-eq_of_lt}
use django_channels_shm.Shm.{Memory, Prog, ret, ◌>>=◌, ◌>>◌, store, set_word, add64}
use django_channels_shm.Shm.Interleave.{
  System, Reach, access, walk, run, alone, run-alone, run-Reach, run-Reach_from,
}
use django_channels_shm.Layout.SizeClass.{
  size_class_idx, class_size, class_size_bounds, size_class_idx_lem,
}
use django_channels_shm.Slab.{
  SlabAllocator, spinlock_offset, free_head_offset, bump_ptr_offset, spinlock_acquire,
  spinlock_release, alloc, alloc_from_class, bump_alloc,
}
use django_channels_shm.Shm.Exec.{set_word-apart}
use mathlib.Core.Path.{subst}
use django_channels_shm.Slab.Chain.{Status, Chain}
use django_channels_shm.Slab.Blocks.{Unlocked}
use django_channels_shm.Slab.Requests.{take, program}
use django_channels_shm.Slab.Concurrent.{requested}
use django_channels_shm.Slab.Invariant.{IsPool, frontier, IsValid}

module _ (slab : SlabAllocator) (p : IsPool slab) where
  -- What is left to do once the bump pointer has been read: to move it and to release the lock.
  pending : ℕ → ℕ → ℕ → Prog ℕ
  pending c block end =
      store (bump_ptr_offset slab) 0 end (store (spinlock_offset slab c) 0 0 (ret block))

  rest : ℕ → ℕ → Prog ℕ
  rest c r = do spinlock_release slab c; ret r

  take_lock :
      (m : Memory) (size c : ℕ)
      → size_class_idx size ≡ some c
      → m.word (spinlock_offset slab c) 0 ≡ 0
      → access (alloc slab 1 size) m ≡ (
        alloc_from_class slab c (class_size c) >>= rest c,
        set_word (spinlock_offset slab c) 0 1 m,
      )
  unfolding alloc spinlock_acquire access rest
  take_lock m size c idx unlocked = rw (alloc, idx, unlocked)

  find_empty :
      (m : Memory) (c size : ℕ)
      → m.word (free_head_offset slab c) 0 ≡ 0
      → access (alloc_from_class slab c size >>= rest c) m ≡ (bump_alloc slab size >>= rest c, m)
  unfolding alloc_from_class access
  find_empty m c size e = rw e

  read_bump :
      (m : Memory) (c block : ℕ)
      → c < 12
      → frontier slab m ≡ block
      → block + class_size c ≤ slab.pool_offset + slab.pool_size
      → access (bump_alloc slab (class_size c) >>= rest c) m
        ≡ (pending c block (block + class_size c), m)
  unfolding bump_alloc access rest spinlock_release pending
  read_bump m c block h front fits =
      let e : add64 block (class_size c) ≡ block + class_size c =
        mod-eq_of_lt (omega (arith, p.small, class_size_bounds c h)) in
      rw (front, e, ge→ltb (slab.pool_offset + slab.pool_size) (block + class_size c) fits)

  -- Holding the lock of a class does not hide the list heads and the bump pointer.
  lock_head :
      (m : Memory) (c d v : ℕ)
      → c < 12
      → (set_word (spinlock_offset slab c) 0 v m).word (free_head_offset slab d) 0
        ≡ m.word (free_head_offset slab d) 0
  lock_head m c d v h = set_word-apart _ 0 v m _ 0 (λ q. omega (arith, p.locks, p.heads, h))

  lock_frontier :
      (m : Memory) (c v : ℕ)
      → c < 12
      → frontier slab (set_word (spinlock_offset slab c) 0 v m) ≡ frontier slab m
  lock_frontier m c v h = rw (
      set_word-apart (spinlock_offset slab c) 0 v m (bump_ptr_offset slab) 0
        (λ q. omega (arith, p.locks, p.heads, p.classes, h)))

  -- A request after three accesses: the lock, the head of the free list, the bump pointer.
  half_way :
      (m : Memory) (size c block : ℕ)
      → c < 12
      → size_class_idx size ≡ some c
      → m.word (spinlock_offset slab c) 0 ≡ 0
      → m.word (free_head_offset slab c) 0 ≡ 0
      → frontier slab m ≡ block
      → block + class_size c ≤ slab.pool_offset + slab.pool_size
      → walk 3 (alloc slab 1 size, m)
        ≡ (pending c block (block + class_size c), set_word (spinlock_offset slab c) 0 1 m)
  unfolding walk
  half_way m size c block h idx unlocked empty front fits =
      let m' = set_word (spinlock_offset slab c) 0 1 m in
      ap (walk 2) (take_lock m size c idx unlocked)
      ∙ ap (walk 1) (find_empty m' c (class_size c) (lock_head m c c 1 h ∙ empty))
      ∙ read_bump m' c block h (lock_frontier m c 1 h ∙ front) fits

  done :
      (m : Memory) (c block end : ℕ)
      → walk 2 (pending c block end, m) ≡ (
        ret block,
        set_word (spinlock_offset slab c) 0 0 (set_word (bump_ptr_offset slab) 0 end m),
      )
  unfolding walk access pending
  done m c block end = refl

  -- The locks do not protect the bump pointer: in a valid pool, for two size classes that have no free
  -- block and whose locks are free, with room for a block of either, two processes that request a
  -- block of one class each can be interleaved so that both get the same block.
  pub alloc_race :
      (m : Memory) (st : ℕ → Status) (blocks : ℕ → List ℕ) (sizes : ℕ → ℕ) (c d : ℕ)
      → IsValid slab m st blocks
      → size_class_idx (sizes 0) ≡ some c
      → size_class_idx (sizes 1) ≡ some d
      → c ≢ d
      → Unlocked slab p c m
      → Unlocked slab p d m
      → blocks c ≡ []
      → blocks d ≡ []
      → frontier slab m + class_size c ≤ slab.pool_offset + slab.pool_size
      → frontier slab m + class_size d ≤ slab.pool_offset + slab.pool_size
      → (t : System ℕ) × Reach (requested slab 1 (λ i. take (sizes i)) m) t
        × (t.procs 0 ≡ ret (frontier slab m))
        × (t.procs 1 ≡ ret (frontier slab m))
  unfolding program
  alloc_race m st blocks sizes c d v idx idx' n free free' none none' fits fits' =
      let h = (size_class_idx_lem (sizes 0) c idx).0 in
      let h' = (size_class_idx_lem (sizes 1) d idx').0 in
      let s : System ℕ = requested slab 1 (λ i. take (sizes i)) m in
      let t₁ = run (alone 3 0) s in
      let t₂ = run (alone 3 1) t₁ in
      let t₃ = run (alone 2 1) t₂ in
      let t₄ = run (alone 2 0) t₃ in
      let (p₁, m₁, o₁) =
        run-alone 3 0 s
          (half_way m (sizes 0) c (frontier slab m) h idx free (head c none h) refl fits) in
      let m' = set_word (spinlock_offset slab c) 0 1 m in
      let (p₂, m₂, o₂) = run-alone 3 1 t₁ (
        ap₂ (λ q w. walk 3 (q, w)) (o₁ 1 (λ q. omega (arith, q))) m₁
        ∙ half_way m' (sizes 1) d (frontier slab m) h' idx'
            (set_word-apart _ 0 1 m _ 0 (λ q. n (omega (arith, q))) ∙ free')
            (lock_head m c d 1 h ∙ head d none' h') (lock_frontier m c 1 h) fits') in
      let (p₃, m₃, o₃) =
        run-alone 2 1 t₂ (ap₂ (λ q w. walk 2 (q, w)) p₂ m₂ ∙ done _ d (frontier slab m) _) in
      let (p₄, m₄, o₄) = run-alone 2 0 t₃ (
        ap₂ (λ q w. walk 2 (q, w)) (o₃ 0 zero_ne ∙ o₂ 0 zero_ne ∙ p₁) m₃
        ∙ done _ c (frontier slab m) _) in
      (
        t₄,
        run-Reach_from (alone 2 0) t₃ (
            run-Reach_from (alone 2 1) t₂
              (run-Reach_from (alone 3 1) t₁ (run-Reach s (alone 3 0)))),
        p₄,
        o₄ 1 (λ q. omega (arith, q)) ∙ p₃,
      )
    where
      zero_ne : zero ≢ suc zero
      zero_ne q = omega (arith, q)

      head : (c : ℕ) → blocks c ≡ [] → c < 12 → m.word (free_head_offset slab c) 0 ≡ 0
      head c e h = subst (λ l. Chain m st c (m.word (free_head_offset slab c) 0) l) e (v.chains c h)
