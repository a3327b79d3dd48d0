-- ===== src/Slab/Blocks.antt =====
-- What a caller of the allocator can rely on.
use django_channels_shm.Prelude.{
  ℕ, suc, ◌+◌, ◌≤◌, ◌<◌, ◌≡◌, ◌≢◌, refl, ap, sym, ◌∙◌, ◌⊎◌, inl, inr, List, ◌∷◌, some, arith,
  ==_refl, ne→==,
}
use django_channels_shm.Shm.{Memory, set_word, exec, ◌>>=◌}
use django_channels_shm.Shm.Exec.{exec-bind}
use django_channels_shm.Layout.SizeClass.{size_class_idx, class_size, size_class_idx_lem}
use django_channels_shm.Slab.{
  SlabAllocator, free_head_offset, bump_ptr_offset, data_start, spinlock_offset, alloc_from_class,
  push_free, alloc, free,
}
use django_channels_shm.Slab.Chain.{Status, unused, live, update}
use django_channels_shm.Slab.Invariant.{IsPool, IsValid, frontier, size_of, IsValid-frame}
use django_channels_shm.Slab.Update.{update_list, update_self, update_ne}
use django_channels_shm.Slab.PushFree.{push_free-IsValid}
use django_channels_shm.Slab.FromClass.{
  Allocated, Exhausted, not_live, live_ne_unused, from_class-head, alloc_from_class_lem,
}

module _ (slab : SlabAllocator) (p : IsPool slab) where
  -- No one holds the lock of class `c`.
  abbrev pub Unlocked : ℕ → Memory → Type 0
  Unlocked c m = m.word (spinlock_offset slab c) 0 ≡ 0

  abbrev pub lock : ℕ → ℕ → Memory → Memory
  lock c b m = set_word (spinlock_offset slab c) 0 b m

  lock-IsValid :
      (m : Memory) (st : ℕ → Status) (blocks : ℕ → List ℕ) (c b : ℕ)
      → c < 12
      → IsValid slab m st blocks
      → IsValid slab (lock c b m) st blocks
  lock-IsValid m st blocks c b h v =
      IsValid-frame slab m (lock c b m) st blocks p
        (λ a l. rw (ne→== (spinlock_offset slab c) a (λ q. absurd (omega arith)))) v

  alloc-run :
      (m after : Memory) (size c r n : ℕ)
      → size_class_idx size ≡ some c
      → Unlocked c m
      → exec (alloc_from_class slab c (class_size c)) (lock c 1 m) ≡ some (r, after)
      → exec (alloc slab (suc n) size) m ≡ some (r, lock c 0 after)
  unfolding alloc exec
  alloc-run m after size c r n idx free ran =
      rw (idx, free, exec) (exec-bind (alloc_from_class slab c (class_size c)) _ (lock c 1 m) ran)

  free-run :
      (m after : Memory) (x size c n : ℕ)
      → x ≢ 0
      → size_class_idx size ≡ some c
      → Unlocked c m
      → exec (push_free slab c x) (lock c 1 m) ≡ some (tt, after)
      → exec (free slab (suc n) x size) m ≡ some (tt, lock c 0 after)
  unfolding free exec
  free-run m after x size c n nz idx unlocked ran =
      rw (ne→== x 0 nz, idx, unlocked, exec) (exec-bind (push_free slab c x) _ (lock c 1 m) ran)

  module _ (m : Memory) (st : ℕ → Status) (blocks : ℕ → List ℕ) (v : IsValid slab m st blocks) where
    -- In a valid pool, for a request of `size` bytes, of class `c`, whose lock is free: the block
    -- that `alloc` returns was free or never used, and is the only one that changes hands; or
    -- `alloc` returns 0, and then the class has no free block and the pool no room. The invariant
    -- is kept and the lock released.
    pub alloc_lem :
        (size c n : ℕ)
        → size_class_idx size ≡ some c
        → Unlocked c m
        → ((a : Allocated slab (alloc slab (suc n) size) m st c) × Unlocked c a.after)
          ⊎ ((x : Exhausted slab (alloc slab (suc n) size) m st blocks c) × Unlocked c x.after)
    alloc_lem size c n idx unlocked =
        finish (alloc_from_class_lem slab p (lock c 1 m) st blocks locked c h)
      where
        h : c < 12
        h = (size_class_idx_lem size c idx).0

        locked : IsValid slab (lock c 1 m) st blocks
        locked = lock-IsValid m st blocks c 1 h v

        front : frontier slab (lock c 1 m) ≡ frontier slab m
        front =
            rw (
              ne→== (spinlock_offset slab c) (bump_ptr_offset slab)
                (λ q. absurd (omega (arith, h))))

        finish :
            Allocated slab (alloc_from_class slab c (class_size c)) (lock c 1 m) st c
              ⊎ Exhausted slab (alloc_from_class slab c (class_size c)) (lock c 1 m) st blocks c
            → ((a : Allocated slab (alloc slab (suc n) size) m st c) × Unlocked c a.after)
              ⊎ ((x : Exhausted slab (alloc slab (suc n) size) m st blocks c) × Unlocked c x.after)
        finish (inl a) = inl (
          record {
            r = a.r;
            after = lock c 0 a.after;
            blocks' = a.blocks';
            ran = alloc-run m a.after size c a.r n idx unlocked a.ran;
            nonzero = a.nonzero;
            available = a.available;
            valid = lock-IsValid a.after _ a.blocks' c 0 h a.valid;
          },
          rw (==_refl (spinlock_offset slab c)),
        )
        finish (inr x) = inr (
          record {
            after = lock c 0 x.after;
            ran = alloc-run m x.after size c 0 n idx unlocked x.ran;
            none_free = x.none_free;
            no_room = rw front at x.no_room;
            valid = lock-IsValid x.after st blocks c 0 h x.valid;
          },
          rw (==_refl (spinlock_offset slab c)),
        )

    -- In a valid pool, where the lock of the request's class is free: a block that `alloc` returns
    -- for a request of `size` bytes, if it is not 0, lies in the pool, holds `size` bytes, and
    -- overlaps no block that is live, whatever its class.
    pub alloc_apart :
        (size c n r b d : ℕ) {m' : Memory}
        → size_class_idx size ≡ some c
        → Unlocked c m
        → exec (alloc slab (suc n) size) m ≡ some (r, m')
        → r ≢ 0
        → st b ≡ live d
        → (data_start slab ≤ r)
          × (r + size ≤ slab.pool_offset + slab.pool_size)
          × ((r + size ≤ b) ⊎ (b + class_size d ≤ r))
    alloc_apart size c n r b d idx unlocked ran nz is_live =
        finish (alloc_lem size c n idx unlocked)
      where
        finish :
            ((a : Allocated slab (alloc slab (suc n) size) m st c) × Unlocked c a.after)
              ⊎ ((x : Exhausted slab (alloc slab (suc n) size) m st blocks c) × Unlocked c x.after)
            → (data_start slab ≤ r)
              × (r + size ≤ slab.pool_offset + slab.pool_size)
              × ((r + size ≤ b) ⊎ (b + class_size d ≤ r))
        finish (inr (x, u)) = absurd (nz (cc x.ran))
        finish (inl (a, u)) =
            let e : a.r ≡ r = cc (a.ran, ran) in
            let ne : a.r ≢ b = λ q. not_live st a.r b c d q a.available is_live in
            let here = update_self st a.r a.r (live c) refl in
            let there = update_ne st a.r b (live c) ne ∙ is_live in
            let used =
              λ (w : update st a.r (live c) a.r ≡ unused). live_ne_unused c (sym here ∙ w) in
            let used' =
              λ (w : update st a.r (live c) b ≡ unused). live_ne_unused d (sym there ∙ w) in
            omega (
              arith,
              (size_class_idx_lem size c idx).2,
              a.valid.stop,
              a.valid.inside a.r used,
              a.valid.apart a.r b ne used used',
              ap size_of here,
              ap size_of there,
            )

    -- In a valid pool, where the lock of the class is free: `free` of a live block, with a size of
    -- its class, puts the block back. It is then the head of its class's free list, and nothing
    -- else changes; the invariant is kept and the lock released.
    pub free-IsValid :
        (x size c n : ℕ)
        → st x ≡ live c
        → size_class_idx size ≡ some c
        → Unlocked c m
        → (m' : Memory) × (exec (free slab (suc n) x size) m ≡ some (tt, m'))
          × IsValid slab m' (update st x (Status.free c)) (update_list blocks c (x ∷ blocks c))
          × Unlocked c m'
    free-IsValid x size c n is_live idx unlocked =
        let h : c < 12 = (size_class_idx_lem size c idx).0 in
        let (ran, valid) =
          push_free-IsValid slab p (lock c 1 m) st blocks (lock-IsValid m st blocks c 1 h v) c h x
            is_live in
        (
          _,
          free-run m _ x size c n
              (omega (arith, v.inside x (λ u. live_ne_unused c (sym is_live ∙ u)), p.metadata)) idx
              unlocked ran,
          lock-IsValid _ _ _ c 0 h valid,
          rw (==_refl (spinlock_offset slab c)),
        )

    -- Last in, first out: in a valid pool, where the lock of the class is free, `free` of a live
    -- block and then a request of the same class give that block again.
    pub free-alloc :
        (x size size' c n : ℕ)
        → st x ≡ live c
        → size_class_idx size ≡ some c
        → size_class_idx size' ≡ some c
        → Unlocked c m
        → (m' : Memory) × (exec (free slab (suc n) x size >>= λ _. alloc slab (suc n) size') m
            ≡ some (x, m'))
    free-alloc x size size' c n is_live idx idx' unlocked =
        let h : c < 12 = (size_class_idx_lem size c idx).0 in
        let nz : x ≢ 0 =
          omega (arith, v.inside x (λ u. live_ne_unused c (sym is_live ∙ u)), p.metadata) in
        let (ran, valid) =
          push_free-IsValid slab p (lock c 1 m) st blocks (lock-IsValid m st blocks c 1 h v) c h x
            is_live in
        let after = λ (w : Memory). lock c 0 (
          set_word (free_head_offset slab c) 0 x
            (set_word x 0 (w.word (free_head_offset slab c) 0) w)) in
        let m' : Memory = after (lock c 1 m) in
        (
          _,
          exec-bind (free slab (suc n) x size) _ m (free-run m _ x size c n nz idx unlocked ran)
              ∙ alloc-run m' _ size' c x n idx' (rw (==_refl (spinlock_offset slab c))) (
                  from_class-head slab (lock c 1 m') c x
                    (head c x h
                      (set_word x 0 ((lock c 1 m).word (free_head_offset slab c) 0) (lock c 1 m)))
                    nz),
        )
      where
        head :
            (c x : ℕ)
            → c < 12
            → (w : Memory)
            → (lock c 1 (lock c 0 (set_word (free_head_offset slab c) 0 x w))).word
                (free_head_offset slab c)
                0
              ≡ x
        head c x h w = rw (
          ne→== (spinlock_offset slab c) (free_head_offset slab c) (λ q. absurd (omega (arith, h))),
          ==_refl (free_head_offset slab c),
        )
