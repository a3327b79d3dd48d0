-- ===== src/Slab/BumpAlloc.antt =====
-- `alloc` cuts a block off at the bump pointer.
use django_channels_shm.Prelude.{
  ℕ, ◌+◌, ◌≤◌, ◌<◌, ◌≡◌, ◌≢◌, sym, ◌∙◌, ◌⊎◌, inl, inr, List, some, arith, ==_refl, ne→==,
  ℕ_discrete,
}
use native.Mathlib.Nat.{mod-eq_of_lt}
use django_channels_shm.Shm.{add64, Memory, set_word, exec}
use django_channels_shm.Layout.SizeClass.{class_size, class_size_bounds}
use django_channels_shm.Slab.{
  SlabAllocator, free_head_offset, bump_ptr_offset, data_start, bump_alloc,
}
use django_channels_shm.Slab.Chain.{
  Status, unused, live, free, Same, update, Chain-frame, Chain-avoids,
}
use django_channels_shm.Slab.Invariant.{IsPool, IsValid, frontier, size_of}
use django_channels_shm.Slab.Update.{used→unused, free_ne, update_self, update_ne}

module _ (slab : SlabAllocator) (p : IsPool slab) where
  module _ (m : Memory) (st : ℕ → Status) (blocks : ℕ → List ℕ) (v : IsValid slab m st blocks)
      (c : ℕ) (h : c < 12) where
    -- Cutting a block off at the frontier.
    pub bump_alloc-IsValid :
        frontier slab m + class_size c ≤ slab.pool_offset + slab.pool_size
        → (exec (bump_alloc slab (class_size c)) m
            ≡ some (
              frontier slab m,
              set_word (bump_ptr_offset slab) 0 (frontier slab m + class_size c) m,
            ))
          × (st (frontier slab m) ≡ unused)
          × IsValid slab
              (set_word (bump_ptr_offset slab) 0 (frontier slab m + class_size c) m)
              (update st (frontier slab m) (live c))
              blocks
    unfolding bump_alloc exec
    bump_alloc-IsValid fits = (
      ran,
      fresh,
      record {
        chains = λ d l.
            rw (ne→== (bump_ptr_offset slab) (free_head_offset slab d) (λ q. absurd (omega arith)))
              (Chain-frame m m' st st' r d _ (blocks d) (same d)
                (Chain-avoids m st d _ r (blocks d) (λ q. free_ne d (sym fresh ∙ q)) (v.chains d l))
                (v.chains d l));
        begin = rw front (omega (arith, v.begin));
        stop = rw front fits;
        inside = λ a n. rw front (grown a n);
        apart = away;
      },
    )
      where
        r : ℕ
        r = frontier slab m

        m' : Memory
        m' = set_word (bump_ptr_offset slab) 0 (r + class_size c) m

        st' : ℕ → Status
        st' = update st r (live c)

        size : (512 ≤ class_size c) × (class_size c ≤ 16777216)
        size = class_size_bounds c h

        ran : exec (bump_alloc slab (class_size c)) m ≡ some (r, m')
        ran =
            let e : add64 r (class_size c) ≡ r + class_size c =
              mod-eq_of_lt (omega (arith, p.small)) in
            ground (arith, e, fits)

        fresh : st r ≡ unused
        fresh = used→unused (st r) (λ u. absurd (omega (arith, v.inside r u)))

        front : frontier slab m' ≡ r + class_size c
        front = rw (
          ==_refl (bump_ptr_offset slab),
          ne→== (r + class_size c) 0 (λ q. absurd (omega (arith, size))),
        )

        same : (d y : ℕ) → st y ≡ free d → r ≢ y → Same m m' st st' y
        same d y q n = (
          rw (ne→== (bump_ptr_offset slab) y (λ z. absurd (omega (arith, v.inside y (λ u. cc))))),
          rw (ne→== r y n),
        )

        grown :
            (a : ℕ)
            → st' a ≢ unused
            → (data_start slab ≤ a)
              × (0 < size_of (st' a))
              × (a + size_of (st' a) ≤ r + class_size c)
        grown a n = elim (ℕ_discrete r a) [
          | yes e ↦ rw (update_self st r a (live c) e) (omega (arith, size, v.begin))
          | no d ↦
              rw (update_ne st r a (live c) d)
                (omega (arith, v.inside a (λ u. n (update_ne st r a (live c) d ∙ u)), size))
        ]

        old : (a : ℕ) → r ≢ a → st' a ≢ unused → st a ≢ unused
        old a d n u = n (update_ne st r a (live c) d ∙ u)

        away :
            (a b : ℕ)
            → a ≢ b
            → st' a ≢ unused
            → st' b ≢ unused
            → (a + size_of (st' a) ≤ b) ⊎ (b + size_of (st' b) ≤ a)
        away a b n na nb = elim (ℕ_discrete r a) [
          | yes e ↦
              let d : r ≢ b = λ w. n (sym e ∙ w) in
              inr (rw (update_ne st r b (live c) d) (omega (arith, v.inside b (old b d nb))))
          | no da ↦ elim (ℕ_discrete r b) [
            | yes e ↦
                inl (rw (update_ne st r a (live c) da) (omega (arith, v.inside a (old a da na))))
            | no db ↦
                rw (update_ne st r a (live c) da, update_ne st r b (live c) db)
                  (v.apart a b n (old a da na) (old b db nb))
          ]
        ]
