-- ===== src/Slab/PopFree.antt =====
-- `alloc` takes the first block of a free list.
use django_channels_shm.Prelude.{
  ℕ, ◌<◌, ◌≡◌, ◌≢◌, refl, ap, sym, List, ◌∷◌, some, arith, ==_refl, ne→==, ℕ_discrete,
}
use mathlib.Core.Path.{subst}
use django_channels_shm.Shm.{Memory, set_word, exec}
use django_channels_shm.Slab.{SlabAllocator, free_head_offset, pop_free}
use django_channels_shm.Slab.Chain.{
  Status, unused, live, free, Chain, Same, update, Chain-frame, Chain-avoids,
}
use django_channels_shm.Slab.Invariant.{IsPool, IsValid, size_of}
use django_channels_shm.Slab.Update.{update_list, update-used}

module _ (slab : SlabAllocator) (p : IsPool slab) where
  module _ (m : Memory) (st : ℕ → Status) (blocks : ℕ → List ℕ) (v : IsValid slab m st blocks)
      (c : ℕ) (h : c < 12) where
    -- Taking the first block off its free list.
    pub pop_free-IsValid :
        (x : ℕ) (xs : List ℕ)
        → blocks c ≡ x ∷ xs
        → (exec (pop_free slab c x) m
            ≡ some (x, set_word (free_head_offset slab c) 0 (m.word x 0) m))
          × (st x ≡ free c)
          × IsValid slab
              (set_word (free_head_offset slab c) 0 (m.word x 0) m)
              (update st x (live c))
              (update_list blocks c xs)
    unfolding pop_free exec
    pop_free-IsValid x xs e = (
      refl,
      is_free,
      record {
        chains = λ d l. elim (ℕ_discrete c d) [
          | yes q ↦
              subst
                (λ (d : ℕ).
                  Chain m' st' d (m'.word (free_head_offset slab d) 0) (update_list blocks c xs d))
                q
                (rw (==_refl (free_head_offset slab c), ==_refl c)
                  (Chain-frame m m' st st' x c (m.word x 0) xs (same c) chain.3 chain.4))
          | no n ↦
              rw
                (
                  ne→== (free_head_offset slab c) (free_head_offset slab d) (λ q. n (omega arith)),
                  ne→== c d n,
                )
                (Chain-frame m m' st st' x d _ (blocks d) (same d)
                  (Chain-avoids m st d _ x (blocks d) (λ q. n (ground (arith, is_free)))
                    (v.chains d l))
                  (v.chains d l))
        ];
        begin = ground (arith, v.begin);
        stop = ground (arith, v.stop);
        inside = λ a n. ground (arith, moved a, v.inside a);
        apart = λ a b n na nb.
            rw ((moved a).0, (moved b).0) (v.apart a b n ((moved a).1 na) ((moved b).1 nb));
      },
    )
      where
        chain : Chain m st c (m.word (free_head_offset slab c) 0) (x ∷ xs)
        chain = subst (λ l. Chain m st c (m.word (free_head_offset slab c) 0) l) e (v.chains c h)

        is_free : st x ≡ free c
        is_free = chain.2

        m' : Memory
        m' = set_word (free_head_offset slab c) 0 (m.word x 0) m

        st' : ℕ → Status
        st' = update st x (live c)

        same : (d y : ℕ) → st y ≡ free d → x ≢ y → Same m m' st st' y
        same d y q n = (
          rw (
              ne→== (free_head_offset slab c) y
                (λ z. absurd (omega (arith, v.inside y (λ u. cc))))),
          rw (ne→== x y n),
        )

        moved : (a : ℕ) → (size_of (st' a) ≡ size_of (st a)) × (st' a ≢ unused → st a ≢ unused)
        moved a = update-used st x (live c) a (sym (ap size_of is_free)) (λ u. cc is_free)
