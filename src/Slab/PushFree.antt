-- ===== src/Slab/PushFree.antt =====
-- `free` puts a block back.
use django_channels_shm.Prelude.{
  ℕ, ◌<◌, ◌≡◌, ◌≢◌, refl, ap, sym, ◌∙◌, List, ◌∷◌, some, arith, All, ==_refl, ne→==, ℕ_discrete,
}
use mathlib.Core.Path.{subst}
use django_channels_shm.Shm.{Memory, set_word, exec}
use django_channels_shm.Slab.{SlabAllocator, free_head_offset, bump_ptr_offset, push_free}
use django_channels_shm.Slab.Chain.{
  Status, unused, live, free, Chain, Same, update, Chain-frame, Chain-avoids,
}
use django_channels_shm.Slab.Invariant.{IsPool, IsValid, frontier, size_of}
use django_channels_shm.Slab.Update.{update_list, update-used, live_ne, update_self}

module _ (slab : SlabAllocator) (p : IsPool slab) where
  module _ (m : Memory) (st : ℕ → Status) (blocks : ℕ → List ℕ) (v : IsValid slab m st blocks)
      (c : ℕ) (h : c < 12) where
    -- A block that was handed out becomes the head of its free list.
    pub push_free-IsValid :
        (x : ℕ)
        → st x ≡ live c
        → (exec (push_free slab c x) m
            ≡ some (
              tt,
              set_word
                  (free_head_offset slab c)
                  0
                  x
                  (set_word x 0 (m.word (free_head_offset slab c) 0) m),
            ))
          × IsValid slab
              (set_word
                (free_head_offset slab c)
                0
                x
                (set_word x 0 (m.word (free_head_offset slab c) 0) m))
              (update st x (free c))
              (update_list blocks c (x ∷ blocks c))
    unfolding push_free exec
    push_free-IsValid x is_live = (
      refl,
      record {
        chains = λ d l. elim (ℕ_discrete c d) [
          | yes q ↦
              subst
                (λ (d : ℕ).
                  Chain m' st' d (m'.word (free_head_offset slab d) 0)
                    (update_list blocks c (x ∷ blocks c) d))
                q (rw (==_refl (free_head_offset slab c), ==_refl c) chain)
          | no n ↦
              rw
                (
                  ne→== (free_head_offset slab c) (free_head_offset slab d) (λ q. n (omega arith)),
                  ne→== c d n,
                )
                (rw
                  (ne→== x (free_head_offset slab d) (λ q. absurd (omega (arith, v.inside x used))))
                  (kept d l))
        ];
        begin = rw front v.begin;
        stop = rw front v.stop;
        inside = λ a n. rw ((moved a).0, front) (v.inside a ((moved a).1 n));
        apart = λ a b n na nb.
            rw ((moved a).0, (moved b).0) (v.apart a b n ((moved a).1 na) ((moved b).1 nb));
      },
    )
      where
        head : ℕ
        head = m.word (free_head_offset slab c) 0

        m' : Memory
        m' = set_word (free_head_offset slab c) 0 x (set_word x 0 head m)

        st' : ℕ → Status
        st' = update st x (free c)

        used : st x ≢ unused
        used u = cc is_live

        front : frontier slab m' ≡ frontier slab m
        front = rw (
          ne→== (free_head_offset slab c) (bump_ptr_offset slab) (λ q. absurd (omega arith)),
          ne→== x (bump_ptr_offset slab) (λ q. absurd (omega (arith, v.inside x used))),
        )

        moved : (a : ℕ) → (size_of (st' a) ≡ size_of (st a)) × (st' a ≢ unused → st a ≢ unused)
        moved a = update-used st x (free c) a (sym (ap size_of is_live)) used

        same : (d y : ℕ) → st y ≡ free d → x ≢ y → Same m m' st st' y
        same d y q n = (
          rw (
            ne→== (free_head_offset slab c) y (λ z. absurd (omega (arith, v.inside y (λ u. cc)))),
            ne→== x y n,
          ),
          rw (ne→== x y n),
        )

        avoids : (d : ℕ) → d < 12 → All (λ y. x ≢ y) (blocks d)
        avoids d l =
            Chain-avoids m st d _ x (blocks d) (λ q. live_ne c d (sym is_live ∙ q)) (v.chains d l)

        kept : (d : ℕ) → d < 12 → Chain m' st' d (m.word (free_head_offset slab d) 0) (blocks d)
        kept d l = Chain-frame m m' st st' x d _ (blocks d) (same d) (avoids d l) (v.chains d l)

        next : m'.word x 0 ≡ head
        next = rw (
          ne→== (free_head_offset slab c) x (λ z. absurd (omega (arith, v.inside x used))),
          ==_refl x,
        )

        chain : Chain m' st' c x (x ∷ blocks c)
        chain = (
          refl,
          (λ z. absurd (omega (arith, v.inside x used))),
          update_self st x x (free c) refl,
          avoids c h,
          subst (λ w. Chain m' st' c w (blocks c)) (sym next) (kept c h),
        )
