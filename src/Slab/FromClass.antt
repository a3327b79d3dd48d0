-- ===== src/Slab/FromClass.antt =====
-- The locked part of `alloc`.
use django_channels_shm.Prelude.{
  ℕ, ◌+◌, ◌<◌, ◌≡◌, ◌≢◌, refl, ap, ◌∙◌, ◌⊎◌, inl, inr, List, [], ◌∷◌, some, arith, eq→==, ne→==,
  dec_le,
}
use mathlib.Core.Path.{subst}
use native.Mathlib.Nat.{mod-eq_of_lt}
use django_channels_shm.Shm.{Memory, add64, set_word, exec, Prog}
use django_channels_shm.Layout.SizeClass.{class_size, class_size_bounds}
use django_channels_shm.Slab.{
  SlabAllocator, free_head_offset, alloc_from_class, pop_free, bump_alloc,
}
use django_channels_shm.Slab.Chain.{Status, unused, live, Chain, update}
use django_channels_shm.Slab.Invariant.{IsPool, IsValid, frontier}
use django_channels_shm.Slab.PopFree.{pop_free-IsValid}
use django_channels_shm.Slab.BumpAlloc.{bump_alloc-IsValid}

-- The run of `p` hands out a block `r` of class `c`: it was free or never used, is not 0, and is now
-- live; nothing else changed hands.
pub record Allocated (slab : SlabAllocator) (p : Prog ℕ) (m : Memory) (st : ℕ → Status) (c : ℕ)
    : Type 0 where
  pub r : ℕ
  pub after : Memory
  pub blocks' : ℕ → List ℕ
  pub ran : exec p m ≡ some (r, after)
  pub nonzero : r ≢ 0
  pub available : (st r ≡ unused) ⊎ (st r ≡ Status.free c)
  pub valid : IsValid slab after (update st r (live c)) blocks'

-- The run of `p` answers 0 and changes no block: class `c` has no free block and the pool has no
-- room for one more.
pub record Exhausted (slab : SlabAllocator) (p : Prog ℕ) (m : Memory) (st : ℕ → Status)
    (blocks : ℕ → List ℕ) (c : ℕ) : Type 0 where
  pub after : Memory
  pub ran : exec p m ≡ some (0, after)
  pub none_free : blocks c ≡ []
  pub no_room : slab.pool_offset + slab.pool_size < frontier slab m + class_size c
  pub valid : IsValid slab after st blocks

pub not_live :
    (st : ℕ → Status) (a b c d : ℕ)
    → a ≡ b
    → (st a ≡ unused) ⊎ (st a ≡ Status.free c)
    → ¬ (st b ≡ live d)
not_live st a b c d q (inl u) l = cc (ap st q)
not_live st a b c d q (inr u) l = cc (ap st q)

pub live_ne_unused : (c : ℕ) → live c ≢ unused
live_ne_unused c e = cc

-- A non-empty free list gives its head.
pub from_class-head :
    (slab : SlabAllocator) (m : Memory) (c x : ℕ)
    → m.word (free_head_offset slab c) 0 ≡ x
    → x ≢ 0
    → exec (alloc_from_class slab c (class_size c)) m
      ≡ some (x, set_word (free_head_offset slab c) 0 (m.word x 0) m)
unfolding alloc_from_class exec
from_class-head slab m c x e n = rw (e, ne→== x 0 n, exec)

module _ (slab : SlabAllocator) (p : IsPool slab) where
  module _ (m : Memory) (st : ℕ → Status) (blocks : ℕ → List ℕ) (v : IsValid slab m st blocks)
      (c : ℕ) (h : c < 12) where
    bump-full :
        slab.pool_offset + slab.pool_size < frontier slab m + class_size c
        → exec (bump_alloc slab (class_size c)) m ≡ some (0, m)
    unfolding bump_alloc exec
    bump-full full =
        let e : add64 (frontier slab m) (class_size c) ≡ frontier slab m + class_size c =
          mod-eq_of_lt (omega (arith, p.small, v.stop, class_size_bounds c h)) in
        ground (arith, e, full)

    from_class-empty :
        m.word (free_head_offset slab c) 0 ≡ 0
        → exec (alloc_from_class slab c (class_size c)) m ≡ exec (bump_alloc slab (class_size c)) m
    unfolding alloc_from_class exec
    from_class-empty e = rw (eq→== _ 0 e, exec)

    from_class-pop :
        (x : ℕ)
        → m.word (free_head_offset slab c) 0 ≡ x
        → x ≢ 0
        → exec (alloc_from_class slab c (class_size c)) m ≡ exec (pop_free slab c x) m
    unfolding alloc_from_class exec
    from_class-pop x e n = rw (e, ne→== x 0 n, exec)

    -- The locked part of `alloc`.
    pub alloc_from_class_lem :
        Allocated slab (alloc_from_class slab c (class_size c)) m st c
        ⊎ Exhausted slab (alloc_from_class slab c (class_size c)) m st blocks c
    alloc_from_class_lem = go (blocks c) refl
      where
        go :
            (xs : List ℕ)
            → blocks c ≡ xs
            → Allocated slab (alloc_from_class slab c (class_size c)) m st c
              ⊎ Exhausted slab (alloc_from_class slab c (class_size c)) m st blocks c
        go [] e =
            let head =
              subst (λ l. Chain m st c (m.word (free_head_offset slab c) 0) l) e (v.chains c h) in
            elim (dec_le (frontier slab m + class_size c) (slab.pool_offset + slab.pool_size)) [
              | yes fits ↦
                  let (ran, fresh, valid) = bump_alloc-IsValid slab p m st blocks v c h fits in
                  inl (record {
                    r = frontier slab m;
                    after = _;
                    blocks' = blocks;
                    ran = from_class-empty head ∙ ran;
                    nonzero = omega (arith, v.begin, p.metadata);
                    available = inl fresh;
                    valid = valid;
                  })
              | no full ↦ inr (record {
                after = m;
                ran = from_class-empty head ∙ bump-full (omega arith);
                none_free = e;
                no_room = omega arith;
                valid = v;
              })
            ]
        go (x ∷ xs) e =
            let k =
              subst (λ l. Chain m st c (m.word (free_head_offset slab c) 0) l) e (v.chains c h) in
            let (ran, was, valid) = pop_free-IsValid slab p m st blocks v c h x xs e in
            inl (record {
              r = x;
              after = _;
              blocks' = _;
              ran = from_class-pop x k.0 k.1 ∙ ran;
              nonzero = k.1;
              available = inr was;
              valid = valid;
            })
