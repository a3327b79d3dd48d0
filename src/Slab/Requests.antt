-- ===== src/Slab/Requests.antt =====
-- The calls of `alloc` and `free` as programs behind the lock of their class.
use django_channels_shm.Prelude.{
  ℕ, ◌+◌, ◌≤◌, ◌<◌, ◌≡◌, refl, ap, ◌∙◌, inr, some, Bool, true, false, ltb, if◌then◌else◌, ◌==◌,
  arith, ne→==, fun_ext,
}
use django_channels_shm.Shm.{Prog, ret, ◌>>=◌, ◌>>◌}
use django_channels_shm.Shm.Critical.{Inside, Apart, Inside-bind, bind_assoc}
use django_channels_shm.Layout.SizeClass.{size_class_idx, class_size}
use django_channels_shm.Slab.{
  SlabAllocator, data_start, spinlock_offset, spinlock_acquire, spinlock_release, alloc, free,
  alloc_from_class, push_free, pop_free, bump_alloc,
}
use django_channels_shm.Slab.Invariant.{IsPool}

Apart-if :
    {A : Type 0} (l : ℕ) (p q : Prog A) (b : Bool)
    → Apart l p
    → Apart l q
    → Apart l (if b then p else q)
unfolding Apart
Apart-if l p q true h k = h
Apart-if l p q false h k = k

-- A call: `take size` asks for a block, `give block size` returns one.
pub data Request : Type 0 where
  take : ℕ → Request
  give : ℕ → ℕ → Request

module _ (slab : SlabAllocator) where
  unfoldable pub program : ℕ → Request → Prog ℕ
  program rounds (take size) = alloc slab rounds size
  program rounds (give block size) = free slab rounds block size >> ret 0

  -- A request for class `c`; a block that is returned lies behind the metadata of the pool.
  abbrev pub OfClass : ℕ → Request → Type 0
  OfClass c (take size) = size_class_idx size ≡ some c
  OfClass c (give block size) = (size_class_idx size ≡ some c) × (data_start slab ≤ block)

  -- What a call does while it holds the lock.
  unfoldable pub locked_part : ℕ → Request → Prog ℕ
  locked_part c (take size) =
      alloc_from_class slab c (class_size c) >>= λ r. spinlock_release slab c >> ret r
  locked_part c (give block size) = push_free slab c block >>= λ _. spinlock_release slab c >> ret 0

  module _ (p : IsPool slab) (c : ℕ) (h : c < 12) where
    pub program-guarded :
        (rounds : ℕ) (q : Request)
        → OfClass c q
        → program rounds q ≡ spinlock_acquire slab rounds c >>= λ _. locked_part c q
    unfolding program locked_part alloc free
    program-guarded rounds (take size) o = rw (program, alloc, o)
    program-guarded rounds (give x size) o =
        rw (program, free, ne→== x 0 (omega (arith, p.metadata, o.1)), o.0)
          (bind_assoc (spinlock_acquire slab rounds c) _ _
            ∙ ap (λ k. spinlock_acquire slab rounds c >>= k)
                (fun_ext (λ _. bind_assoc (push_free slab c x) _ _)))

    release-Inside : (r : ℕ) → Inside (spinlock_offset slab c) (spinlock_release slab c >> ret r)
    unfolding spinlock_release Inside
    release-Inside r = inr (refl, refl, refl, r, refl)

    alloc_from_class-Apart :
        (size : ℕ) → Apart (spinlock_offset slab c) (alloc_from_class slab c size)
    unfolding alloc_from_class pop_free bump_alloc Apart
    alloc_from_class-Apart size head =
        Apart-if _ _ _ (head == 0)
          (λ bump.
            Apart-if _ _ _ (ltb (slab.pool_offset + slab.pool_size) _) tt
              ((λ e. omega (arith, p.locks, p.heads, p.classes, h)), tt))
          (λ next. ((λ e. omega (arith, p.locks, p.heads, h)), tt))

    push_free-Apart :
        (x : ℕ) → data_start slab ≤ x → Apart (spinlock_offset slab c) (push_free slab c x)
    unfolding push_free Apart
    push_free-Apart x l v = (
      (λ e. omega (arith, p.locks, p.metadata, l, h)),
      ((λ e. omega (arith, p.locks, p.heads, h)), tt),
    )

    pub locked_part-Inside :
        (q : Request) → OfClass c q → Inside (spinlock_offset slab c) (locked_part c q)
    unfolding locked_part
    locked_part-Inside (take size) o =
        Inside-bind _ (alloc_from_class slab c (class_size c)) _
          (alloc_from_class-Apart (class_size c)) release-Inside
    locked_part-Inside (give x size) o =
        Inside-bind _ (push_free slab c x) _ (push_free-Apart x o.1) (λ _. release-Inside 0)
