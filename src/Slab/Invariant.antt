-- ===== src/Slab/Invariant.antt =====
-- What the pool looks like between two calls of the allocator.
use django_channels_shm.Prelude.{
  ℕ, ◌+◌, ◌^◌, ◌≤◌, ◌<◌, ◌≡◌, ◌≢◌, refl, ◌⊎◌, List, ◌==◌, if◌then◌else◌, arith,
}
use django_channels_shm.Shm.{Memory}
use django_channels_shm.Layout.SizeClass.{class_size}
use django_channels_shm.Slab.{SlabAllocator, new, free_head_offset, bump_ptr_offset, data_start}
use django_channels_shm.Slab.Chain.{
  Status, unused, live, free, Chain, Same, Chain-frame, Chain-avoids,
}

-- The layout that `new` computes, of a pool that holds its own metadata and ends well below 2 ^ 64.
pub record IsPool (slab : SlabAllocator) : Type 0 where
  pub classes : slab.num_classes ≡ 12
  pub locks : slab.spinlocks_offset ≡ slab.pool_offset
  pub heads : slab.free_heads_offset ≡ slab.pool_offset + 96
  pub metadata : slab.metadata_size ≡ 200
  pub room : 200 ≤ slab.pool_size
  pub small : slab.pool_offset + slab.pool_size + 2 ^ 25 ≤ 2 ^ 64

pub new-IsPool :
    (pool_offset pool_size : ℕ)
    → 200 ≤ pool_size
    → pool_offset + pool_size + 2 ^ 25 ≤ 2 ^ 64
    → IsPool (new pool_offset pool_size)
unfolding new
new-IsPool pool_offset pool_size r s = omega arith

abbrev pub size_of : Status → ℕ
size_of unused = 0
size_of (live c) = class_size c
size_of (free c) = class_size c

-- Where the next block is cut off.
abbrev pub frontier : SlabAllocator → Memory → ℕ
frontier slab m =
    if m.word (bump_ptr_offset slab) 0 == 0
    then data_start slab
    else m.word (bump_ptr_offset slab) 0

-- `st` says what became of each block, `blocks` lists the free blocks of each class.
pub record IsValid (slab : SlabAllocator) (m : Memory) (st : ℕ → Status) (blocks : ℕ → List ℕ)
    : Type 0 where
  pub chains : (c : ℕ) → c < 12 → Chain m st c (m.word (free_head_offset slab c) 0) (blocks c)
  pub begin : data_start slab ≤ frontier slab m
  pub stop : frontier slab m ≤ slab.pool_offset + slab.pool_size
  pub inside :
      (a : ℕ)
      → st a ≢ unused
      → (data_start slab ≤ a) × (0 < size_of (st a)) × (a + size_of (st a) ≤ frontier slab m)
  pub apart :
      (a b : ℕ)
      → a ≢ b
      → st a ≢ unused
      → st b ≢ unused
      → (a + size_of (st a) ≤ b) ⊎ (b + size_of (st b) ≤ a)

-- The invariant does not see the locks.
pub IsValid-frame :
    (slab : SlabAllocator) (m m' : Memory) (st : ℕ → Status) (blocks : ℕ → List ℕ)
    → IsPool slab
    → ((a : ℕ) → slab.free_heads_offset ≤ a → m'.word a 0 ≡ m.word a 0)
    → IsValid slab m st blocks
    → IsValid slab m' st blocks
IsValid-frame slab m m' st blocks p same v = record {
  chains = λ c h. rw (same (free_head_offset slab c) (omega arith)) (
      Chain-frame m m' st st 0 c _ (blocks c) (kept c)
        (Chain-avoids m st c _ 0 (blocks c) (none_at_zero c) (v.chains c h)) (v.chains c h));
  begin = rw front v.begin;
  stop = rw front v.stop;
  inside = λ a h. rw front (v.inside a h);
  apart = v.apart;
}
  where
    front : frontier slab m' ≡ frontier slab m
    front = rw (same (bump_ptr_offset slab) (omega arith))

    none_at_zero : (c : ℕ) → st 0 ≢ free c
    none_at_zero c e = absurd (omega (arith, v.inside 0 (λ u. cc)))

    kept : (c y : ℕ) → st y ≡ free c → 0 ≢ y → Same m m' st st y
    kept c y e n = (same y (omega (arith, v.inside y (λ u. cc))), refl)
