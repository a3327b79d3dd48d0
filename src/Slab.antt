-- ===== src/Slab.antt =====
-- crates/_channels_shm_native/src/slab.rs: the size-class allocator of the dynamic pool.
-- A word of the pool is addressed by its offset, with 0 for the offset in it.
pub mod Chain
pub mod Invariant
pub mod Update
pub mod PopFree
pub mod BumpAlloc
pub mod PushFree
pub mod FromClass
pub mod Blocks
pub mod Init
pub mod Locked
pub mod Requests
pub mod Concurrent
pub mod Handout
pub mod Race
use django_channels_shm.Prelude.{
  ℕ, zero, suc, ◌+◌, ◌-◌, ◌*◌, ltb, ◌==◌, if◌then◌else◌, Bool, Option, none, some, length,
}
use django_channels_shm.Shm.{Prog, ret, diverge, ◌>>=◌, ◌>>◌, add64, load_u64, store_u64, cas_u64}
use django_channels_shm.Layout.{size_classes, slab_spinlock_size}
use django_channels_shm.Layout.SizeClass.{size_class_idx, class_size}

pub record SlabAllocator : Type 0 where
  pub pool_offset : ℕ
  pub pool_size : ℕ
  pub spinlocks_offset : ℕ
  pub num_classes : ℕ
  pub free_heads_offset : ℕ
  pub metadata_size : ℕ

unfoldable pub new : ℕ → ℕ → SlabAllocator
new pool_offset pool_size =
    let num_classes : ℕ = length size_classes in
    let spinlocks_offset = pool_offset in
    let free_heads_offset : ℕ = spinlocks_offset + num_classes * slab_spinlock_size in
    let bump_ptr_offset : ℕ = free_heads_offset + num_classes * 8 in
    record {
      pool_offset = pool_offset;
      pool_size = pool_size;
      spinlocks_offset = spinlocks_offset;
      num_classes = num_classes;
      free_heads_offset = free_heads_offset;
      metadata_size = bump_ptr_offset + 8 - pool_offset;
    }

module _ (slab : SlabAllocator) where
  abbrev pub bump_ptr_offset : ℕ
  bump_ptr_offset = slab.free_heads_offset + slab.num_classes * 8

  abbrev pub data_start : ℕ
  data_start = slab.pool_offset + slab.metadata_size

  abbrev pub spinlock_offset : ℕ → ℕ
  spinlock_offset class_idx = slab.spinlocks_offset + class_idx * 8

  abbrev pub free_head_offset : ℕ → ℕ
  free_head_offset class_idx = slab.free_heads_offset + class_idx * 8

  -- The loop of `init` over the classes from `i` on, `n` of them left.
  unfoldable pub init_classes : ℕ → ℕ → Prog (Unit {0})
  init_classes zero i = ret tt
  init_classes (suc n) i = do
    store_u64 (slab.spinlocks_offset + i * 8) 0 0
    store_u64 (slab.free_heads_offset + i * 8) 0 0
    init_classes n (i + 1)

  unfoldable pub init : Prog (Unit {0})
  unfolding init_classes
  init = do init_classes slab.num_classes 0; store_u64 bump_ptr_offset 0 0

  -- At most `rounds` tries of the loop; it yields the processor between them.
  unfoldable pub spinlock_acquire : ℕ → ℕ → Prog (Unit {0})
  spinlock_acquire zero class_idx = diverge
  spinlock_acquire (suc rounds) class_idx = do
    taken ← cas_u64 (spinlock_offset class_idx) 0 0 1
    if taken then ret tt else spinlock_acquire rounds class_idx

  unfoldable pub spinlock_release : ℕ → Prog (Unit {0})
  spinlock_release class_idx = store_u64 (spinlock_offset class_idx) 0 0

  -- The free list is not empty: its head is unlinked.
  unfoldable pub pop_free : ℕ → ℕ → Prog ℕ
  pop_free class_idx head = do
    next ← load_u64 head 0
    store_u64 (free_head_offset class_idx) 0 next
    ret head

  -- The free list is empty: the block is cut off at the bump pointer.
  unfoldable pub bump_alloc : ℕ → Prog ℕ
  bump_alloc block_size = do
    current_bump ← load_u64 bump_ptr_offset 0
    let new_bump : ℕ = if current_bump == 0 then data_start else current_bump
    let end : ℕ = add64 new_bump block_size
    if ltb (slab.pool_offset + slab.pool_size) end
        then ret 0
        else (store_u64 bump_ptr_offset 0 end >> ret new_bump)

  unfoldable pub alloc_from_class : ℕ → ℕ → Prog ℕ
  unfolding pop_free bump_alloc
  alloc_from_class class_idx block_size = do
    head ← load_u64 (free_head_offset class_idx) 0
    if head == 0 then bump_alloc block_size else pop_free class_idx head

  -- 0 is a failure: no class is big enough, or the pool is used up.
  unfoldable pub alloc : ℕ → ℕ → Prog ℕ
  unfolding spinlock_acquire spinlock_release
  alloc rounds size = elim (size_class_idx size) [
    | none ↦ ret 0
    | some idx ↦ do
      spinlock_acquire rounds idx
      result ← alloc_from_class idx (class_size idx)
      spinlock_release idx
      ret result
  ]

  -- The block becomes the head of its free list.
  unfoldable pub push_free : ℕ → ℕ → Prog (Unit {0})
  push_free class_idx offset = do
    old_head ← load_u64 (free_head_offset class_idx) 0
    store_u64 offset 0 old_head
    store_u64 (free_head_offset class_idx) 0 offset

  unfoldable pub free : ℕ → ℕ → ℕ → Prog (Unit {0})
  unfolding spinlock_acquire spinlock_release
  free rounds offset size = if offset == 0 then ret tt else (elim (size_class_idx size) [
    | none ↦ ret tt
    | some idx ↦ do spinlock_acquire rounds idx; push_free idx offset; spinlock_release idx
  ])

  unfoldable pub alloc_cold : ℕ → Prog ℕ
  unfolding alloc_from_class
  alloc_cold size = elim (size_class_idx size) [
    | none ↦ ret 0
    | some idx ↦ alloc_from_class idx (class_size idx)
  ]

  unfoldable pub free_cold : ℕ → ℕ → Prog (Unit {0})
  free_cold offset size =
      if offset == 0
      then ret tt
      else (elim (size_class_idx size) [ none ↦ ret tt | some idx ↦ push_free idx offset ])

  unfoldable pub reset : Prog (Unit {0})
  unfolding init
  reset = init
