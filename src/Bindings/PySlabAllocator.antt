-- ===== src/Bindings/PySlabAllocator.antt =====
-- `PySlabAllocator`: the allocator as an object of Python. `rounds` bounds the tries of a lock.
use django_channels_shm.Prelude.{ℕ}
use django_channels_shm.Shm.{Prog}
use django_channels_shm.Slab
use django_channels_shm.Slab.{SlabAllocator}

pub record PySlabAllocator : Type 0 where
  pub inner : SlabAllocator

unfoldable pub new : ℕ → ℕ → PySlabAllocator
new pool_offset pool_size = record { inner = Slab.new pool_offset pool_size }

module _ (slab : PySlabAllocator) where
  unfoldable pub init : Prog (Unit {0})
  init = Slab.init slab.inner

  unfoldable pub alloc : ℕ → ℕ → Prog ℕ
  alloc rounds size = Slab.alloc slab.inner rounds size

  unfoldable pub free : ℕ → ℕ → ℕ → Prog (Unit {0})
  free rounds offset size = Slab.free slab.inner rounds offset size

  unfoldable pub alloc_cold : ℕ → Prog ℕ
  alloc_cold size = Slab.alloc_cold slab.inner size

  unfoldable pub free_cold : ℕ → ℕ → Prog (Unit {0})
  free_cold offset size = Slab.free_cold slab.inner offset size

  unfoldable pub reset : Prog (Unit {0})
  reset = Slab.reset slab.inner
