-- ===== src/Tests/Slab.antt =====
-- A pool of 64 KiB at offset 4096 with one live block of class 0.
use django_channels_shm.Prelude.{
  ℕ, ◌+◌, ◌*◌, ◌<◌, ◌≤◌, ◌≡◌, ◌⊎◌, refl, ◌&&◌, some, List, [], ◌∷◌, ◌==◌, if◌then◌else◌, arith,
  ne→==, eq→==, ℕ_discrete,
}
use django_channels_shm.Shm.{Memory, set_word, exec, ◌>>=◌}
use django_channels_shm.Layout.SizeClass.{size_class_idx, class_size}
use django_channels_shm.Slab.{
  SlabAllocator, new, init, alloc, alloc_from_class, free, data_start, spinlock_offset,
}
use django_channels_shm.Slab.Chain.{Status, unused, live, update}
use django_channels_shm.Slab.Invariant.{IsPool, IsValid, frontier, size_of}
use django_channels_shm.Slab.Update.{update_list}
use django_channels_shm.Slab.FromClass.{Allocated, Exhausted}
use django_channels_shm.Slab.Blocks.{Unlocked, alloc_lem, alloc_apart, free-IsValid, free-alloc}
use django_channels_shm.Slab.Init.{init-IsValid}

abbrev pub pool : SlabAllocator
pool = record {
  pool_offset = 4096;
  pool_size = 65536;
  spinlocks_offset = 4096;
  num_classes = 12;
  free_heads_offset = 4192;
  metadata_size = 200;
}

pool_is_new : new 4096 65536 ≡ pool
unfolding new
pool_is_new = refl

pub is_pool : IsPool pool
is_pool = record {
  classes = refl;
  locks = refl;
  heads = refl;
  metadata = refl;
  room = omega arith;
  small = omega arith;
}

-- The bump pointer stands behind the first block.
abbrev pub memory : Memory
memory = record { word = λ o f. if (f == 0) && (o == 4288) then 4808 else 0; bytes = λ _ _. [] }

abbrev pub status : ℕ → Status
status a = if a == 4296 then live 0 else unused

abbrev pub no_blocks : ℕ → List ℕ
no_blocks c = []

pub is_valid : IsValid pool memory status no_blocks
is_valid = record {
  chains = λ c h. rw (ne→== (4192 + c * 8) 4288 (λ q. absurd (omega arith)));
  begin = omega arith;
  stop = omega arith;
  inside = λ a n. elim (ℕ_discrete a 4296) [
    | yes e ↦ let s : size_of (status a) ≡ 512 = rw (eq→== a 4296 e) in omega arith
    | no d ↦ absurd (n (rw (ne→== a 4296 d)))
  ];
  apart = λ a b n na nb. elim (ℕ_discrete a 4296) [
    | yes e ↦ elim (ℕ_discrete b 4296) [
      | yes e' ↦ absurd (n (omega arith))
      | no d ↦ absurd (nb (rw (ne→== b 4296 d)))
    ]
    | no d ↦ absurd (na (rw (ne→== a 4296 d)))
  ];
}

pub idx_100 : size_class_idx 100 ≡ some 0
unfolding size_class_idx
idx_100 = refl

init-IsValid_example :
    (m' : Memory) × (exec (init pool) memory ≡ some (tt, m'))
    × IsValid pool m' (λ _. unused) (λ _. [])
    × (frontier pool m' ≡ data_start pool)
    × ((c : ℕ) → c < 12 → m'.word (spinlock_offset pool c) 0 ≡ 0)
init-IsValid_example = init-IsValid pool is_pool memory

alloc_example :
    ((a : Allocated pool (alloc pool 1 100) memory status 0) × Unlocked pool is_pool 0 a.after)
    ⊎ ((x : Exhausted pool (alloc pool 1 100) memory status no_blocks 0) × Unlocked pool is_pool 0
          x.after)
alloc_example = alloc_lem pool is_pool memory status no_blocks is_valid 100 0 0 idx_100 refl

-- The run of that request.
abbrev second_block : Memory
second_block = set_word 4096 0 0 (set_word 4288 0 5320 (set_word 4096 0 1 memory))

alloc_run : exec (alloc pool 1 100) memory ≡ some (4808, second_block)
unfolding alloc alloc_from_class exec size_class_idx
alloc_run = refl

alloc_apart_example :
    (data_start pool ≤ 4808)
    × (4808 + 100 ≤ 4096 + 65536)
    × ((4808 + 100 ≤ 4296) ⊎ (4296 + class_size 0 ≤ 4808))
alloc_apart_example =
    alloc_apart pool is_pool memory status no_blocks is_valid 100 0 0 4808 4296 0 idx_100 refl
      alloc_run (λ e. absurd (omega arith)) refl

free_example :
    (m' : Memory) × (exec (free pool 1 4296 100) memory ≡ some (tt, m'))
    × IsValid pool m' (update status 4296 (Status.free 0)) (update_list no_blocks 0 (4296 ∷ []))
    × Unlocked pool is_pool 0 m'
free_example =
    free-IsValid pool is_pool memory status no_blocks is_valid 4296 100 0 0 refl idx_100 refl

free-alloc_example :
    (m' : Memory) × (exec (free pool 1 4296 100 >>= λ _. alloc pool 1 300) memory ≡ some (4296, m'))
free-alloc_example =
    free-alloc pool is_pool memory status no_blocks is_valid 4296 100 300 0 0 refl idx_100 idx_300
      refl
  where
    idx_300 : size_class_idx 300 ≡ some 0
    idx_300 = unfold size_class_idx in refl
