-- ===== src/Tests/Concurrent.antt =====
-- Processes at the pool of the tests: a schedule in which two requests wait for each other, and
-- one in which two requests of different classes do not.
use django_channels_shm.Prelude.{
  ℕ, zero, ◌+◌, ◌≤◌, ◌≡◌, ◌⊎◌, refl, Option, some, [], ◌∷◌, ◌==◌, if◌then◌else◌, arith,
  position_from,
}
use django_channels_shm.Shm.{ret}
use django_channels_shm.Shm.Interleave.{System, Reach, access, run, alone, run-Reach}
use django_channels_shm.Shm.Critical.{Inside, Serial}
use django_channels_shm.Layout.SizeClass.{size_class_idx}
use django_channels_shm.Slab.{
  spinlock_acquire, spinlock_release, alloc, alloc_from_class, bump_alloc, pop_free,
}
use django_channels_shm.Slab.Requests.{take, program, locked_part, locked_part-Inside}
use django_channels_shm.Slab.Concurrent.{requested, serial, mutex, lock-released}
use django_channels_shm.Slab.Handout.{handout_apart}
use django_channels_shm.Slab.Race.{alloc_race}
use django_channels_shm.Tests.Slab.{pool, is_pool, memory, status, no_blocks, is_valid, idx_100}

abbrev sizes : ℕ → ℕ
sizes i = 100

abbrev first : System ℕ
first = requested pool 5 (λ i. take (sizes i)) memory

-- Process 1 finds the lock taken twice, then gets its block after process 0.
abbrev contended : System ℕ
contended = run (0 ∷ 1 ∷ 0 ∷ 0 ∷ 1 ∷ 0 ∷ 0 ∷ 1 ∷ 1 ∷ 1 ∷ 1 ∷ 1 ∷ []) first

contended_procs : (contended.procs 0 ≡ ret 4808) × (contended.procs 1 ≡ ret 5320)
unfolding run access program alloc size_class_idx position_from spinlock_acquire spinlock_release
    alloc_from_class bump_alloc pop_free
contended_procs = (refl, refl)

unlocked : contended.memory.word 4096 0 ≡ 0
unfolding run access program alloc size_class_idx position_from spinlock_acquire spinlock_release
    alloc_from_class bump_alloc pop_free
unlocked = refl

serial_example :
    (res : ℕ → Option ℕ) × Serial (λ i. program pool 1 (take (sizes i))) memory contended.memory res
    × ((i r : ℕ) → contended.procs i ≡ ret r → res i ≡ some r)
serial_example =
    serial pool is_pool 0 (omega arith) (λ i. take (sizes i)) (λ i. idx_100) memory refl 5 contended
      (run-Reach first (0 ∷ 1 ∷ 0 ∷ 0 ∷ 1 ∷ 0 ∷ 0 ∷ 1 ∷ 1 ∷ 1 ∷ 1 ∷ 1 ∷ [])) unlocked

handout_apart_example : (4808 + 100 ≤ 5320) ⊎ (5320 + 100 ≤ 4808)
handout_apart_example =
    handout_apart pool is_pool 0 sizes (λ i. idx_100) memory status no_blocks is_valid refl 5
      contended (run-Reach first (0 ∷ 1 ∷ 0 ∷ 0 ∷ 1 ∷ 0 ∷ 0 ∷ 1 ∷ 1 ∷ 1 ∷ 1 ∷ 1 ∷ [])) 0 1 4808 5320
      (λ q. omega (arith, q)) contended_procs.0 contended_procs.1 (λ q. omega (arith, q))
      (λ q. omega (arith, q))

-- Process 0 has the lock, and process 1 has tried to take it.
abbrev entered : System ℕ
entered = run (0 ∷ 1 ∷ []) first

entered-Inside : Inside 4096 (entered.procs 0)
unfolding run access program alloc size_class_idx position_from spinlock_acquire spinlock_release
    locked_part
entered-Inside = locked_part-Inside pool is_pool 0 (omega arith) (take 100) idx_100

held : entered.memory.word 4096 0 ≡ 1
unfolding run access program alloc size_class_idx position_from spinlock_acquire
held = refl

lock-released_example :
    (k n r : ℕ) × ((run (alone n k) entered).procs k ≡ ret r)
    × ((run (alone n k) entered).memory.word 4096 0 ≡ 0)
lock-released_example =
    lock-released pool is_pool 0 (omega arith) (λ i. take (sizes i)) (λ i. idx_100) memory refl 5
      entered (run-Reach first (0 ∷ 1 ∷ [])) (λ q. omega (arith, q, held))

mutex_example : (zero ≡ zero) × (entered.memory.word 4096 0 ≡ 1)
mutex_example =
    mutex pool is_pool 0 (omega arith) (λ i. take (sizes i)) (λ i. idx_100) memory refl 5 entered
      (run-Reach first (0 ∷ 1 ∷ [])) 0 0 entered-Inside entered-Inside

-- Requests of 100 and of 600 bytes.
abbrev two_sizes : ℕ → ℕ
two_sizes i = if i == 0 then 100 else 600

idx_600 : size_class_idx 600 ≡ some 1
unfolding size_class_idx position_from
idx_600 = refl

alloc_race_example :
    (t : System ℕ) × Reach (requested pool 1 (λ i. take (two_sizes i)) memory) t
    × (t.procs 0 ≡ ret 4808)
    × (t.procs 1 ≡ ret 4808)
alloc_race_example =
    alloc_race pool is_pool memory status no_blocks two_sizes 0 1 is_valid idx_100 idx_600
      (λ q. omega (arith, q)) refl refl refl refl (omega arith) (omega arith)
