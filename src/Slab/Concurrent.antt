-- ===== src/Slab/Concurrent.antt =====
-- Several processes at `alloc` and `free`, for blocks of one size class.
use django_channels_shm.Prelude.{
  ℕ, ◌<◌, ◌≡◌, ◌≢◌, refl, sym, ◌∙◌, Option, some, arith, ℕ_discrete, fun_ext,
}
use mathlib.Core.Path.{subst}
use django_channels_shm.Shm.{Memory, Prog, ret}
use django_channels_shm.Shm.Interleave.{System, Reach, run, alone}
use django_channels_shm.Shm.Critical.{Inside, Inside-ret, Inside-finishes, Serial}
use django_channels_shm.Slab.{SlabAllocator, spinlock_offset}
use django_channels_shm.Slab.Invariant.{IsPool}
use django_channels_shm.Slab.Locked.{
  guarded, Settled, Settled-ret, Settled-Outside, Phase, idle, busy, Reach-Phase,
}
use django_channels_shm.Slab.Requests.{
  Request, program, OfClass, locked_part, program-guarded, locked_part-Inside,
}

-- A process for each request, none of which has begun.
abbrev pub requested : SlabAllocator → ℕ → (ℕ → Request) → Memory → System ℕ
requested slab rounds requests m = record {
  memory = m;
  procs = λ i. program slab rounds (requests i);
}

module _ (slab : SlabAllocator) (p : IsPool slab) (c : ℕ) (h : c < 12) (requests : ℕ → Request)
    (of_class : (i : ℕ) → OfClass slab c (requests i)) (m₀ : Memory)
    (unlocked : m₀.word (spinlock_offset slab c) 0 ≡ 0) (rounds : ℕ) (t : System ℕ)
    (reach : Reach (requested slab rounds requests m₀) t) where
  body : ℕ → Prog ℕ
  body i = locked_part slab c (requests i)

  programs : (n : ℕ) → (λ i. program slab n (requests i)) ≡ guarded slab c body n
  unfolding body
  programs n = fun_ext (λ i. program-guarded slab p c h n (requests i) (of_class i))

  phase : Phase slab c body m₀ t
  unfolding body
  phase =
      Reach-Phase slab c body m₀ rounds
        (λ i. locked_part-Inside slab p c h (requests i) (of_class i)) unlocked
        (subst (λ ps. Reach (record { memory = m₀; procs = ps }) t) (programs rounds) reach)

  -- Linearisability: each process makes one call of `alloc` or `free` of one size class, whose lock is
  -- free at first; a returned block lies behind the metadata. However the accesses of the processes
  -- are interleaved, whenever nobody holds the lock the region is what some of the calls make of it
  -- one after another, each of them alone, and every call that has ended has the result that it has
  -- in that serial run.
  pub serial :
      t.memory.word (spinlock_offset slab c) 0 ≡ 0
      → (res : ℕ → Option ℕ) × Serial (λ i. program slab 1 (requests i)) m₀ t.memory res
        × ((i r : ℕ) → t.procs i ≡ ret r → res i ≡ some r)
  serial free = go phase
    where
      go :
          Phase slab c body m₀ t
          → (res : ℕ → Option ℕ) × Serial (λ i. program slab 1 (requests i)) m₀ t.memory res
            × ((i r : ℕ) → t.procs i ≡ ret r → res i ≡ some r)
      go (idle res s e all) = (
        res,
        subst (λ ps. Serial ps m₀ t.memory res) (sym (programs 1)) s,
        (λ i r q. Settled-ret slab c body i r (all i) q),
      )
      go (busy k m res s u e inside ran all) = absurd (omega arith)

  Inside-holder :
      (res : ℕ → Option ℕ) (k i : ℕ)
      → ((j : ℕ) → j ≢ k → Settled slab c body j (t.procs j) (res j))
      → Inside (spinlock_offset slab c) (t.procs i)
      → i ≡ k
  Inside-holder res k i all inside = elim (ℕ_discrete i k) [
    | yes e ↦ e
    | no n ↦ absurd (Settled-Outside slab c body i (spinlock_offset slab c) (all i n) inside)
  ]

  -- Mutual exclusion: of such processes at most one is in its critical section, in every state that
  -- an interleaving reaches, and the lock is then taken.
  pub mutex :
      (i j : ℕ)
      → Inside (spinlock_offset slab c) (t.procs i)
      → Inside (spinlock_offset slab c) (t.procs j)
      → (i ≡ j) × (t.memory.word (spinlock_offset slab c) 0 ≡ 1)
  mutex i j one two = go phase
    where
      go : Phase slab c body m₀ t → (i ≡ j) × (t.memory.word (spinlock_offset slab c) 0 ≡ 1)
      go (idle res s e all) =
          absurd (Settled-Outside slab c body i (spinlock_offset slab c) (all i) one)
      go (busy k m res s u e inside ran all) =
          (Inside-holder res k i all one ∙ sym (Inside-holder res k j all two), e)

  -- The results so far are those of a serial run, also while the lock is held.
  pub results :
      (m : Memory) × (res : ℕ → Option ℕ) × Serial (λ i. program slab 1 (requests i)) m₀ m res
      × ((i r : ℕ) → t.procs i ≡ ret r → res i ≡ some r)
  results = go phase
    where
      go :
          Phase slab c body m₀ t
          → (m : Memory) × (res : ℕ → Option ℕ) × Serial (λ i. program slab 1 (requests i)) m₀ m res
            × ((i r : ℕ) → t.procs i ≡ ret r → res i ≡ some r)
      go (idle res s e all) = (
        t.memory,
        res,
        subst (λ ps. Serial ps m₀ t.memory res) (sym (programs 1)) s,
        (λ i r q. Settled-ret slab c body i r (all i) q),
      )
      go (busy k m res s u e inside ran all) = (
        m,
        res,
        subst (λ ps. Serial ps m₀ m res) (sym (programs 1)) s,
        (λ i r q. elim (ℕ_discrete i k) [
          | yes w ↦
              absurd
                (Inside-ret (spinlock_offset slab c) r (subst (λ x. t.procs x ≡ ret r) w q) inside)
          | no n ↦ Settled-ret slab c body i r (all i n) q
        ]),
      )

  -- Progress: in every state that an interleaving of such processes reaches with the lock taken, some
  -- process comes to its end, with a result and the lock released, by a number of its own next
  -- accesses, whatever the others have done and without any of them.
  pub lock-released :
      t.memory.word (spinlock_offset slab c) 0 ≢ 0
      → (k n r : ℕ) × ((run (alone n k) t).procs k ≡ ret r)
        × ((run (alone n k) t).memory.word (spinlock_offset slab c) 0 ≡ 0)
  lock-released taken = go phase
    where
      go :
          Phase slab c body m₀ t
          → (k n r : ℕ) × ((run (alone n k) t).procs k ≡ ret r)
            × ((run (alone n k) t).memory.word (spinlock_offset slab c) 0 ≡ 0)
      go (idle res s e all) = absurd (taken e)
      go (busy k m res s u e inside ran all) =
          let (n, r, ended, released) =
            Inside-finishes (spinlock_offset slab c) k (t.procs k) t refl inside in
          (k, n, r, ended, released)
