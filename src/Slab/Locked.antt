-- ===== src/Slab/Locked.antt =====
-- The spinlock of a size class: processes that each take it, work and release it.
use django_channels_shm.Prelude.{
  ℕ, zero, suc, ◌≡◌, ◌≢◌, refl, sym, ◌∙◌, ◌⊎◌, inl, inr, Option, none, some, if◌then◌else◌, ◌==◌,
  ==_refl, ne→==, eq→==, ℕ_discrete,
}
use mathlib.Core.Path.{subst}
use django_channels_shm.Shm.{Memory, set_word, Prog, ret, ◌>>=◌, exec}
use django_channels_shm.Shm.Interleave.{System, access, Reach, start, later}
use django_channels_shm.Shm.Critical.{
  Inside, Stays, Leaves, Inside-access, finish, Serial, begin, runs,
}
use django_channels_shm.Slab.{SlabAllocator, spinlock_offset, spinlock_acquire}

-- Processes whose programs are `body i` behind the lock of class `c`, at `l`.
module _ (slab : SlabAllocator) (c : ℕ) (body : ℕ → Prog ℕ) where
  abbrev pub guarded : ℕ → ℕ → Prog ℕ
  guarded rounds i = spinlock_acquire slab rounds c >>= λ _. body i

  -- A process outside the critical section still waits for the lock or has ended.
  abbrev pub Settled : ℕ → Prog ℕ → Option ℕ → Type 0
  Settled i p o =
      ((n : ℕ) × (p ≡ guarded n i) × (o ≡ none)) ⊎ ((r : ℕ) × (p ≡ ret r) × (o ≡ some r))

  abbrev pub held : Memory → ℕ
  held m = m.word (spinlock_offset slab c) 0

  -- Such a process has ended only with its result, and is not in a critical section.
  pub Settled-ret : (i r : ℕ) {p : Prog ℕ} {o : Option ℕ} → Settled i p o → p ≡ ret r → o ≡ some r
  unfolding spinlock_acquire
  Settled-ret i r (inl (zero, q, u)) e = absurd (cc (sym q ∙ e))
  Settled-ret i r (inl (suc n, q, u)) e = absurd (cc (sym q ∙ e))
  Settled-ret i r (inr (x, q, u)) e = cc (q, u, e)

  pub Settled-Outside : (i l : ℕ) {p : Prog ℕ} {o : Option ℕ} → Settled i p o → ¬ Inside l p
  unfolding spinlock_acquire Inside
  Settled-Outside i l (inl (zero, q, u)) e = rw q at e
  Settled-Outside i l (inl (suc n, q, u)) e = rw q at e
  Settled-Outside i l (inr (x, q, u)) e = rw q at e

  -- Either nobody holds the lock, and the memory is that of a serial run; or process `h` holds it,
  -- and the rest of its run does what its whole program does after a serial run.
  pub data Phase (m₀ : Memory) (t : System ℕ) : Type 0 where
    idle :
        (res : ℕ → Option ℕ)
        → Serial (guarded 1) m₀ t.memory res
        → held t.memory ≡ 0
        → ((i : ℕ) → Settled i (t.procs i) (res i))
        → Phase m₀ t
    busy :
        (h : ℕ) (m : Memory) (res : ℕ → Option ℕ)
        → Serial (guarded 1) m₀ m res
        → res h ≡ none
        → held t.memory ≡ 1
        → Inside (spinlock_offset slab c) (t.procs h)
        → exec (t.procs h) t.memory ≡ exec (guarded 1 h) m
        → ((i : ℕ) → i ≢ h → Settled i (t.procs i) (res i))
        → Phase m₀ t

  access-wait :
      (i n : ℕ) (p : Prog ℕ) (m : Memory)
      → held m ≡ 1
      → p ≡ guarded (suc n) i
      → access p m ≡ (guarded n i, m)
  unfolding access spinlock_acquire
  access-wait i n p m e q = rw (q, e)

  -- While another process holds the lock, a process outside only waits.
  Settled-access :
      (i : ℕ) (p : Prog ℕ) (o : Option ℕ) (m : Memory)
      → held m ≡ 1
      → Settled i p o
      → Settled i (access p m).0 o × ((access p m).1 ≡ m)
  unfolding access spinlock_acquire
  Settled-access i p o m e (inl (zero, q, u)) = rw q (inl (0, refl, u), refl)
  Settled-access i p o m e (inl (suc n, q, u)) =
      rw (access-wait i n p m e q) (inl (n, refl, u), refl)
  Settled-access i p o m e (inr (r, q, u)) = rw q (inr (r, refl, u), refl)

  access-take :
      (i n : ℕ) (p : Prog ℕ) (m : Memory)
      → held m ≡ 0
      → p ≡ guarded (suc n) i
      → access p m ≡ (body i, set_word (spinlock_offset slab c) 0 1 m)
  unfolding access spinlock_acquire
  access-take i n p m e q = rw (q, e)

  access-none : (i : ℕ) (p : Prog ℕ) (m : Memory) → p ≡ guarded 0 i → access p m ≡ (guarded 0 i, m)
  unfolding access spinlock_acquire
  access-none i p m q = rw q

  access-ret : (r : ℕ) (p : Prog ℕ) (m : Memory) → p ≡ ret r → access p m ≡ (ret r, m)
  unfolding access
  access-ret r p m q = rw q

  exec-take :
      (i : ℕ) (m : Memory)
      → held m ≡ 0
      → exec (guarded 1 i) m ≡ exec (body i) (set_word (spinlock_offset slab c) 0 1 m)
  unfolding exec spinlock_acquire
  exec-take i m e = rw (e, exec)

  put : System ℕ → ℕ → Prog ℕ × Memory → System ℕ
  put t j (p, m) = record { memory = m; procs = λ i. if j == i then p else t.procs i }

  Settled-put :
      (procs : ℕ → Prog ℕ) (res : ℕ → Option ℕ) (j : ℕ) (p : Prog ℕ) (i : ℕ)
      → Settled j p (res j)
      → (i ≢ j → Settled i (procs i) (res i))
      → Settled i (if j == i then p else procs i) (res i)
  Settled-put procs res j p i one all = elim (ℕ_discrete j i) [
    | yes e ↦ rw (eq→== j i e) (subst (λ x. Settled x p (res x)) e one)
    | no n ↦ rw (ne→== j i n) (all (λ e. n (sym e)))
  ]

  module _ (m₀ : Memory) (t : System ℕ) (j : ℕ) where
    -- The process in the critical section goes on.
    holder-step :
        (m : Memory) (res : ℕ → Option ℕ) (p' : Prog ℕ) (m' : Memory)
        → Serial (guarded 1) m₀ m res
        → res j ≡ none
        → exec (t.procs j) t.memory ≡ exec (guarded 1 j) m
        → ((i : ℕ) → i ≢ j → Settled i (t.procs i) (res i))
        → Stays (spinlock_offset slab c) (t.procs j) t.memory p' m'
          ⊎ Leaves (spinlock_offset slab c) (t.procs j) t.memory p' m'
        → Phase m₀ (put t j (p', m'))
    unfolding put
    holder-step m res p' m' s u ran all (inl (inside, e, same)) =
        busy j m res s u e (rw (==_refl j) inside) (rw (==_refl j) (same ∙ ran))
          (λ i n. rw (ne→== j i (λ q. n (sym q))) (all i n))
    holder-step m res p' m' s u ran all (inr (r, q, e, done)) =
        idle (finish res j r) (runs j r s u (sym ran ∙ done)) e (λ i.
          Settled-put t.procs (finish res j r) j p' i (inr (r, q, rw (==_refl j)))
            (λ n. rw (ne→== j i (λ q. n (sym q))) (all i n)))

    unchanged :
        {p : Prog ℕ} (res : ℕ → Option ℕ)
        → Serial (guarded 1) m₀ t.memory res
        → held t.memory ≡ 0
        → ((i : ℕ) → Settled i (t.procs i) (res i))
        → access (t.procs j) t.memory ≡ (p, t.memory)
        → Settled j p (res j)
        → Phase m₀ (put t j (access (t.procs j) t.memory))
    unfolding put
    unchanged res s e all q one =
        rw q (idle res s e (λ i. Settled-put t.procs res j _ i one (λ _. all i)))

    step-Phase :
        ((i : ℕ) → Inside (spinlock_offset slab c) (body i))
        → Phase m₀ t
        → Phase m₀ (put t j (access (t.procs j) t.memory))
    unfolding put
    step-Phase critical (busy h m res s u e inside ran all) = elim (ℕ_discrete j h) [
      | yes q ↦
          holder-step m res _ _ s (rw q u)
            (subst (λ x. exec (t.procs x) t.memory ≡ exec (guarded 1 x) m) (sym q) ran)
            (λ i n. all i (λ w. n (w ∙ sym q)))
            (Inside-access (spinlock_offset slab c) (t.procs j) t.memory (rw q inside) e)
      | no n ↦
          let (settled, same) = Settled-access j (t.procs j) (res j) t.memory e (all j n) in
          rw same (
            busy h m res s u e (rw (ne→== j h n) inside) (rw (ne→== j h n) ran)
              (λ i ni. Settled-put t.procs res j _ i settled (λ _. all i ni)))
    ]
    step-Phase critical (idle res s e all) = elim (all j) [
      | inl (zero, q, u) ↦
          unchanged res s e all (access-none j (t.procs j) t.memory q) (inl (0, refl, u))
      | inl (suc n, q, u) ↦ rw (access-take j n (t.procs j) t.memory e q) (
          busy j t.memory res s u (rw (==_refl (spinlock_offset slab c)))
            (rw (==_refl j) (critical j)) (rw (==_refl j) (sym (exec-take j t.memory e)))
            (λ i n. rw (ne→== j i (λ q. n (sym q))) (all i)))
      | inr (r, q, u) ↦
          unchanged res s e all (access-ret r (t.procs j) t.memory q) (inr (r, refl, u))
    ]

  pub Reach-Phase :
      (m₀ : Memory) (rounds : ℕ)
      → ((i : ℕ) → Inside (spinlock_offset slab c) (body i))
      → held m₀ ≡ 0
      → {t : System ℕ} → Reach (record { memory = m₀; procs = guarded rounds }) t
      → Phase m₀ t
  unfolding put
  Reach-Phase m₀ rounds critical e start = idle (λ _. none) begin e (λ i. inl (rounds, refl, refl))
  Reach-Phase m₀ rounds critical e (later {t = t} i h) =
      step-Phase m₀ t i critical (Reach-Phase m₀ rounds critical e h)
