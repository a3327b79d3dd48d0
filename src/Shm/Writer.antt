-- ===== src/Shm/Writer.antt =====
-- One process that writes, and any number of others that only read.
use django_channels_shm.Prelude.{
  ℕ, zero, suc, ◌≤◌, ◌≡◌, ◌≢◌, refl, sym, ap, ap₂, ◌∙◌, padded, ◌==◌, if◌then◌else◌, eq→==, ne→==,
  ℕ_discrete, arith,
}
use mathlib.Core.Path.{subst}
use django_channels_shm.Shm.{Memory, Prog, ret, diverge, load, store, cas, fetch_add, read, write}
use django_channels_shm.Shm.Interleave.{System, access, step, Reach, start, later, walk}

pub walk-suc :
    {A : Type 0} (n : ℕ) (s : Prog A × Memory) → walk (suc n) s ≡ access (walk n s).0 (walk n s).1
unfolding walk
walk-suc zero s = refl
walk-suc (suc n) (p, m) = walk-suc n (access p m)

pub walk-ret : {A : Type 0} (n : ℕ) (a : A) (m : Memory) → walk n (ret a, m) ≡ (ret a, m)
unfolding walk access
walk-ret zero a m = refl
walk-ret (suc n) a m = walk-ret n a m

-- The writer's program, and the region before it.
module _ {A : Type 0} (w : Prog A) (m : Memory) where
  -- The region after `n` accesses of the writer.
  abbrev pub after : ℕ → Memory
  after n = (walk n (w, m)).1

  -- A reader that has come so far when the writer has done `n` accesses: whatever the writer does
  -- between the reader's accesses, the reader writes nothing and its answer is `Good`.
  unfoldable pub Safe : (A → Type 0) → ℕ → Prog A → Type 0
  Safe Good n (ret a) = Good a
  Safe Good n diverge = Unit
  Safe Good n (load o f k) = (i : ℕ) → n ≤ i → Safe Good i (k ((after i).word o f))
  Safe Good n (store o f v k) = ⊥
  Safe Good n (cas o f e d k) = ⊥
  Safe Good n (fetch_add o f d k) = ⊥
  Safe Good n (read o f l k) = (i : ℕ) → n ≤ i → Safe Good i (k (padded l ((after i).bytes o f)))
  Safe Good n (write o f d k) = ⊥

  module _ (Good : A → Type 0) where
    pub Safe-later : (p : Prog A) (n i : ℕ) → n ≤ i → Safe Good n p → Safe Good i p
    unfolding Safe
    Safe-later (ret a) n i h s = s
    Safe-later diverge n i h s = s
    Safe-later (load o f k) n i h s = λ j l. s j (omega arith)
    Safe-later (store o f v k) n i h s = s
    Safe-later (cas o f e d k) n i h s = s
    Safe-later (fetch_add o f d k) n i h s = s
    Safe-later (read o f l k) n i h s = λ j g. s j (omega arith)
    Safe-later (write o f d k) n i h s = s

    -- One access of a reader.
    Safe-access :
        (p : Prog A) (n : ℕ) (c : Memory)
        → c ≡ after n
        → Safe Good n p
        → Safe Good n (access p c).0 × ((access p c).1 ≡ c)
    unfolding Safe access
    Safe-access (ret a) n c e s = (s, refl)
    Safe-access diverge n c e s = (s, refl)
    Safe-access (load o f k) n c e s = (rw e (s n (omega arith)), refl)
    Safe-access (store o f v k) n c e s = absurd s
    Safe-access (cas o f x d k) n c e s = absurd s
    Safe-access (fetch_add o f d k) n c e s = absurd s
    Safe-access (read o f l k) n c e s = (rw e (s n (omega arith)), refl)
    Safe-access (write o f d k) n c e s = absurd s

  -- `Good i` is what the answer of process `i` may be.
  module _ (Good : ℕ → A → Type 0) where
    -- In every reachable state the region is as the writer alone has made it so far, and the readers
    -- are on their way to good answers.
    record Underway (t : System A) : Type 0 where
      n : ℕ
      program : t.procs 0 ≡ (walk n (w, m)).0
      memory : t.memory ≡ (walk n (w, m)).1
      readers : (i : ℕ) → i ≢ 0 → Safe (Good i) n (t.procs i)

    Underway-step : (t : System A) (i : ℕ) → Underway t → Underway (step i t)
    Underway-step t i u = elim (ℕ_discrete i 0) [
      | yes e ↦
          let moved : access (t.procs i) t.memory ≡ walk (suc u.n) (w, m) =
            ap (λ x. access (t.procs x) t.memory) e
            ∙ ap₂ access u.program u.memory
            ∙ sym (walk-suc u.n (w, m)) in
          record {
            n = suc u.n;
            program = rw (eq→== i 0 e) (ap (λ s. s.0) moved);
            memory = ap (λ s. s.1) moved;
            readers = λ j d.
                rw (ne→== i j (λ q. d (sym q ∙ e)))
                  (Safe-later (Good j) (t.procs j) u.n (suc u.n) (omega arith) (u.readers j d));
          }
      | no d ↦
          let (safe, same) =
            Safe-access (Good i) (t.procs i) u.n t.memory u.memory (u.readers i d) in
          record {
            n = u.n;
            program = rw (ne→== i 0 d) u.program;
            memory = same ∙ u.memory;
            readers = λ j dj. elim (ℕ_discrete i j) [
              | yes q ↦
                  rw (eq→== i j q)
                    (subst (λ x. Safe (Good x) u.n (access (t.procs i) t.memory).0) q safe)
              | no ne ↦ rw (ne→== i j ne) (u.readers j dj)
            ];
          }
    ]

    Reach-Underway :
        (readers : ℕ → Prog A)
        → ((i : ℕ) → i ≢ 0 → Safe (Good i) 0 (readers i))
        → {t : System A}
        → Reach (record { memory = m; procs = λ i. if i == 0 then w else readers i }) t
        → Underway t
    Reach-Underway readers safe start = record {
      n = 0;
      program = unfold walk in refl;
      memory = unfold walk in refl;
      readers = λ i d. rw (ne→== i 0 d) (safe i d);
    }
    Reach-Underway readers safe (later {t = t} i h) =
        Underway-step t i (Reach-Underway readers safe h)

    -- A reader that has ended has a good answer.
    pub reader-Good :
        (readers : ℕ → Prog A) (t : System A) (i : ℕ) (a : A)
        → ((i : ℕ) → i ≢ 0 → Safe (Good i) 0 (readers i))
        → Reach (record { memory = m; procs = λ i. if i == 0 then w else readers i }) t
        → i ≢ 0
        → t.procs i ≡ ret a
        → Good i a
    unfolding Safe
    reader-Good readers t i a safe h d e =
        let u = Reach-Underway readers safe h in subst (λ p. Safe (Good i) u.n p) e (u.readers i d)
