-- ===== src/Shm/Critical.antt =====
-- Critical sections: the part of a program between the access that takes a lock and the one that
-- releases it, and what a lock is to guarantee.
use django_channels_shm.Prelude.{
  ℕ, ℕ_discrete, eq→==, ne→==, suc, padded, ◌≡◌, ◌≢◌, refl, ap, ◌∙◌, ◌⊎◌, inl, inr, Option, none,
  some, if◌then◌else◌, ◌==◌, List, ==_refl, fun_ext,
}
use django_channels_shm.Shm.{
  Memory, Prog, ret, diverge, load, store, cas, fetch_add, read, write, ◌>>=◌, exec,
}
use django_channels_shm.Shm.Exec.{set_word-apart}
use django_channels_shm.Shm.Interleave.{System, access, step, run, alone}

-- The rest of a critical section: its last access, and no other, releases the lock at `l`.
unfoldable pub Inside : {A : Type 0} → ℕ → Prog A → Type 0
Inside l (ret a) = ⊥
Inside l diverge = ⊥
Inside l (load o f k) = (v : ℕ) → Inside l (k v)
Inside {A} l (store o f v k) =
    ((o ≢ l) × Inside l k) ⊎ ((o ≡ l) × (f ≡ 0) × (v ≡ 0) × (r : A) × (k ≡ ret r))
Inside l (cas o f e d k) = ⊥
Inside l (fetch_add o f d k) = ⊥
Inside l (read o f n k) = (d : List ℕ) → Inside l (k d)
Inside l (write o f d k) = Inside l k

-- A part of a critical section that leaves the lock alone.
unfoldable pub Apart : {A : Type 0} → ℕ → Prog A → Type 0
Apart l (ret a) = Unit
Apart l diverge = ⊥
Apart l (load o f k) = (v : ℕ) → Apart l (k v)
Apart l (store o f v k) = (o ≢ l) × Apart l k
Apart l (cas o f e d k) = ⊥
Apart l (fetch_add o f d k) = ⊥
Apart l (read o f n k) = (d : List ℕ) → Apart l (k d)
Apart l (write o f d k) = Apart l k

pub Inside-bind :
    {A B : Type 0} (l : ℕ) (p : Prog A) (k : A → Prog B)
    → Apart l p
    → ((a : A) → Inside l (k a))
    → Inside l (p >>= k)
unfolding Inside Apart
Inside-bind l (ret a) k h i = i a
Inside-bind l diverge k h i = absurd h
Inside-bind l (load o f c) k h i = λ v. Inside-bind l (c v) k (h v) i
Inside-bind l (store o f v c) k h i = inl (h.0, Inside-bind l c k h.1 i)
Inside-bind l (cas o f e d c) k h i = absurd h
Inside-bind l (fetch_add o f d c) k h i = absurd h
Inside-bind l (read o f n c) k h i = λ d. Inside-bind l (c d) k (h d) i
Inside-bind l (write o f d c) k h i = Inside-bind l c k h i

pub Inside-ret : {A : Type 0} (l : ℕ) (r : A) {p : Prog A} → p ≡ ret r → ¬ Inside l p
unfolding Inside
Inside-ret l r q h = rw q at h

-- What one access of the process in the critical section does: it stays inside and keeps the lock
-- and what the rest of its run gives, or it has released the lock with its result.
abbrev pub Stays : ℕ → Prog ℕ → Memory → Prog ℕ → Memory → Type 0
Stays l p m p' m' = Inside l p' × (m'.word l 0 ≡ 1) × (exec p' m' ≡ exec p m)

abbrev pub Leaves : ℕ → Prog ℕ → Memory → Prog ℕ → Memory → Type 0
Leaves l p m p' m' = (r : ℕ) × (p' ≡ ret r) × (m'.word l 0 ≡ 0) × (exec p m ≡ some (r, m'))

pub Inside-access :
    (l : ℕ) (p : Prog ℕ) (m : Memory)
    → Inside l p
    → m.word l 0 ≡ 1
    → Stays l p m (access p m).0 (access p m).1 ⊎ Leaves l p m (access p m).0 (access p m).1
unfolding Inside access exec
Inside-access l (ret a) m h e = absurd h
Inside-access l diverge m h e = absurd h
Inside-access l (load o f k) m h e = inl (h _, e, refl)
Inside-access l (store o f v k) m (inl (n, h)) e = inl (h, set_word-apart o f v m l 0 n ∙ e, refl)
Inside-access l (store o f v k) m (inr (q, qf, qv, r, qk)) e =
    inr (r, qk, rw (q, qf, qv, ==_refl l), rw qk)
Inside-access l (cas o f x d k) m h e = absurd h
Inside-access l (fetch_add o f d k) m h e = absurd h
Inside-access l (read o f n k) m h e = inl (h _, e, refl)
Inside-access l (write o f d k) m h e = inl (h, e, refl)

abbrev pub finish : (ℕ → Option ℕ) → ℕ → ℕ → ℕ → Option ℕ
finish res i r = λ j. if i == j then some r else res j

pub finish-cases :
    (res : ℕ → Option ℕ) (i r j q : ℕ)
    → finish res i r j ≡ some q
    → ((i ≡ j) × (r ≡ q)) ⊎ (res j ≡ some q)
finish-cases res i r j q e = elim (ℕ_discrete i j) [
  | yes w ↦ inl (w, cc (rw (eq→== i j w) at e))
  | no n ↦ inr (rw (ne→== i j n) at e)
]

-- The specification: the programs run one after another, each of them alone, in any order. `res`
-- holds the results so far.
pub data Serial (program : ℕ → Prog ℕ) (m₀ : Memory) : Memory → (ℕ → Option ℕ) → Type 0 where
  begin : Serial program m₀ m₀ (λ _. none)
  runs :
      {m m' : Memory} {res : ℕ → Option ℕ} (i r : ℕ)
      → Serial program m₀ m res
      → res i ≡ none
      → exec (program i) m ≡ some (r, m')
      → Serial program m₀ m' (finish res i r)

-- The parts of a program may be grouped either way.
pub bind_assoc :
    {A B C : Type 0} (p : Prog A) (k : A → Prog B) (q : B → Prog C)
    → (p >>= k) >>= q ≡ p >>= λ a. k a >>= q
bind_assoc (ret a) k q = refl
bind_assoc diverge k q = refl
bind_assoc (load o f c) k q = ap (load o f) (fun_ext (λ v. bind_assoc (c v) k q))
bind_assoc (store o f v c) k q = ap (store o f v) (bind_assoc c k q)
bind_assoc (cas o f e d c) k q = ap (cas o f e d) (fun_ext (λ v. bind_assoc (c v) k q))
bind_assoc (fetch_add o f d c) k q = ap (fetch_add o f d) (fun_ext (λ v. bind_assoc (c v) k q))
bind_assoc (read o f n c) k q = ap (read o f n) (fun_ext (λ v. bind_assoc (c v) k q))
bind_assoc (write o f d c) k q = ap (write o f d) (bind_assoc c k q)

-- One more step before the others.
continue :
    (l k : ℕ) (t : System ℕ)
    → ((n r : ℕ) × ((run (alone n k) (step k t)).procs k ≡ ret r)
        × ((run (alone n k) (step k t)).memory.word l 0 ≡ 0))
    → (n r : ℕ) × ((run (alone n k) t).procs k ≡ ret r) × ((run (alone n k) t).memory.word l 0 ≡ 0)
unfolding run
continue l k t (n, r, e, u) = (suc n, r, e, u)

-- A process in its critical section ends it by its own accesses, and has then its result.
pub Inside-finishes :
    (l k : ℕ) (p : Prog ℕ) (t : System ℕ)
    → t.procs k ≡ p
    → Inside l p
    → (n r : ℕ) × ((run (alone n k) t).procs k ≡ ret r) × ((run (alone n k) t).memory.word l 0 ≡ 0)
unfolding Inside
Inside-finishes l k (ret a) t q h = absurd h
Inside-finishes l k diverge t q h = absurd h
Inside-finishes l k (load o f c) t q h = continue l k t (
    Inside-finishes l k (c (t.memory.word o f)) (step k t) (unfold access in rw (q, ==_refl k))
      (h _))
Inside-finishes l k (store o f v c) t q (inl (n, h)) =
    continue l k t (Inside-finishes l k c (step k t) (unfold access in rw (q, ==_refl k)) h)
Inside-finishes l k (store o f v c) t q (inr (qo, qf, qv, r, qc)) = (
  1,
  r,
  unfold access run in rw (q, ==_refl k, qc),
  unfold access run in rw (q, qo, qf, qv, ==_refl l),
)
Inside-finishes l k (cas o f x d c) t q h = absurd h
Inside-finishes l k (fetch_add o f d c) t q h = absurd h
Inside-finishes l k (read o f n c) t q h = continue l k t (
    Inside-finishes l k (c (padded n (t.memory.bytes o f))) (step k t)
      (unfold access in rw (q, ==_refl k)) (h _))
Inside-finishes l k (write o f d c) t q h =
    continue l k t (Inside-finishes l k c (step k t) (unfold access in rw (q, ==_refl k)) h)
