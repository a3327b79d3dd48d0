-- ===== src/Shm/Exec.antt =====
-- Runs of composed programs.
use django_channels_shm.Prelude.{ℕ, ◌≡◌, ◌≢◌, refl, Option, some, ne→==, arith}
use django_channels_shm.Shm.{
  Memory, set_word, Prog, ret, diverge, load, store, cas, fetch_add, read, write, ◌>>=◌, exec,
}

-- A run of a sequence goes on from the state in which its first part ends.
pub exec-bind :
    {A B : Type 0} (p : Prog A) (k : A → Prog B) (m : Memory) {a : A} {m' : Memory}
    → exec p m ≡ some (a, m')
    → exec (p >>= k) m ≡ exec (k a) m'
unfolding exec
exec-bind (ret x) k m h = cc
exec-bind diverge k m h = cc
exec-bind (load o f c) k m h = exec-bind (c (m.word o f)) k m h
exec-bind (store o f v c) k m h = exec-bind c k _ h
exec-bind (cas o f e d c) k m h = exec-bind (c (m.word o f)) k _ h
exec-bind (fetch_add o f d c) k m h = exec-bind (c (m.word o f)) k _ h
exec-bind (read o f n c) k m h = exec-bind (c _) k m h
exec-bind (write o f d c) k m h = exec-bind c k _ h

-- A store changes no other object.
pub set_word-apart :
    (o f v : ℕ) (m : Memory) (a g : ℕ) → o ≢ a → (set_word o f v m).word a g ≡ m.word a g
set_word-apart o f v m a g n = ground (arith, ne→== o a n)

-- A run of a sequence is a run of its first part and then one of the second.
pub exec-unbind :
    {A B : Type 0} (p : Prog A) (k : A → Prog B) (m : Memory) {b : B} {m' : Memory}
    → exec (p >>= k) m ≡ some (b, m')
    → (a : A) × (m₁ : Memory) × (exec p m ≡ some (a, m₁)) × (exec (k a) m₁ ≡ some (b, m'))
unfolding exec
exec-unbind (ret x) k m h = (x, m, refl, h)
exec-unbind diverge k m h = cc h
exec-unbind (load o f c) k m h = exec-unbind (c (m.word o f)) k m h
exec-unbind (store o f v c) k m h = exec-unbind c k _ h
exec-unbind (cas o f e d c) k m h = exec-unbind (c (m.word o f)) k _ h
exec-unbind (fetch_add o f d c) k m h = exec-unbind (c (m.word o f)) k _ h
exec-unbind (read o f n c) k m h = exec-unbind (c _) k m h
exec-unbind (write o f d c) k m h = exec-unbind c k _ h

-- A run has one result.
pub exec_unique :
    {A : Type 0} {o : Option (A × Memory)} {a b : A} {m n : Memory}
    → o ≡ some (a, m)
    → o ≡ some (b, n)
    → (a ≡ b) × (m ≡ n)
exec_unique e e' = (cc (e, e'), cc (e, e'))
