-- ===== src/Shm/Interleave.antt =====
-- Several processes at work on one region: the steps between which the scheduler may switch.
use django_channels_shm.Prelude.{
  ℕ, zero, suc, ◌≡◌, ◌≢◌, refl, sym, ap, ◌∙◌, ==_refl, ne→==, ◌==◌, if◌then◌else◌, List, [], ◌∷◌,
  padded,
}
use django_channels_shm.Shm.{
  Memory, set_word, set_bytes, add64, Prog, ret, diverge, load, store, cas, fetch_add, read, write,
}

pub record System (A : Type 0) : Type 0 where
  pub memory : Memory
  pub procs : ℕ → Prog A

-- One access to the region, each of which is atomic. A program that has ended stays as it is.
unfoldable pub access : {A : Type 0} → Prog A → Memory → Prog A × Memory
access (ret a) m = (ret a, m)
access diverge m = (diverge, m)
access (load o f k) m = (k (m.word o f), m)
access (store o f v k) m = (k, set_word o f v m)
access (cas o f e d k) m = (k (m.word o f), if m.word o f == e then set_word o f d m else m)
access (fetch_add o f d k) m = (k (m.word o f), set_word o f (add64 (m.word o f) d) m)
access (read o f n k) m = (k (padded n (m.bytes o f)), m)
access (write o f d k) m = (k, set_bytes o f d m)

-- Process `i` does its next access.
abbrev pub step : {A : Type 0} → ℕ → System A → System A
step i s = record {
  memory = (access (s.procs i) s.memory).1;
  procs = λ j. if i == j then (access (s.procs i) s.memory).0 else s.procs j;
}

-- The states that some order of steps reaches.
pub data Reach {A : Type 0} (s : System A) : System A → Type 0 where
  start : Reach s s
  later : {t : System A} (i : ℕ) → Reach s t → Reach s (step i t)

-- The state that an order of steps reaches.
unfoldable pub run : {A : Type 0} → List ℕ → System A → System A
unfolding access
run [] s = s
run (i ∷ is) s = run is (step i s)

-- The order in which process `k` does the next `n` steps.
abbrev pub alone : ℕ → ℕ → List ℕ
alone zero k = []
alone (suc n) k = k ∷ alone n k

pub run-Reach_from :
    {A : Type 0} {s : System A} (is : List ℕ) (t : System A) → Reach s t → Reach s (run is t)
unfolding run access
run-Reach_from [] t h = h
run-Reach_from (i ∷ is) t h = run-Reach_from is (step i t) (later i h)

pub run-Reach : {A : Type 0} (s : System A) (is : List ℕ) → Reach s (run is s)
run-Reach s is = run-Reach_from is s start

-- What `n` accesses of one program do.
unfoldable pub walk : {A : Type 0} → ℕ → Prog A × Memory → Prog A × Memory
unfolding access
walk zero s = s
walk (suc n) (q, m) = walk n (access q m)

-- When process `k` does the next steps alone, the others stand still.
pub run-alone :
    {A : Type 0} (n k : ℕ) (t : System A) {p : Prog A} {m : Memory}
    → walk n (t.procs k, t.memory) ≡ (p, m)
    → ((run (alone n k) t).procs k ≡ p)
      × ((run (alone n k) t).memory ≡ m)
      × ((j : ℕ) → j ≢ k → (run (alone n k) t).procs j ≡ t.procs j)
unfolding run walk
run-alone zero k t e = (ap (λ s. s.0) e, ap (λ s. s.1) e, λ j n. refl)
run-alone (suc n) k t e =
    let (a, b, others) = run-alone n k (step k t) (rw (==_refl k) e) in
    (a, b, (λ j w. others j w ∙ rw (ne→== k j (λ q. w (sym q)))))
