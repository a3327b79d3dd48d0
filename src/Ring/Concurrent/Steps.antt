-- ===== src/Ring/Concurrent/Steps.antt =====
-- One access of a process: the history after it, what holds of the ring then, what the others can rely
-- on, and the part that the process plays then.
use django_channels_shm.Prelude.{
  ℕ, ◌+◌, ◌^◌, ◌≤◌, ◌<◌, ◌≡◌, refl, sym, ap, inl, inr, ℕ_discrete, eq→==, ==_refl, ne→==, List,
  overlay, arith,
}
use mathlib.Core.Path.{subst}
use native.Mathlib.Nat.{mod-eq_of_lt}
use django_channels_shm.Shm.{
  Memory, set_word, set_bytes, add64, Prog, ret, diverge, load, store, cas, fetch_add, read, write,
}
use django_channels_shm.Shm.Interleave.{access}
use django_channels_shm.Ring.Concurrent.{Call, Outcome}
use django_channels_shm.Ring.Concurrent.Roles.{Owning, Leaving, BytesField}
use django_channels_shm.Ring.Concurrent.Invariant.{claimed, History, IsShared, Rely, Part, View}
use django_channels_shm.Ring.Concurrent.Quiet.{
  two_some, Alike, Alike-Shared, Alike-Rely, owner-Alike,
}

-- The same store in both memories.
pub View-set_word :
    (so f w : ℕ) (a m : Memory) → View so a m → View so (set_word so f w a) (set_word so f w m)
View-set_word so f w a m v = (
  (λ k h. elim (ℕ_discrete f k) [
    | yes e ↦ rw (eq→== f k e, ==_refl so)
    | no n ↦ rw (ne→== f k n) (v.0 k h)
  ]),
  v.1,
)

pub View-set_bytes :
    (so f : ℕ) (d : List ℕ) (a m : Memory)
    → View so a m
    → View so (set_bytes so f d a) (set_bytes so f d m)
View-set_bytes so f d a m v = (
  v.0,
  (λ k h. elim (ℕ_discrete f k) [
    | yes e ↦ rw (eq→== f k e, ==_refl so) (ap (overlay d) (v.1 f (subst BytesField (sym e) h)))
    | no n ↦ rw (ne→== f k n) (v.1 k h)
  ]),
)

pub add64_small : (a b : ℕ) → a + b < 2 ^ 64 → add64 a b ≡ a + b
add64_small a b h = mod-eq_of_lt h

module _ (ring cap inline_size gen : ℕ) (two : 2 ≤ cap) (calls : ℕ → Call) (i : ℕ) where
  -- What there is after an access of process `i` to the memory `m`.
  pub record Next (g : History) (m : Memory) (p : Prog Outcome) (m' : Memory) : Type 0 where
    pub history : History
    pub slow : history.enq ≤ g.enq + 1
    pub shared : IsShared ring cap inline_size gen calls history m'
    pub rely : Rely ring cap inline_size gen calls i g m history m'
    pub part : Part ring cap inline_size gen calls history m' i p

  module _ (g : History) (m : Memory) (s : IsShared ring cap inline_size gen calls g m) where
    -- Nothing in the ring changes but owner fields and fields of the slot that is being filled.
    pub quiet :
        (m' : Memory) (p : Prog Outcome) (Mine : ℕ → Type 0)
        → Alike ring cap inline_size gen (two_some two) calls g m m' Mine
        → ((q : ℕ) → Mine q → (g.phase q ≡ claimed) × (g.sender q ≡ i))
        → Part ring cap inline_size gen calls g m' i p
        → Next g m p m'
    quiet m' p Mine a mine part = record {
      history = g;
      slow = omega arith;
      shared =
          Alike-Shared ring cap inline_size gen (two_some two) calls g m m' Mine a s
            (λ q h. (mine q h).0);
      rely = Alike-Rely ring cap inline_size gen (two_some two) calls g m m' Mine a s i mine;
      part = part;
    }

    pub same-Alike : Alike ring cap inline_size gen (two_some two) calls g m m (λ _. ⊥)
    same-Alike = record {
      enq = refl;
      deq = refl;
      known = λ o f w k e. e;
      seqs = λ y. refl;
      views = λ p live n. ((λ f h. refl), (λ f h. refl));
    }

    pub looked : (p : Prog Outcome) → Part ring cap inline_size gen calls g m i p → Next g m p m
    looked p part = quiet m p (λ _. ⊥) same-Alike (λ q h. absurd h) part

    pub owned :
        (o f w : ℕ) (p : Prog Outcome)
        → Owning ring cap inline_size gen o f
        → Part ring cap inline_size gen calls g (set_word o f w m) i p
        → Next g m p (set_word o f w m)
    owned o f w p h part =
        quiet (set_word o f w m) p (λ _. ⊥)
          (owner-Alike ring cap inline_size gen (two_some two) calls g m o f w h) (λ q e. absurd e)
          part

    -- A process that is about to return.
    pub leave :
        (Fin : Outcome → Type 0)
        → ((m' : Memory) (p : Prog Outcome)
            → Leaving ring cap inline_size gen Fin p
            → Part ring cap inline_size gen calls g m' i p)
        → (p : Prog Outcome) → Leaving ring cap inline_size gen Fin p
        → Next g m (access p m).0 (access p m).1
    unfolding Leaving access
    leave Fin part (ret a) h = looked (ret a) (part m (ret a) h)
    leave Fin part diverge h = looked diverge (part m diverge h)
    leave Fin part (load o f k) (inl (w, e, h)) = looked _ (
        part m _
          (subst (λ (x : ℕ). Leaving ring cap inline_size gen Fin (k x)) (sym (s.known o f w e)) h))
    leave Fin part (load o f k) (inr h) = looked _ (part m _ (h (m.word o f)))
    leave Fin part (store o f w k) (own, h) = owned o f w k own (part (set_word o f w m) k h)
    leave Fin part (cas o f e d k) h = absurd h
    leave Fin part (fetch_add o f d k) h = absurd h
    leave Fin part (read o f n k) h = absurd h
    leave Fin part (write o f d k) h = absurd h
