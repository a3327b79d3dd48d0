-- ===== src/Ring/Concurrent/Course.antt =====
-- A run: what holds between two accesses goes on to hold.
use django_channels_shm.Prelude.{
  ℕ, ◌+◌, ◌*◌, ◌^◌, ◌≤◌, ◌<◌, sym, List, [], ◌∷◌, length, ℕ_discrete, eq→==, ne→==, arith,
}
use mathlib.Core.Path.{subst}
use django_channels_shm.Shm.{Memory, Prog}
use django_channels_shm.Shm.Interleave.{System, access, step, run}
use django_channels_shm.Ring.Concurrent.{Call, Outcome}
use django_channels_shm.Ring.Concurrent.Senders.{IsSent}
use django_channels_shm.Ring.Concurrent.Receivers.{IsDelivery}
use django_channels_shm.Ring.Concurrent.Invariant.{
  History, IsShared, Part, Part-other, seeks, fills, has_sent, looks, empties, has_received,
}
use django_channels_shm.Ring.Concurrent.Steps.{Next, leave}
use django_channels_shm.Ring.Concurrent.Sends.{fill, seek}
use django_channels_shm.Ring.Concurrent.Receives.{look, empty}

module _ (ring cap inline_size gen : ℕ) (two : 2 ≤ cap) (calls : ℕ → Call) where
  -- The state after at most `n` accesses.
  pub record Going (n : ℕ) (t : System Outcome) : Type 0 where
    pub history : History
    pub shared : IsShared ring cap inline_size gen calls history t.memory
    pub slow : history.enq ≤ n
    pub parts : (j : ℕ) → Part ring cap inline_size gen calls history t.memory j (t.procs j)

  next :
      (g : History) (m : Memory) (i : ℕ) (p : Prog Outcome)
      → IsShared ring cap inline_size gen calls g m
      → g.enq + 2 * cap < 2 ^ 64
      → Part ring cap inline_size gen calls g m i p
      → Next ring cap inline_size gen two calls i g m (access p m).0 (access p m).1
  next g m i p s room (seeks msg owner x v c l up new k) =
      seek ring cap inline_size gen two calls i g m s room msg owner x v p c l up new k
  next g m i p s room (fills q a e by view k) =
      fill ring cap inline_size gen two calls i g m s room q a p e by view k
  next g m i p s room (has_sent k) =
      leave ring cap inline_size gen two calls i g m s IsSent (λ m' p' h. has_sent h) p k
  next g m i p s room (looks x v l up k) =
      look ring cap inline_size gen two calls i g m s room x v p l up k
  next g m i p s room (empties q a e by view k) =
      empty ring cap inline_size gen two calls i g m s room q a p e by view k
  next g m i p s room (has_received q l e by k) =
      leave ring cap inline_size gen two calls i g m s (IsDelivery (g.message q))
        (λ m' p' h. has_received q l e by h) p k

  go : (n i : ℕ) (t : System Outcome) → n + 2 * cap < 2 ^ 64 → Going n t → Going (n + 1) (step i t)
  go n i t room a =
      let after =
        next a.history t.memory i (t.procs i) a.shared (omega (arith, room, a.slow)) (a.parts i) in
      record {
        history = after.history;
        shared = after.shared;
        slow = omega (arith, after.slow, a.slow);
        parts = λ j. elim (ℕ_discrete i j) [
          | yes e ↦ rw (eq→== i j e) (
              subst
                (λ (k : ℕ).
                  Part ring cap inline_size gen calls after.history (access (t.procs i) t.memory).1
                    k (access (t.procs i) t.memory).0)
                e after.part)
          | no d ↦ rw (ne→== i j d) (
              Part-other ring cap inline_size gen calls a.history after.history t.memory
                (access (t.procs i) t.memory).1 i j (t.procs j) a.shared after.rely (λ w. d (sym w))
                (a.parts j))
        ];
      }

  pub go_on :
      (is : List ℕ) (n : ℕ) (t : System Outcome)
      → n + length is + 2 * cap < 2 ^ 64
      → Going n t
      → Going (n + length is) (run is t)
  unfolding run access
  go_on [] n t room a = subst (λ (k : ℕ). Going k t) (omega arith) a
  go_on (i ∷ is) n t room a =
      subst (λ (k : ℕ). Going k (run is (step i t))) (omega arith)
        (go_on is (n + 1) (step i t) (omega (arith, room)) (go n i t (omega (arith, room)) a))
