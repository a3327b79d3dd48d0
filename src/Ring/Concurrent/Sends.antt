-- ===== src/Ring/Concurrent/Sends.antt =====
-- One access of a sender: it looks for a ticket and wins it, or fills its slot and publishes it.
use django_channels_shm.Prelude.{
  ℕ, ◌+◌, ◌%◌, ◌^◌, ◌*◌, ◌≤◌, ◌<◌, ◌≡◌, ◌≢◌, refl, sym, ap, ◌∙◌, inl, inr, ℕ_discrete, eq→==, ne→==,
  arith,
}
use mathlib.Core.Path.{subst}
use django_channels_shm.Shm.{
  Memory, set_word, set_bytes, Prog, ret, diverge, load, store, cas, fetch_add, read, write,
}
use django_channels_shm.Shm.Interleave.{access}
use django_channels_shm.Layout.{ring_enqueue_pos, slot_seq, slot_overflow_off}
use django_channels_shm.Ring.{OwnerIdentity}
use django_channels_shm.Ring.Contents.{Message, slot_of}
use django_channels_shm.Ring.Concurrent.{Call, send, Outcome}
use django_channels_shm.Ring.Concurrent.Roles.{Owning, Leaving, Written, Filling, Seeking}
use django_channels_shm.Ring.Concurrent.Senders.{IsRefused, IsSent}
use django_channels_shm.Ring.Concurrent.Invariant.{
  claimed, published, taken, Shows, History, IsShared, seeks, fills, has_sent, View, seq_at,
  claimed-IsLive,
}
use django_channels_shm.Ring.Concurrent.Quiet.{
  two_some, Written-View, field-apart, word-Alike, bytes-Alike, page-Alike,
}
use django_channels_shm.Ring.Concurrent.Counters.{put_self, next_ready}
use django_channels_shm.Ring.Concurrent.Claims.{claimed_by, claim-Shared, claim-Rely}
use django_channels_shm.Ring.Concurrent.Slots.{moved, move-Shared, move-Rely}
use django_channels_shm.Ring.Concurrent.Steps.{
  View-set_word, View-set_bytes, add64_small, Next, quiet, looked, owned,
}

module _ (ring cap inline_size gen : ℕ) (two : 2 ≤ cap) (calls : ℕ → Call) (i : ℕ) (g : History)
    (m : Memory) (s : IsShared ring cap inline_size gen calls g m)
    (room : g.enq + 2 * cap < 2 ^ 64) where
  -- The sender publishes its message.
  publish :
      (q : ℕ) (a : Memory) (k : Prog Outcome) (e : g.phase q ≡ claimed) (by : g.sender q ≡ i)
      → View (slot_of ring cap q) a m
      → Written a (slot_of ring cap q) (g.message q)
      → Leaving ring cap inline_size gen IsSent k
      → Next ring cap inline_size gen two calls i g m k
          (set_word (slot_of ring cap q) slot_seq (q + 1) m)
  publish q a k e by view w h =
      let live = claimed-IsLive e in
      let at : m.word (slot_of ring cap q) slot_seq ≡ q =
        subst (λ x. Shows x q (m.word (slot_of ring cap q) slot_seq)) e (s.shows q) in
      let held = Written-View (slot_of ring cap q) a m (g.message q) view w in
      record {
        history = moved g q published;
        shared =
            move-Shared ring cap inline_size gen two calls g m s q live (q + 1) i published
              (omega (arith, at)) refl held (λ _. inr refl) (inl tt) (λ _. by)
              (λ z. absurd (taken_claimed (sym z ∙ e)));
        slow = omega arith;
        rely =
            move-Rely ring cap inline_size gen two calls g m s q live (q + 1) i published
              (omega (arith, at)) refl held (λ _. inr refl) (inl tt) (λ _. by)
              (λ z. absurd (taken_claimed (sym z ∙ e)));
        part = has_sent h;
      }
    where
      taken_claimed : taken ≢ claimed
      taken_claimed z = cc z

  pub fill :
      (q : ℕ) (a : Memory) (p : Prog Outcome)
      → g.phase q ≡ claimed
      → g.sender q ≡ i
      → View (slot_of ring cap q) a m
      → Filling ring cap inline_size gen IsSent (g.message q) q p a
      → Next ring cap inline_size gen two calls i g m (access p m).0 (access p m).1
  unfolding Filling access
  fill q a (ret x) e by v h = absurd h
  fill q a diverge e by v h =
      looked ring cap inline_size gen two calls i g m s diverge (fills q a e by v h)
  fill q a (load o f k) e by v (inl (w, known, h)) =
      looked ring cap inline_size gen two calls i g m s (k (m.word o f)) (
        fills q a e by v (
          subst (λ (x : ℕ). Filling ring cap inline_size gen IsSent (g.message q) q (k x) a)
            (sym (s.known o f w known)) h))
  fill q a (load o f k) e by v (inr h) =
      looked ring cap inline_size gen two calls i g m s (k (m.word o f))
        (fills q a e by v (h (m.word o f)))
  fill q a (store o f w k) e by v (inl (own, h)) =
      owned ring cap inline_size gen two calls i g m s o f w k own
        (fills q a e by (owned_View own) h)
    where
      owned_View :
          Owning ring cap inline_size gen o f → View (slot_of ring cap q) a (set_word o f w m)
      owned_View (y, l, at, field) = (
        (λ n hn.
            field-apart o f w m (slot_of ring cap q) n (λ z. omega (arith, z, field, hn))
            ∙ v.0 n hn),
        v.1,
      )
  fill q a (store o f w k) e by v (inr (inl (at, field, h))) =
      subst
        (λ (o : ℕ).
          Filling ring cap inline_size gen IsSent (g.message q) q k (set_word o f w a)
          → Next ring cap inline_size gen two calls i g m k (set_word o f w m))
        (sym at)
        (λ h.
          quiet ring cap inline_size gen two calls i g m s (set_word (slot_of ring cap q) f w m) k
            (λ p. p ≡ q)
            (word-Alike ring cap inline_size gen (two_some two) calls g m q f w s (claimed-IsLive e)
              field)
            (λ p z. (ap (λ (x : ℕ). g.phase x) z ∙ e, ap (λ (x : ℕ). g.sender x) z ∙ by))
            (fills q (set_word (slot_of ring cap q) f w a) e by
              (View-set_word (slot_of ring cap q) f w a m v) h))
        h
  fill q a (store o f w k) e by v (inr (inr (inl (at, field, zero, h)))) =
      rw (at, field, zero)
        (quiet ring cap inline_size gen two calls i g m s
          (set_word (slot_of ring cap q) slot_overflow_off 0 m) k (λ _. ⊥)
          (page-Alike ring cap inline_size gen (two_some two) calls g m q) (λ p z. absurd z)
          (fills q a e by
            (
              (λ n hn.
                  field-apart (slot_of ring cap q) slot_overflow_off 0 m (slot_of ring cap q) n
                    (λ z. omega (arith, z, hn))
                  ∙ v.0 n hn),
              v.1,
            )
            h))
  fill q a (store o f w k) e by v (inr (inr (inr (at, field, next, held, h)))) =
      rw
        (at, field, next, add64_small q 1 (omega (arith, room, two, s.window q (claimed-IsLive e))))
        (publish q a k e by v held h)
  fill q a (cas o f x d k) e by v h = absurd h
  fill q a (fetch_add o f d k) e by v h = absurd h
  fill q a (read o f n k) e by v h = absurd h
  fill q a (write o f d k) e by v (at, field, h) =
      subst
        (λ (o : ℕ).
          Filling ring cap inline_size gen IsSent (g.message q) q k (set_bytes o f d a)
          → Next ring cap inline_size gen two calls i g m k (set_bytes o f d m))
        (sym at)
        (λ h.
          quiet ring cap inline_size gen two calls i g m s (set_bytes (slot_of ring cap q) f d m) k
            (λ p. p ≡ q)
            (bytes-Alike ring cap inline_size gen (two_some two) calls g m q f d s
              (claimed-IsLive e))
            (λ p z. (ap (λ (x : ℕ). g.phase x) z ∙ e, ap (λ (x : ℕ). g.sender x) z ∙ by))
            (fills q (set_bytes (slot_of ring cap q) f d a) e by
              (View-set_bytes (slot_of ring cap q) f d a m v) h))
        h

  pub seek :
      (msg : Message) (owner : OwnerIdentity) (x v : ℕ) (p : Prog Outcome)
      → calls i ≡ send msg owner
      → x < cap
      → v ≤ seq_at ring cap inline_size gen calls m x
      → ((q : ℕ) → q < g.enq → g.sender q ≢ i)
      → Seeking ring cap inline_size gen IsRefused IsSent msg x v p
      → Next ring cap inline_size gen two calls i g m (access p m).0 (access p m).1
  unfolding Seeking access
  seek msg owner x v (ret a) c l up new h =
      looked ring cap inline_size gen two calls i g m s (ret a) (seeks msg owner x v c l up new h)
  seek msg owner x v diverge c l up new h =
      looked ring cap inline_size gen two calls i g m s diverge (seeks msg owner x v c l up new h)
  seek msg owner x v (load o f k) c l up new (inl (w, known, h)) =
      looked ring cap inline_size gen two calls i g m s (k (m.word o f)) (
        seeks msg owner x v c l up new (
          subst (λ (y : ℕ). Seeking ring cap inline_size gen IsRefused IsSent msg x v (k y))
            (sym (s.known o f w known)) h))
  seek msg owner x v (load o f k) c l up new (inr (inl (y, ly, at, field, h))) =
      looked ring cap inline_size gen two calls i g m s (k (m.word o f))
        (seeks msg owner y (m.word o f) c ly (rw (at, field) (omega arith)) new (h (m.word o f)))
  seek msg owner x v (load o f k) c l up new (inr (inr h)) =
      looked ring cap inline_size gen two calls i g m s (k (m.word o f))
        (seeks msg owner x v c l up new (h (m.word o f)))
  seek msg owner x v (store o f w k) c l up new h = absurd h
  seek msg owner x v (cas o f e d k) c l up new (at, field, next, slot, seen, fails, wins) =
      rw (at, field, next, s.enq_pos)
        (elim (ℕ_discrete g.enq e) [
          | no n ↦ rw (ne→== g.enq e n) (
              looked ring cap inline_size gen two calls i g m s (k g.enq)
                (seeks msg owner x v c l up new (fails g.enq n)))
          | yes z ↦
              rw (eq→== g.enq e z, ← z, add64_small g.enq 1 (omega (arith, room, two)))
                (let here = next_ready ring cap inline_size gen two calls g m s (
                    subst (λ (y : ℕ). g.enq ≤ seq_at ring cap inline_size gen calls m y)
                      (slot ∙ ap (λ (y : ℕ). y % cap) (sym z)) (omega (arith, up, seen, z))) in
                  record {
                    history =
                        claimed_by ring cap inline_size gen two calls g m s i msg owner c new here;
                    shared =
                        claim-Shared ring cap inline_size gen two calls g m s i msg owner c new
                          here;
                    slow = omega arith;
                    rely =
                        claim-Rely ring cap inline_size gen two calls g m s i msg owner c new here;
                    part =
                        fills g.enq (set_word ring ring_enqueue_pos (g.enq + 1) m)
                          (put_self g.phase g.enq claimed g.enq refl)
                          (put_self g.sender g.enq i g.enq refl) ((λ f h. refl), (λ f h. refl))
                          (rw (put_self g.message g.enq msg g.enq refl) (
                            subst
                              (λ (y : ℕ).
                                Filling ring cap inline_size gen IsSent msg y (k y)
                                  (set_word ring ring_enqueue_pos (g.enq + 1) m))
                              (sym z) (wins (set_word ring ring_enqueue_pos (g.enq + 1) m))));
                  })
        ])
  seek msg owner x v (fetch_add o f d k) c l up new h = absurd h
  seek msg owner x v (read o f n k) c l up new h = absurd h
  seek msg owner x v (write o f d k) c l up new h = absurd h
