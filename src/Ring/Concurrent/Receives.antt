-- ===== src/Ring/Concurrent/Receives.antt =====
-- One access of a receiver: it looks for a ticket and wins it, or empties its slot and gives it back.
use django_channels_shm.Prelude.{
  ℕ, ◌+◌, ◌%◌, ◌^◌, ◌*◌, ◌≤◌, ◌<◌, ◌≡◌, ◌≢◌, refl, sym, ap, ◌∙◌, ◌⊎◌, inl, inr, ℕ_discrete, eq→==,
  ne→==, padded, arith,
}
use mathlib.Core.Path.{subst}
use django_channels_shm.Shm.{
  Memory, set_word, add64, Prog, ret, diverge, load, store, cas, fetch_add, read, write,
}
use django_channels_shm.Shm.Interleave.{access}
use django_channels_shm.Layout.{ring_dequeue_pos, slot_seq}
use django_channels_shm.Ring.{slot_offset}
use django_channels_shm.Ring.Contents.{Message, slot_of}
use django_channels_shm.Ring.Concurrent.{Call, Outcome}
use django_channels_shm.Ring.Concurrent.Roles.{Written, Receiving, looking, emptying}
use django_channels_shm.Ring.Concurrent.Receivers.{IsNone, IsDelivery}
use django_channels_shm.Ring.Concurrent.Invariant.{
  claimed, published, taken, recycled, Shows, Holding, History, IsShared, Part, looks, empties,
  has_received, View, seq_at, taken-IsLive,
}
use django_channels_shm.Ring.Concurrent.Quiet.{field-apart}
use django_channels_shm.Ring.Concurrent.Counters.{put_self}
use django_channels_shm.Ring.Concurrent.Takes.{deq_published, taken_by, take-Shared, take-Rely}
use django_channels_shm.Ring.Concurrent.Slots.{moved, move-Shared, move-Rely}
use django_channels_shm.Ring.Concurrent.Steps.{add64_small, Next, looked, owned}

module _ (ring cap inline_size gen : ℕ) (two : 2 ≤ cap) (calls : ℕ → Call) (i : ℕ) (g : History)
    (m : Memory) (s : IsShared ring cap inline_size gen calls g m)
    (room : g.enq + 2 * cap < 2 ^ 64) where
  -- The receiver gives its slot back.
  recycle :
      (q : ℕ) (k : Prog Outcome)
      → g.phase q ≡ taken
      → g.receiver q ≡ i
      → ((m' : Memory) → Part ring cap inline_size gen calls (moved g q recycled) m' i k)
      → Next ring cap inline_size gen two calls i g m k
          (set_word (slot_of ring cap q) slot_seq (q + cap) m)
  recycle q k e by part =
      let live = taken-IsLive e in
      let at : m.word (slot_of ring cap q) slot_seq ≡ q + 1 =
        subst (λ x. Shows x q (m.word (slot_of ring cap q) slot_seq)) e (s.shows q) in
      record {
        history = moved g q recycled;
        shared =
            move-Shared ring cap inline_size gen two calls g m s q live (q + cap) i recycled
              (omega (arith, at, two)) tt tt over (inr refl)
              (λ z. absurd (claimed_taken (sym z ∙ e))) (λ _. by);
        slow = omega arith;
        rely =
            move-Rely ring cap inline_size gen two calls g m s q live (q + cap) i recycled
              (omega (arith, at, two)) tt tt over (inr refl)
              (λ z. absurd (claimed_taken (sym z ∙ e))) (λ _. by);
        part = part (set_word (slot_of ring cap q) slot_seq (q + cap) m);
      }
    where
      claimed_taken : claimed ≢ taken
      claimed_taken z = cc z

      published_taken : published ≢ taken
      published_taken z = cc z

      over : g.deq ≤ q → (recycled ≡ claimed) ⊎ (recycled ≡ published)
      over l = elim (s.waiting q l (s.window q (taken-IsLive e)).0) [
        | inl z ↦ absurd (claimed_taken (sym z ∙ e))
        | inr z ↦ absurd (published_taken (sym z ∙ e))
      ]

  take_ticket :
      (x v : ℕ) (o f e d : ℕ) (k : ℕ → Prog Outcome)
      → x < cap
      → v ≤ seq_at ring cap inline_size gen calls m x
      → Receiving ring cap inline_size gen IsNone IsDelivery (looking x v) (cas o f e d k)
      → Next ring cap inline_size gen two calls i g m
          (access (cas o f e d k) m).0
          (access (cas o f e d k) m).1
  unfolding Receiving access
  take_ticket x v o f e d k l up (at, field, next, slot, fails, wins) =
      rw (at, field, next, s.deq_pos)
        (elim (ℕ_discrete g.deq e) [
          | no n ↦ rw (ne→== g.deq e n) (
              looked ring cap inline_size gen two calls i g m s (k g.deq)
                (looks x v l up (fails g.deq n)))
          | yes z ↦
              rw (eq→== g.deq e z, ← z, small)
                (let passed : v ≤ seq_at ring cap inline_size gen calls m (g.deq % cap) =
                    subst (λ (y : ℕ). v ≤ seq_at ring cap inline_size gen calls m y)
                      (slot ∙ ap (λ (y : ℕ). y % cap) (sym z)) up in
                  elim wins [
                    | inr skip ↦ absurd (
                        let skips = subst (λ (y : ℕ). add64 y 1 < v) (sym z) skip in
                        let there : g.deq + 1
                            ≤ seq_at ring cap inline_size gen calls m (g.deq % cap) =
                          omega (arith, passed, skips, small) in
                        omega (
                          arith,
                          passed,
                          skips,
                          small,
                          subst
                              (λ a.
                                Shows a g.deq
                                  (seq_at ring cap inline_size gen calls m (g.deq % cap)))
                              (deq_published ring cap inline_size gen two calls g m s i there).0
                              (s.shows g.deq),
                        ))
                    | inl (seen, empty) ↦
                        let now = subst (λ (y : ℕ). v ≡ add64 y 1) (sym z) seen in
                        let there : g.deq + 1
                            ≤ seq_at ring cap inline_size gen calls m (g.deq % cap) =
                          omega (arith, passed, now, small) in
                        let shared = take-Shared ring cap inline_size gen two calls g m s i there in
                        let m' = set_word ring ring_dequeue_pos (g.deq + 1) m in
                        record {
                          history = taken_by ring cap inline_size gen two calls g m s i there;
                          shared = shared;
                          slow = omega arith;
                          rely = take-Rely ring cap inline_size gen two calls g m s i there;
                          part =
                              empties g.deq m' (put_self g.phase g.deq taken g.deq refl)
                                (put_self g.receiver g.deq i g.deq refl)
                                ((λ f h. refl), (λ f h. refl))
                                (subst
                                  (λ (y : ℕ).
                                    (n : Memory) (msg : Message)
                                    → Written n (slot_of ring cap y) msg
                                    → Receiving ring cap inline_size gen IsNone IsDelivery
                                        (emptying y msg n) (k y))
                                  (sym z) empty m' (g.message g.deq)
                                  (subst
                                    (λ a.
                                      Holding a
                                        (Written m' (slot_of ring cap g.deq) (g.message g.deq)))
                                    (put_self g.phase g.deq taken g.deq refl)
                                    (shared.holds g.deq)));
                        }
                  ])
        ])
    where
      small : add64 g.deq 1 ≡ g.deq + 1
      small = add64_small g.deq 1 (omega (arith, room, two, s.order))

  pub look :
      (x v : ℕ) (p : Prog Outcome)
      → x < cap
      → v ≤ seq_at ring cap inline_size gen calls m x
      → Receiving ring cap inline_size gen IsNone IsDelivery (looking x v) p
      → Next ring cap inline_size gen two calls i g m (access p m).0 (access p m).1
  unfolding Receiving access
  look x v (ret a) l up h =
      looked ring cap inline_size gen two calls i g m s (ret a) (looks x v l up h)
  look x v diverge l up h =
      looked ring cap inline_size gen two calls i g m s diverge (looks x v l up h)
  look x v (load o f k) l up (inl (w, known, h)) =
      looked ring cap inline_size gen two calls i g m s (k (m.word o f)) (
        looks x v l up (
          subst
            (λ (y : ℕ). Receiving ring cap inline_size gen IsNone IsDelivery (looking x v) (k y))
            (sym (s.known o f w known)) h))
  look x v (load o f k) l up (inr (inl (y, ly, at, field, h))) =
      looked ring cap inline_size gen two calls i g m s (k (m.word o f))
        (looks y (m.word o f) ly (rw (at, field) (omega arith)) (h (m.word o f)))
  look x v (load o f k) l up (inr (inr h)) =
      looked ring cap inline_size gen two calls i g m s (k (m.word o f))
        (looks x v l up (h (m.word o f)))
  look x v (store o f w k) l up ((y, ly, at, field), h) =
      owned ring cap inline_size gen two calls i g m s o f w k (y, ly, at, field)
        (looks x v l
          (omega (
            arith,
            up,
            field-apart o f w m (slot_offset ring x) slot_seq (λ z. omega (arith, z, field)),
          ))
          h)
  look x v (cas o f e d k) l up h = take_ticket x v o f e d k l up h
  look x v (fetch_add o f d k) l up h = absurd h
  look x v (read o f n k) l up h = absurd h
  look x v (write o f d k) l up h = absurd h

  pub empty :
      (q : ℕ) (a : Memory) (p : Prog Outcome)
      → g.phase q ≡ taken
      → g.receiver q ≡ i
      → View (slot_of ring cap q) a m
      → Receiving ring cap inline_size gen IsNone IsDelivery (emptying q (g.message q) a) p
      → Next ring cap inline_size gen two calls i g m (access p m).0 (access p m).1
  unfolding Receiving access
  empty q a (ret x) e by v h = absurd h
  empty q a diverge e by v h =
      looked ring cap inline_size gen two calls i g m s diverge (empties q a e by v h)
  empty q a (load o f k) e by v (inl (w, known, h)) =
      looked ring cap inline_size gen two calls i g m s (k (m.word o f)) (
        empties q a e by v (
          subst
            (λ (y : ℕ).
              Receiving ring cap inline_size gen IsNone IsDelivery (emptying q (g.message q) a)
                (k y))
            (sym (s.known o f w known)) h))
  empty q a (load o f k) e by v (inr (inl (at, field, h))) =
      looked ring cap inline_size gen two calls i g m s (k (m.word o f)) (
        empties q a e by v (
          subst
            (λ (y : ℕ).
              Receiving ring cap inline_size gen IsNone IsDelivery (emptying q (g.message q) a)
                (k y))
            (subst (λ (o : ℕ). a.word o f ≡ m.word o f) (sym at) (sym (v.0 f field))) h))
  empty q a (load o f k) e by v (inr (inr h)) =
      looked ring cap inline_size gen two calls i g m s (k (m.word o f))
        (empties q a e by v (h (m.word o f)))
  empty q a (store o f w k) e by v (inl ((y, ly, at, field), h)) =
      owned ring cap inline_size gen two calls i g m s o f w k (y, ly, at, field)
        (empties q a e by
          (
            (λ n hn.
                field-apart o f w m (slot_of ring cap q) n (λ z. omega (arith, z, field, hn))
                ∙ v.0 n hn),
            v.1,
          )
          h)
  empty q a (store o f w k) e by v (inr (at, field, next, h)) =
      rw
        (at, field, next, add64_small q cap (omega (arith, room, two, s.window q (taken-IsLive e))))
        (recycle q k e by (λ m'. elim h [
          | inl done ↦
              has_received q (s.window q (taken-IsLive e)).0 (put_self g.phase q recycled q refl) by
                done
          | inr again ↦ looks 0 0 (omega (arith, two)) (omega arith) again
        ]))
  empty q a (cas o f x d k) e by v h = absurd h
  empty q a (fetch_add o f d k) e by v h = absurd h
  empty q a (read o f n k) e by v (at, field, h) =
      looked ring cap inline_size gen two calls i g m s (k (padded n (m.bytes o f))) (
        empties q a e by v (
          subst
            (λ b.
              Receiving ring cap inline_size gen IsNone IsDelivery (emptying q (g.message q) a)
                (k (padded n b)))
            (subst (λ (o : ℕ). a.bytes o f ≡ m.bytes o f) (sym at) (sym (v.1 f field))) h))
  empty q a (write o f d k) e by v h = absurd h
