-- ===== src/Ring/Concurrent/Ended.antt =====
-- What the result of a process says of its part.
use django_channels_shm.Prelude.{ℕ, ◌<◌, ◌≡◌, ◌≢◌, some}
use mathlib.Core.Path.{subst}
use django_channels_shm.Shm.{Memory, Prog, ret}
use django_channels_shm.Ring.{full}
use django_channels_shm.Ring.Dequeue.{Delivery}
use django_channels_shm.Ring.Concurrent.{Call, Outcome, sent, received}
use django_channels_shm.Ring.Concurrent.Roles.{
  Leaving, Filling, Seeking, Receiving, looking, emptying,
}
use django_channels_shm.Ring.Concurrent.Senders.{IsRefused, IsSent}
use django_channels_shm.Ring.Concurrent.Receivers.{IsNone, IsDelivery}
use django_channels_shm.Ring.Concurrent.Invariant.{
  History, Part, seeks, fills, has_sent, looks, empties, has_received,
}

module _ (ring cap inline_size gen : ℕ) (calls : ℕ → Call) where
  -- The ticket of a process that has received a message.
  pub ticket :
      {g : History} {m : Memory} {j : ℕ} {p : Prog Outcome}
      → Part ring cap inline_size gen calls g m j p
      → ℕ
  ticket (seeks msg owner x v c l up new k) = 0
  ticket (fills q a e by view k) = 0
  ticket (has_sent k) = 0
  ticket (looks x v l up k) = 0
  ticket (empties q a e by view k) = 0
  ticket (has_received q l e by k) = q

  pub record Came (g : History) (j q : ℕ) (d : Delivery) : Type 0 where
    pub old : q < g.enq
    pub to : g.receiver q ≡ j
    pub payload : d ≡ (((g.message q).name, (g.message q).body))

  pub came :
      {g : History} {m : Memory} {j : ℕ} {p : Prog Outcome}
      (a : Part ring cap inline_size gen calls g m j p) {d : Delivery}
      → p ≡ ret (received (some d))
      → Came g j (ticket a) d
  unfolding ticket Leaving Filling Seeking Receiving
  came (seeks msg owner x v c l up new k) r =
      let z = subst (λ p. Seeking ring cap inline_size gen IsRefused IsSent msg x v p) r k in
      absurd (cc z)
  came {g} (fills q a e by view k) r =
      absurd (subst (λ p. Filling ring cap inline_size gen IsSent (g.message q) q p a) r k)
  came (has_sent k) r =
      let z = subst (λ p. Leaving ring cap inline_size gen IsSent p) r k in absurd (cc z)
  came (looks x v l up k) r =
      let z =
        subst (λ p. Receiving ring cap inline_size gen IsNone IsDelivery (looking x v) p) r k in
      absurd (cc z)
  came {g} (empties q a e by view k) r = absurd (
      subst
        (λ p. Receiving ring cap inline_size gen IsNone IsDelivery (emptying q (g.message q) a) p) r
        k)
  came {g} (has_received q l e by k) r =
      let z = subst (λ p. Leaving ring cap inline_size gen (IsDelivery (g.message q)) p) r k in
      record { old = l; to = by; payload = cc z }

  -- A sender that was refused has no ticket.
  pub no_ticket :
      {g : History} {m : Memory} {j : ℕ} {p : Prog Outcome}
      → Part ring cap inline_size gen calls g m j p
      → p ≡ ret (sent full)
      → (q : ℕ) → q < g.enq
      → g.sender q ≢ j
  unfolding Leaving Filling Seeking Receiving
  no_ticket (seeks msg owner x v c l up new k) r = new
  no_ticket {g} (fills q a e by view k) r =
      absurd (subst (λ p. Filling ring cap inline_size gen IsSent (g.message q) q p a) r k)
  no_ticket (has_sent k) r =
      let z = subst (λ p. Leaving ring cap inline_size gen IsSent p) r k in absurd (cc z)
  no_ticket (looks x v l up k) r =
      let z =
        subst (λ p. Receiving ring cap inline_size gen IsNone IsDelivery (looking x v) p) r k in
      absurd (cc z)
  no_ticket {g} (empties q a e by view k) r = absurd (
      subst
        (λ p. Receiving ring cap inline_size gen IsNone IsDelivery (emptying q (g.message q) a) p) r
        k)
  no_ticket {g} (has_received q l e by k) r =
      let z = subst (λ p. Leaving ring cap inline_size gen (IsDelivery (g.message q)) p) r k in
      absurd (cc z)
