-- ===== src/Ring/Concurrent/Takes.antt =====
-- A receiver wins a ticket.
use django_channels_shm.Prelude.{
  ℕ, ◌+◌, ◌%◌, ◌≤◌, ◌<◌, ◌≡◌, ◌≢◌, refl, sym, ◌∙◌, ◌⊎◌, inl, inr, dec_lt, ==_refl, arith,
}
use mathlib.Core.Path.{subst}
use django_channels_shm.Shm.{Memory, set_word}
use django_channels_shm.Layout.{ring_enqueue_pos, ring_dequeue_pos, slot_seq}
use django_channels_shm.Ring.Contents.{slot_of}
use django_channels_shm.Ring.Concurrent.{Call}
use django_channels_shm.Ring.Concurrent.Roles.{Written}
use django_channels_shm.Ring.Concurrent.Invariant.{
  Phase, claimed, published, taken, IsLive, Shows, Holding, History, seq_of, IsShared, Rely,
}
use django_channels_shm.Ring.Concurrent.Quiet.{Written-View, Holding-map, field-apart}
use django_channels_shm.Ring.Concurrent.Counters.{
  put, put_other, put_case, next_ready, counter-Known, counter_slot, counter_View,
}

module _ (ring cap inline_size gen : ℕ) (two : 2 ≤ cap) (calls : ℕ → Call) (g : History)
    (m : Memory) (s : IsShared ring cap inline_size gen calls g m) where
  abbrev seq : ℕ → ℕ
  seq q = seq_of ring cap inline_size gen calls m q

  module _ (i : ℕ) (there : g.deq + 1 ≤ seq g.deq) where
    -- The oldest ticket was not taken, so its message is published.
    pub deq_published : (g.phase g.deq ≡ published) × (g.deq < g.enq)
    deq_published = elim (dec_lt g.deq g.enq) [
      | yes l ↦ elim (s.waiting g.deq (omega arith) l) [
        | inr e ↦ (e, l)
        | inl e ↦
            absurd (omega (arith, there, subst (λ a. Shows a g.deq (seq g.deq)) e (s.shows g.deq)))
      ]
      | no n ↦
          let e : g.deq ≡ g.enq = omega (arith, n, s.order) in
          let h = subst (λ (x : ℕ). x + 1 ≤ seq x) e there in
          absurd (
            omega
              (arith, h, next_ready ring cap inline_size gen two calls g m s (omega (arith, h))))
    ]

    -- The history after the oldest message went to receiver `i`.
    abbrev pub taken_by : History
    taken_by = record g {
      deq = g.deq + 1;
      phase = put g.phase g.deq taken;
      receiver = put g.receiver g.deq i;
    }

    abbrev after_take : Memory
    after_take = set_word ring ring_dequeue_pos (g.deq + 1) m

    take_seq : (q : ℕ) → seq_of ring cap inline_size gen calls after_take q ≡ seq q
    take_seq q =
        counter_slot ring cap inline_size gen two calls g m s ring_dequeue_pos (g.deq + 1) (q % cap)
          slot_seq

    deq-IsLive : IsLive (g.phase g.deq)
    deq-IsLive = subst IsLive (sym deq_published.0) tt

    take-IsLive : (q : ℕ) → IsLive (taken_by.phase q) → IsLive (g.phase q)
    take-IsLive q =
        put_case (λ a. IsLive a → IsLive (g.phase q)) g.phase g.deq taken q
          (λ e _. subst (λ (x : ℕ). IsLive (g.phase x)) e deq-IsLive) (λ n live. live)

    pub take-Shared : IsShared ring cap inline_size gen calls taken_by after_take
    take-Shared = record {
      enq_pos =
          field-apart ring ring_dequeue_pos (g.deq + 1) m ring ring_enqueue_pos
            (λ e. omega (arith, e))
          ∙ s.enq_pos;
      deq_pos = rw (==_refl ring);
      order = omega (arith, deq_published);
      known =
          counter-Known ring cap inline_size gen two calls g m s ring_dequeue_pos (g.deq + 1)
            (inr refl);
      ahead = λ q l.
          put_other g.phase g.deq taken q (λ e. omega (arith, e, l, deq_published)) ∙ s.ahead q l;
      waiting = λ q l h.
          put_case (λ a. (a ≡ claimed) ⊎ (a ≡ published)) g.phase g.deq taken q
            (λ e. absurd (omega (arith, e, l))) (λ n. s.waiting q (omega (arith, l)) h);
      window = λ q live. s.window q (take-IsLive q live);
      shows = λ q.
          put_case (λ a. Shows a q (seq_of ring cap inline_size gen calls after_take q)) g.phase
            g.deq taken q
            (λ e.
              take_seq q
              ∙ subst (λ (x : ℕ). seq x ≡ x + 1) e
                  (subst (λ a. Shows a g.deq (seq g.deq)) deq_published.0 (s.shows g.deq)))
            (λ n. subst (λ (x : ℕ). Shows (g.phase q) q x) (sym (take_seq q)) (s.shows q));
      ready = λ q l h. elim (s.ready q l h) [
        | inl e ↦ inl (take_seq q ∙ e)
        | inr (p, e, live) ↦ inr (p, e, put_case IsLive g.phase g.deq taken p (λ _. tt) (λ _. live))
      ];
      holds = λ q.
          put_case (λ a. Holding a (Written after_take (slot_of ring cap q) (g.message q))) g.phase
            g.deq taken q
            (λ e.
              Written-View _ m after_take (g.message q)
                (counter_View ring cap inline_size gen two calls g m s ring_dequeue_pos (g.deq + 1)
                  (q % cap))
                (subst (λ (x : ℕ). Written m (slot_of ring cap x) (g.message x)) e
                  (subst (λ a. Holding a (Written m (slot_of ring cap g.deq) (g.message g.deq)))
                    deq_published.0 (s.holds g.deq))))
            (λ n.
              Holding-map (g.phase q)
                (λ live c w.
                  Written-View _ m after_take (g.message q)
                    (counter_View ring cap inline_size gen two calls g m s ring_dequeue_pos
                      (g.deq + 1) (q % cap))
                    w)
                (s.holds q));
      once = s.once;
      sent_by = s.sent_by;
    }

    pub take-Rely : Rely ring cap inline_size gen calls i g m taken_by after_take
    take-Rely = record {
      grows = omega arith;
      rises = λ y l. omega (
        arith,
        counter_slot ring cap inline_size gen two calls g m s ring_dequeue_pos (g.deq + 1) y
            slot_seq,
      );
      same_message = λ q l. refl;
      same_sender = λ q l. refl;
      new_sender = λ q l h. absurd (omega (arith, l, h));
      claims = λ q e n. (
        old q e (λ w. cc w) ∙ e,
        counter_View ring cap inline_size gen two calls g m s ring_dequeue_pos (g.deq + 1)
            (q % cap),
      );
      takes = λ q e n. (
        old q e (λ w. cc w) ∙ e,
        put_other g.receiver g.deq i q (other q e (λ w. cc w)),
        counter_View ring cap inline_size gen two calls g m s ring_dequeue_pos (g.deq + 1)
            (q % cap),
      );
      ends =
          λ q e. (old q e (λ w. cc w) ∙ e, put_other g.receiver g.deq i q (other q e (λ w. cc w)));
    }
      where
        other : (q : ℕ) {a : Phase} → g.phase q ≡ a → a ≢ published → g.deq ≢ q
        other q e n w = n (sym e ∙ subst (λ (x : ℕ). g.phase x ≡ published) w deq_published.0)

        old : (q : ℕ) {a : Phase} → g.phase q ≡ a → a ≢ published → taken_by.phase q ≡ g.phase q
        old q e n = put_other g.phase g.deq taken q (other q e n)
