-- ===== src/Ring/Concurrent/Claims.antt =====
-- A sender wins a ticket.
use django_channels_shm.Prelude.{
  ℕ, ◌+◌, ◌%◌, ◌≤◌, ◌<◌, ◌≡◌, ◌≢◌, refl, sym, ◌∙◌, ◌⊎◌, inl, inr, dec_lt, ℕ_discrete, ==_refl,
  arith,
}
use mathlib.Core.Path.{subst}
use django_channels_shm.Shm.{Memory, set_word}
use django_channels_shm.Layout.{ring_enqueue_pos, ring_dequeue_pos, slot_seq}
use django_channels_shm.Ring.{OwnerIdentity}
use django_channels_shm.Ring.Contents.{Message, slot_of}
use django_channels_shm.Ring.Concurrent.{Call, send}
use django_channels_shm.Ring.Concurrent.Roles.{Written}
use django_channels_shm.Ring.Concurrent.Invariant.{
  unclaimed, claimed, published, recycled, IsLive, Shows, Holding, History, seq_of, IsShared, Rely,
  claimed-IsLive, taken-IsLive,
}
use django_channels_shm.Ring.Concurrent.Quiet.{Written-View, Holding-map, field-apart}
use django_channels_shm.Ring.Concurrent.Counters.{
  put, put_self, put_other, put_case, next_window, counter-Known, counter_slot, counter_View,
}

module _ (ring cap inline_size gen : ℕ) (two : 2 ≤ cap) (calls : ℕ → Call) (g : History)
    (m : Memory) (s : IsShared ring cap inline_size gen calls g m) where
  abbrev seq : ℕ → ℕ
  seq q = seq_of ring cap inline_size gen calls m q

  module _ (i : ℕ) (msg : Message) (owner : OwnerIdentity) (called : calls i ≡ send msg owner)
      (first : (q : ℕ) → q < g.enq → g.sender q ≢ i) (here : seq g.enq ≡ g.enq) where
    -- The history after the next ticket went to sender `i`.
    abbrev pub claimed_by : History
    claimed_by = record g {
      enq = g.enq + 1;
      phase = put g.phase g.enq claimed;
      message = put g.message g.enq msg;
      sender = put g.sender g.enq i;
    }

    abbrev after : Memory
    after = set_word ring ring_enqueue_pos (g.enq + 1) m

    same_seq : (q : ℕ) → seq_of ring cap inline_size gen calls after q ≡ seq q
    same_seq q =
        counter_slot ring cap inline_size gen two calls g m s ring_enqueue_pos (g.enq + 1) (q % cap)
          slot_seq

    claim_once :
        (p q : ℕ)
        → p < g.enq + 1
        → q < g.enq + 1
        → claimed_by.sender p ≡ claimed_by.sender q
        → p ≡ q
    claim_once p q l h =
        put_case (λ a. a ≡ claimed_by.sender q → p ≡ q) g.sender g.enq i p
          (λ e.
            put_case (λ a. i ≡ a → p ≡ q) g.sender g.enq i q (λ e' w. sym e ∙ e')
              (λ n w. absurd (first q (omega (arith, h, n)) (sym w))))
          (λ n.
            put_case (λ a. g.sender p ≡ a → p ≡ q) g.sender g.enq i q
              (λ e w. absurd (first p (omega (arith, l, n)) w))
              (λ n' w. s.once p q (omega (arith, l, n)) (omega (arith, h, n')) w))

    claim_holds :
        (q : ℕ)
        → Holding (claimed_by.phase q) (Written after (slot_of ring cap q) (claimed_by.message q))
    claim_holds q = elim (ℕ_discrete g.enq q) [
      | yes e ↦
          subst (λ w. Holding w (Written after (slot_of ring cap q) (claimed_by.message q)))
            (sym (put_self g.phase g.enq claimed q e)) tt
      | no n ↦
          rw (put_other g.phase g.enq claimed q n, put_other g.message g.enq msg q n)
            (Holding-map (g.phase q)
              (λ live c w.
                Written-View _ m after (g.message q)
                  (counter_View ring cap inline_size gen two calls g m s ring_enqueue_pos
                    (g.enq + 1) (q % cap))
                  w)
              (s.holds q))
    ]

    pub claim-Shared : IsShared ring cap inline_size gen calls claimed_by after
    claim-Shared = record {
      enq_pos = rw (==_refl ring);
      deq_pos =
          field-apart ring ring_enqueue_pos (g.enq + 1) m ring ring_dequeue_pos
            (λ e. omega (arith, e))
          ∙ s.deq_pos;
      order = omega (arith, s.order);
      known =
          counter-Known ring cap inline_size gen two calls g m s ring_enqueue_pos (g.enq + 1)
            (inl refl);
      ahead = λ q l.
          put_other g.phase g.enq claimed q (λ e. omega (arith, e, l))
          ∙ s.ahead q (omega (arith, l));
      waiting = λ q l h.
          put_case (λ a. (a ≡ claimed) ⊎ (a ≡ published)) g.phase g.enq claimed q (λ e. inl refl)
            (λ n. s.waiting q l (omega (arith, h, n)));
      window = λ q.
          put_case (λ a. IsLive a → (q < g.enq + 1) × (g.enq + 1 ≤ q + cap)) g.phase g.enq claimed q
            (λ e live. omega (arith, e, two))
            (λ n live. omega (
              arith,
              s.window q live,
              next_window ring cap inline_size gen two calls g m s here q live,
            ));
      shows = λ q.
          put_case (λ a. Shows a q (seq_of ring cap inline_size gen calls after q)) g.phase g.enq
            claimed q (λ e. same_seq q ∙ subst (λ (x : ℕ). seq x ≡ x) e here)
            (λ n. subst (λ (x : ℕ). Shows (g.phase q) q x) (sym (same_seq q)) (s.shows q));
      ready = λ q l h. elim (dec_lt q (g.enq + cap)) [
        | yes b ↦ elim (s.ready q (omega (arith, l)) b) [
          | inl e ↦ inl (same_seq q ∙ e)
          | inr (p, e, live) ↦
              inr (p, e, put_case IsLive g.phase g.enq claimed p (λ _. tt) (λ _. live))
        ]
        | no b ↦ inr (
          g.enq,
          omega (arith, h, b),
          put_case IsLive g.phase g.enq claimed g.enq (λ _. tt) (λ n. absurd (n refl)),
        )
      ];
      holds = claim_holds;
      once = claim_once;
      sent_by = λ q l. elim (ℕ_discrete g.enq q) [
        | yes e ↦
            (owner, rw (put_self g.sender g.enq i q e, put_self g.message g.enq msg q e) called)
        | no n ↦
            rw (put_other g.sender g.enq i q n, put_other g.message g.enq msg q n)
              (s.sent_by q (omega (arith, l, n)))
      ];
    }

    pub claim-Rely : Rely ring cap inline_size gen calls i g m claimed_by after
    claim-Rely = record {
      grows = omega arith;
      rises = λ y l. omega (
        arith,
        counter_slot ring cap inline_size gen two calls g m s ring_enqueue_pos (g.enq + 1) y
            slot_seq,
      );
      same_message = λ q l. put_other g.message g.enq msg q (λ e. omega (arith, e, l));
      same_sender = λ q l. put_other g.sender g.enq i q (λ e. omega (arith, e, l));
      new_sender = λ q l h. put_self g.sender g.enq i q (omega (arith, l, h));
      claims = λ q e n. (
        old q (claimed-IsLive e) ∙ e,
        counter_View ring cap inline_size gen two calls g m s ring_enqueue_pos (g.enq + 1)
            (q % cap),
      );
      takes = λ q e n. (
        old q (taken-IsLive e) ∙ e,
        refl,
        counter_View ring cap inline_size gen two calls g m s ring_enqueue_pos (g.enq + 1)
            (q % cap),
      );
      ends = λ q e. (
        put_case (λ a. a ≡ recycled) g.phase g.enq claimed q
            (λ w. cc (e, subst (λ (x : ℕ). g.phase x ≡ unclaimed) w (s.ahead g.enq (omega arith))))
            (λ _. e),
        refl,
      );
    }
      where
        old : (q : ℕ) → IsLive (g.phase q) → claimed_by.phase q ≡ g.phase q
        old q live = put_other g.phase g.enq claimed q (λ e. omega (arith, e, s.window q live))
