-- ===== src/Ring/Concurrent/Slots.antt =====
-- The process that has a ticket moves the number of its slot: a sender publishes its message, a
-- receiver gives the slot back for the next lap.
use django_channels_shm.Prelude.{
  ℕ, ◌+◌, ◌%◌, ◌≤◌, ◌<◌, ◌≡◌, ◌≢◌, refl, sym, ap, ◌∙◌, ◌⊎◌, inl, inr, dec_lt, ℕ_discrete, ==_refl,
  arith,
}
use mathlib.Core.Path.{subst}
use native.Mathlib.Nat.{add-mod_right}
use django_channels_shm.Shm.{Memory, set_word}
use django_channels_shm.Shm.Exec.{set_word-apart}
use django_channels_shm.Layout.{ring_enqueue_pos, ring_dequeue_pos, slot_seq}
use django_channels_shm.Ring.{slot_offset}
use django_channels_shm.Ring.Contents.{slot_of, slot_apart}
use django_channels_shm.Ring.Concurrent.{Call}
use django_channels_shm.Ring.Concurrent.Roles.{Known, Written}
use django_channels_shm.Ring.Concurrent.Invariant.{
  Phase, unclaimed, claimed, published, taken, recycled, IsLive, Shows, Holding, History, View,
  seq_at, seq_of, IsShared, Rely,
}
use django_channels_shm.Ring.Concurrent.Quiet.{
  Written-View, Holding-map, field-apart, live_apart, slot-Known,
}
use django_channels_shm.Ring.Concurrent.Counters.{put, put_other, put_case}

Shows-map : (s : Phase) (q n n' : ℕ) → (IsLive s → n' ≡ n) → Shows s q n → Shows s q n'
Shows-map unclaimed q n n' e h = tt
Shows-map claimed q n n' e h = e tt ∙ h
Shows-map published q n n' e h = e tt ∙ h
Shows-map taken q n n' e h = e tt ∙ h
Shows-map recycled q n n' e h = tt

-- The history after ticket `q` came to phase `b`.
abbrev pub moved : History → ℕ → Phase → History
moved g q b = record g { phase = put g.phase q b }

module _ (ring cap inline_size gen : ℕ) (two : 2 ≤ cap) (calls : ℕ → Call) (g : History)
    (m : Memory) (s : IsShared ring cap inline_size gen calls g m) (q : ℕ)
    (live : IsLive (g.phase q)) (n : ℕ) where
  abbrev seq : ℕ → ℕ
  seq p = seq_of ring cap inline_size gen calls m p

  abbrev pub numbered : Memory
  numbered = set_word (slot_of ring cap q) slot_seq n m

  abbrev seq' : ℕ → ℕ
  seq' p = seq_of ring cap inline_size gen calls numbered p

  same_slot : (p : ℕ) → q + cap ≡ p → slot_of ring cap p ≡ slot_of ring cap q
  same_slot p e = ap (slot_offset ring) (ap (λ (x : ℕ). x % cap) (sym e) ∙ add-mod_right q cap)

  seq_here : seq' q ≡ n
  seq_here = rw (==_refl (slot_of ring cap q))

  seq_lap : (p : ℕ) → q + cap ≡ p → seq' p ≡ n
  seq_lap p e = ap (λ (o : ℕ). numbered.word o slot_seq) (same_slot p e) ∙ seq_here

  seq_live : (p : ℕ) → IsLive (g.phase p) → q ≢ p → seq' p ≡ seq p
  seq_live p lp d =
      set_word-apart _ slot_seq n m _ slot_seq
        (live_apart ring cap inline_size gen (omega (arith, two)) calls g m q p s live lp d)

  -- A ticket that can be the next of its slot, but not of this one.
  seq_next : (p : ℕ) → g.enq ≤ p → p < g.enq + cap → q + cap ≢ p → seq' p ≡ seq p
  seq_next p l h d = set_word-apart _ slot_seq n m _ slot_seq (λ e. elim (dec_lt p (q + cap)) [
    | yes b ↦ slot_apart ring cap q p (omega (arith, two)) (omega (arith, l, s.window q live)) b e
    | no b ↦
        slot_apart ring cap (q + cap) p (omega (arith, two)) (omega (arith, b, d))
          (omega (arith, h, s.window q live)) (same_slot (q + cap) refl ∙ e)
  ])

  seq_rises :
      seq q ≤ n
      → (y : ℕ) → y < cap
      → seq_at ring cap inline_size gen calls m y ≤ seq_at ring cap inline_size gen calls numbered y
  seq_rises up y l = elim (ℕ_discrete (q % cap) y) [
    | yes e ↦
        subst
          (λ (x : ℕ).
            seq_at ring cap inline_size gen calls m x
            ≤ seq_at ring cap inline_size gen calls numbered x)
          e (omega (arith, up, seq_here))
    | no d ↦ omega (
      arith,
      set_word-apart (slot_of ring cap q) slot_seq n m (slot_offset ring y) slot_seq
          (λ e. d (omega (arith, e))),
    )
  ]

  view : (p : ℕ) → View (slot_of ring cap p) m numbered
  view p = (
    (λ f h.
        field-apart (slot_of ring cap q) slot_seq n m (slot_of ring cap p) f
          (λ e. omega (arith, e, h))),
    (λ f h. refl),
  )

  known : (o f w : ℕ) → Known ring cap inline_size gen o f w → numbered.word o f ≡ w
  known o f w k =
      slot-Known ring cap inline_size gen (omega (arith, two)) calls m (q % cap) slot_seq n
        (inl (λ e. omega (arith, e))) o f w k (s.known o f w k)

  holding : (p : ℕ) → Holding (g.phase p) (Written numbered (slot_of ring cap p) (g.message p))
  holding p =
      Holding-map (g.phase p) (λ lp c w. Written-View _ m numbered (g.message p) (view p) w)
        (s.holds p)

  -- The number is `n` and the ticket comes to phase `b`.
  module _ (i : ℕ) (b : Phase) (up : seq q ≤ n) (shown : Shows b q n)
      (held : Holding b (Written m (slot_of ring cap q) (g.message q)))
      (waits : g.deq ≤ q → (b ≡ claimed) ⊎ (b ≡ published)) (next : IsLive b ⊎ (n ≡ q + cap))
      (sends : g.phase q ≡ claimed → g.sender q ≡ i)
      (receives : g.phase q ≡ taken → g.receiver q ≡ i) where
    move-IsLive : (p : ℕ) → IsLive ((moved g q b).phase p) → IsLive (g.phase p)
    move-IsLive p =
        put_case (λ a. IsLive a → IsLive (g.phase p)) g.phase q b p
          (λ e _. subst (λ (x : ℕ). IsLive (g.phase x)) e live) (λ d l. l)

    move_ready :
        (p : ℕ)
        → g.enq ≤ p
        → p < g.enq + cap
        → (seq' p ≡ p) ⊎ ((p' : ℕ) × (p' + cap ≡ p) × IsLive ((moved g q b).phase p'))
    move_ready p l h = elim (ℕ_discrete (q + cap) p) [
      | yes e ↦ elim next [
        | inl lb ↦ inr (q, e, put_case IsLive g.phase q b q (λ _. lb) (λ d. absurd (d refl)))
        | inr k ↦ inl (seq_lap p e ∙ k ∙ e)
      ]
      | no d ↦ elim (s.ready p l h) [
        | inl e ↦ inl (seq_next p l h d ∙ e)
        | inr (p', e, lp) ↦ inr (
          p',
          e,
          put_case IsLive g.phase q b p' (λ w. absurd (d (omega (arith, w, e)))) (λ _. lp),
        )
      ]
    ]

    move-Shows : (p : ℕ) → Shows ((moved g q b).phase p) p (seq' p)
    move-Shows p =
        put_case (λ a. Shows a p (seq' p)) g.phase q b p
          (λ e.
            subst (λ (x : ℕ). Shows b x (seq' x)) e
              (subst (λ (x : ℕ). Shows b q x) (sym seq_here) shown))
          (λ d. Shows-map (g.phase p) p (seq p) (seq' p) (λ lp. seq_live p lp d) (s.shows p))

    pub move-Shared : IsShared ring cap inline_size gen calls (moved g q b) numbered
    move-Shared = record {
      enq_pos =
          set_word-apart (slot_of ring cap q) slot_seq n m ring ring_enqueue_pos
            (λ e. omega (arith, e))
          ∙ s.enq_pos;
      deq_pos =
          set_word-apart (slot_of ring cap q) slot_seq n m ring ring_dequeue_pos
            (λ e. omega (arith, e))
          ∙ s.deq_pos;
      order = s.order;
      known = known;
      ahead =
          λ p l. put_other g.phase q b p (λ e. omega (arith, e, l, s.window q live)) ∙ s.ahead p l;
      waiting = λ p l h.
          put_case (λ a. (a ≡ claimed) ⊎ (a ≡ published)) g.phase q b p
            (λ e. waits (omega (arith, e, l))) (λ d. s.waiting p l h);
      window = λ p lp. s.window p (move-IsLive p lp);
      shows = move-Shows;
      ready = move_ready;
      holds = λ p.
          put_case (λ a. Holding a (Written numbered (slot_of ring cap p) (g.message p))) g.phase q
            b p
            (λ e.
              Holding-map b (λ lb c w. Written-View _ m numbered (g.message p) (view p) w)
                (subst (λ (x : ℕ). Holding b (Written m (slot_of ring cap x) (g.message x))) e
                  held))
            (λ d. holding p);
      once = s.once;
      sent_by = s.sent_by;
    }

    pub move-Rely : Rely ring cap inline_size gen calls i g m (moved g q b) numbered
    move-Rely = record {
      grows = omega arith;
      rises = seq_rises up;
      same_message = λ p l. refl;
      same_sender = λ p l. refl;
      new_sender = λ p l h. absurd (omega (arith, l, h));
      claims = λ p e d. (
        put_other g.phase q b p
              (λ w. d (subst (λ (x : ℕ). g.phase x ≡ claimed → g.sender x ≡ i) w sends e))
            ∙ e,
        view p,
      );
      takes = λ p e d. (
        put_other g.phase q b p
              (λ w. d (subst (λ (x : ℕ). g.phase x ≡ taken → g.receiver x ≡ i) w receives e))
            ∙ e,
        refl,
        view p,
      );
      ends = λ p e. (
        put_other g.phase q b p (λ w. subst IsLive e (subst (λ (x : ℕ). IsLive (g.phase x)) w live))
            ∙ e,
        refl,
      );
    }
