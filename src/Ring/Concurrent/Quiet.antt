-- ===== src/Ring/Concurrent/Quiet.antt =====
-- Accesses that no other process can see: those of owner fields, and those of the fields of the
-- message in a slot by the sender that has its ticket.
use django_channels_shm.Prelude.{
  ℕ, ◌≤◌, ◌<◌, ◌≡◌, ◌≢◌, refl, sym, ap, ◌∙◌, ◌⊎◌, ◌%◌, inl, inr, List, length, padded, dec_lt,
  ne→==, arith,
}
use mathlib.Core.Path.{subst}
use django_channels_shm.Shm.{Memory, set_word, set_bytes}
use django_channels_shm.Shm.Exec.{set_word-apart}
use django_channels_shm.Layout.{
  ring_enqueue_pos, ring_dequeue_pos, slot_seq, slot_channel_name, slot_inline, slot_channel_len,
  slot_msg_len, slot_expiry_ts, slot_overflow_off,
}
use django_channels_shm.Ring.{slot_offset}
use django_channels_shm.Ring.Contents.{slot_of, slot_apart, Message}
use django_channels_shm.Ring.Concurrent.{Call}
use django_channels_shm.Ring.Concurrent.Roles.{
  Owning, WordField, Known, configured, slots, generation, no_page, Written,
}
use django_channels_shm.Ring.Concurrent.Invariant.{
  Phase, claimed, published, taken, unclaimed, recycled, IsLive, Holding, History, View, seq_at,
  IsShared, Rely, claimed-IsLive, taken-IsLive,
}

pub Written-View :
    (so : ℕ) (a m : Memory) (msg : Message) → View so a m → Written a so msg → Written m so msg
Written-View so a m msg v w = record {
  name_len = v.0 slot_channel_len (inr (inl refl)) ∙ w.name_len;
  name = ap (padded (length msg.name)) (v.1 slot_channel_name (inl refl)) ∙ w.name;
  body_len = v.0 slot_msg_len (inr (inr refl)) ∙ w.body_len;
  body = ap (padded (length msg.body)) (v.1 slot_inline (inr refl)) ∙ w.body;
  expiry = v.0 slot_expiry_ts (inl refl) ∙ w.expiry;
}

-- A store changes no other field.
pub field-apart :
    (o f v : ℕ) (m : Memory) (a g : ℕ) → f ≢ g → (set_word o f v m).word a g ≡ m.word a g
field-apart o f v m a g n = ground (arith, ne→== f g n)

set_bytes-apart :
    (o f : ℕ) (d : List ℕ) (m : Memory) (a g : ℕ)
    → o ≢ a
    → (set_bytes o f d m).bytes a g ≡ m.bytes a g
set_bytes-apart o f d m a g n = ground (arith, ne→== o a n)

pub Holding-map :
    {X Y : Type 0} (s : Phase) → (IsLive s → s ≢ claimed → X → Y) → Holding s X → Holding s Y
Holding-map unclaimed f h = tt
Holding-map claimed f h = tt
Holding-map published f h = f tt (λ e. cc e) h
Holding-map taken f h = f tt (λ e. cc e) h
Holding-map recycled f h = tt

pub two_some : {cap : ℕ} → 2 ≤ cap → 0 < cap
two_some h = omega (arith, h)

module _ (ring cap inline_size gen : ℕ) (some_slots : 0 < cap) (calls : ℕ → Call) where
  -- Two tickets whose slots are in use have different slots.
  pub live_apart :
      (g : History) (m : Memory) (p q : ℕ)
      → IsShared ring cap inline_size gen calls g m
      → IsLive (g.phase p)
      → IsLive (g.phase q)
      → p ≢ q
      → slot_of ring cap p ≢ slot_of ring cap q
  live_apart g m p q s lp lq n e = elim (dec_lt p q) [
    | yes l ↦ slot_apart ring cap p q some_slots l (omega (arith, s.window p lp, s.window q lq)) e
    | no h ↦
        slot_apart ring cap q p some_slots (omega (arith, h, n))
          (omega (arith, s.window p lp, s.window q lq)) (sym e)
  ]

  -- All but the message fields of the slots of the tickets in `Mine` is the same in both memories.
  pub record Alike (g : History) (m m' : Memory) (Mine : ℕ → Type 0) : Type 0 where
    pub enq : m'.word ring ring_enqueue_pos ≡ m.word ring ring_enqueue_pos
    pub deq : m'.word ring ring_dequeue_pos ≡ m.word ring ring_dequeue_pos
    pub known :
        (o f w : ℕ) → Known ring cap inline_size gen o f w → m.word o f ≡ w → m'.word o f ≡ w
    pub seqs :
        (y : ℕ)
        → seq_at ring cap inline_size gen calls m' y ≡ seq_at ring cap inline_size gen calls m y
    pub views : (p : ℕ) → IsLive (g.phase p) → ¬ Mine p → View (slot_of ring cap p) m m'

  module _ (g : History) (m m' : Memory) (Mine : ℕ → Type 0) (a : Alike g m m' Mine)
      (s : IsShared ring cap inline_size gen calls g m) where
    pub Alike-Shared :
        ((p : ℕ) → Mine p → g.phase p ≡ claimed) → IsShared ring cap inline_size gen calls g m'
    Alike-Shared mine = record {
      enq_pos = a.enq ∙ s.enq_pos;
      deq_pos = a.deq ∙ s.deq_pos;
      order = s.order;
      known = λ o f w k. a.known o f w k (s.known o f w k);
      ahead = s.ahead;
      waiting = s.waiting;
      window = s.window;
      shows = λ q. rw (a.seqs (q % cap)) (s.shows q);
      ready = λ q l h. rw (a.seqs (q % cap)) (s.ready q l h);
      holds = λ q.
          Holding-map (g.phase q)
            (λ live n w.
              Written-View (slot_of ring cap q) m m' (g.message q)
                (a.views q live (λ h. n (mine q h))) w)
            (s.holds q);
      once = s.once;
      sent_by = s.sent_by;
    }

    pub Alike-Rely :
        (i : ℕ)
        → ((p : ℕ) → Mine p → (g.phase p ≡ claimed) × (g.sender p ≡ i))
        → Rely ring cap inline_size gen calls i g m g m'
    Alike-Rely i mine = record {
      grows = omega arith;
      rises = λ y l. omega (arith, a.seqs y);
      same_message = λ q l. refl;
      same_sender = λ q l. refl;
      new_sender = λ q l h. absurd (omega (arith, l, h));
      claims = λ q e n. (e, a.views q (claimed-IsLive e) (λ h. n (mine q h).1));
      takes = λ q e n. (e, refl, a.views q (taken-IsLive e) (λ h. cc (e, (mine q h).0)));
      ends = λ q e. (e, refl);
    }

  -- A number in a slot changes.
  module _ (m : Memory) (y f w : ℕ) where
    pub header_apart :
        (o g : ℕ)
        → (o ≡ ring) ⊎ (o ≡ 0)
        → (set_word (slot_offset ring y) f w m).word o g ≡ m.word o g
    header_apart o g h = set_word-apart (slot_offset ring y) f w m o g (λ e. omega (arith, e, h))

    pub slot-Known :
        (f ≢ slot_overflow_off) ⊎ (w ≡ 0)
        → (o a v : ℕ) → Known ring cap inline_size gen o a v
        → m.word o a ≡ v
        → (set_word (slot_offset ring y) f w m).word o a ≡ v
    slot-Known n o a v configured e = header_apart 0 _ (inr refl) ∙ e
    slot-Known n o a v slots e = header_apart ring _ (inl refl) ∙ e
    slot-Known n o a v generation e = header_apart ring _ (inl refl) ∙ e
    slot-Known (inl n) o a v (no_page x l) e = field-apart _ f w m _ slot_overflow_off n ∙ e
    slot-Known (inr z) o a v (no_page x l) e = ground (arith, z, e)

  pub owner-Alike :
      (g : History) (m : Memory) (o f w : ℕ)
      → Owning ring cap inline_size gen o f
      → Alike g m (set_word o f w m) (λ _. ⊥)
  owner-Alike g m o f w (y, l, e, h) =
      subst (λ (o : ℕ). Alike g m (set_word o f w m) (λ _. ⊥)) (sym e)
        (record {
          enq = header_apart m y f w ring _ (inl refl);
          deq = header_apart m y f w ring _ (inl refl);
          known = slot-Known m y f w (inl (λ z. omega (arith, z, h)));
          seqs = λ x. field-apart _ f w m _ slot_seq (λ z. omega (arith, z, h));
          views = λ p live n.
              ((λ k hk. field-apart _ f w m _ k (λ z. omega (arith, z, h, hk))), (λ k hk. refl));
        })

  -- A field of the message in the slot of ticket `q`.
  pub word-Alike :
      (g : History) (m : Memory) (q f w : ℕ)
      → IsShared ring cap inline_size gen calls g m
      → IsLive (g.phase q)
      → WordField f
      → Alike g m (set_word (slot_of ring cap q) f w m) (λ p. p ≡ q)
  word-Alike g m q f w s live h = record {
    enq = header_apart m (q % cap) f w ring _ (inl refl);
    deq = header_apart m (q % cap) f w ring _ (inl refl);
    known = slot-Known m (q % cap) f w (inl (λ z. omega (arith, z, h)));
    seqs = λ x. field-apart _ f w m _ slot_seq (λ z. omega (arith, z, h));
    views = λ p lp n. (
      (λ k hk. set_word-apart _ f w m _ k (live_apart g m q p s live lp (λ e. n (sym e)))),
      (λ k hk. refl),
    );
  }

  pub page-Alike :
      (g : History) (m : Memory) (q : ℕ)
      → Alike g m (set_word (slot_of ring cap q) slot_overflow_off 0 m) (λ _. ⊥)
  page-Alike g m q = record {
    enq = header_apart m (q % cap) slot_overflow_off 0 ring _ (inl refl);
    deq = header_apart m (q % cap) slot_overflow_off 0 ring _ (inl refl);
    known = slot-Known m (q % cap) slot_overflow_off 0 (inr refl);
    seqs = λ x.
        field-apart (slot_of ring cap q) slot_overflow_off 0 m (slot_offset ring x) slot_seq
          (λ z. omega (arith, z));
    views = λ p live n. (
      (λ k hk. field-apart _ slot_overflow_off 0 m _ k (λ z. omega (arith, z, hk))),
      (λ k hk. refl),
    );
  }

  pub bytes-Alike :
      (g : History) (m : Memory) (q f : ℕ) (d : List ℕ)
      → IsShared ring cap inline_size gen calls g m
      → IsLive (g.phase q)
      → Alike g m (set_bytes (slot_of ring cap q) f d m) (λ p. p ≡ q)
  bytes-Alike g m q f d s live = record {
    enq = refl;
    deq = refl;
    known = λ o a v k e. e;
    seqs = λ x. refl;
    views = λ p lp n. (
      (λ k hk. refl),
      (λ k hk. set_bytes-apart _ f d m _ k (live_apart g m q p s live lp (λ e. n (sym e)))),
    );
  }
