-- ===== src/Ring/Concurrent/Invariant.antt =====
-- What holds of the ring between any two accesses, and what each process knows of it.
use django_channels_shm.Prelude.{ℕ, ◌+◌, ◌≤◌, ◌<◌, ◌≡◌, ◌≢◌, sym, ◌∙◌, ◌⊎◌, dec_lt, arith}
use mathlib.Core.Path.{subst}
use django_channels_shm.Shm.{Memory, Prog}
use django_channels_shm.Layout.{ring_enqueue_pos, ring_dequeue_pos, slot_seq}
use django_channels_shm.Ring.{OwnerIdentity, slot_offset}
use django_channels_shm.Ring.Contents.{Message, slot_of}
use django_channels_shm.Ring.Concurrent.{Call, send, Outcome}
use django_channels_shm.Ring.Concurrent.Roles.{
  WordField, BytesField, Known, Leaving, Written, Filling, Seeking, Receiving, looking, emptying,
}
use django_channels_shm.Ring.Concurrent.Senders.{IsRefused, IsSent}
use django_channels_shm.Ring.Concurrent.Receivers.{IsNone, IsDelivery}

-- The life of a ticket.
pub data Phase : Type 0 where
  unclaimed claimed published taken recycled : Phase

-- Its slot is in use.
abbrev pub IsLive : Phase → Type 0
IsLive unclaimed = ⊥
IsLive claimed = Unit
IsLive published = Unit
IsLive taken = Unit
IsLive recycled = ⊥

-- What the slot of a live ticket shows as its number, and that it holds the message.
abbrev pub Shows : Phase → ℕ → ℕ → Type 0
Shows unclaimed q s = Unit
Shows claimed q s = s ≡ q
Shows published q s = s ≡ q + 1
Shows taken q s = s ≡ q + 1
Shows recycled q s = Unit

abbrev pub Holding : Phase → Type 0 → Type 0
Holding unclaimed W = Unit
Holding claimed W = Unit
Holding published W = W
Holding taken W = W
Holding recycled W = Unit

-- The history: the tickets handed out to senders and to receivers, and of each ticket its phase, its
-- message, its sender and its receiver.
pub record History : Type 0 where
  pub enq : ℕ
  pub deq : ℕ
  pub phase : ℕ → Phase
  pub message : ℕ → Message
  pub sender : ℕ → ℕ
  pub receiver : ℕ → ℕ

-- The fields of the message in the slot at `so` are the same in both memories.
abbrev pub View : ℕ → Memory → Memory → Type 0
View so a m =
    ((f : ℕ) → WordField f → m.word so f ≡ a.word so f)
    × ((f : ℕ) → BytesField f → m.bytes so f ≡ a.bytes so f)

pub View-trans : (so : ℕ) (a b c : Memory) → View so a b → View so b c → View so a c
View-trans so a b c v w = ((λ f h. w.0 f h ∙ v.0 f h), (λ f h. w.1 f h ∙ v.1 f h))

pub claimed-IsLive : {s : Phase} → s ≡ claimed → IsLive s
claimed-IsLive e = subst IsLive (sym e) tt

pub taken-IsLive : {s : Phase} → s ≡ taken → IsLive s
taken-IsLive e = subst IsLive (sym e) tt

module _ (ring cap inline_size gen : ℕ) (calls : ℕ → Call) where
  abbrev pub seq_at : Memory → ℕ → ℕ
  seq_at m y = m.word (slot_offset ring y) slot_seq

  abbrev pub seq_of : Memory → ℕ → ℕ
  seq_of m q = m.word (slot_of ring cap q) slot_seq

  pub record IsShared (g : History) (m : Memory) : Type 0 where
    pub enq_pos : m.word ring ring_enqueue_pos ≡ g.enq
    pub deq_pos : m.word ring ring_dequeue_pos ≡ g.deq
    pub order : g.deq ≤ g.enq
    pub known : (o f w : ℕ) → Known ring cap inline_size gen o f w → m.word o f ≡ w
    pub ahead : (q : ℕ) → g.enq ≤ q → g.phase q ≡ unclaimed
    pub waiting : (q : ℕ) → g.deq ≤ q → q < g.enq → (g.phase q ≡ claimed) ⊎ (g.phase q ≡ published)
    pub window : (q : ℕ) → IsLive (g.phase q) → (q < g.enq) × (g.enq ≤ q + cap)
    pub shows : (q : ℕ) → Shows (g.phase q) q (seq_of m q)
    pub ready :
        (q : ℕ)
        → g.enq ≤ q
        → q < g.enq + cap
        → (seq_of m q ≡ q) ⊎ ((p : ℕ) × (p + cap ≡ q) × IsLive (g.phase p))
    pub holds : (q : ℕ) → Holding (g.phase q) (Written m (slot_of ring cap q) (g.message q))
    pub once : (p q : ℕ) → p < g.enq → q < g.enq → g.sender p ≡ g.sender q → p ≡ q
    pub sent_by :
        (q : ℕ)
        → q < g.enq
        → (owner : OwnerIdentity) × (calls (g.sender q) ≡ send (g.message q) owner)

  -- The part that process `i` plays, with the rest `p` of its program.
  pub data Part (g : History) (m : Memory) (i : ℕ) (p : Prog Outcome) : Type 0 where
    seeks :
        (msg : Message) (owner : OwnerIdentity) (x v : ℕ)
        → calls i ≡ send msg owner
        → x < cap
        → v ≤ seq_at m x
        → ((q : ℕ) → q < g.enq → g.sender q ≢ i)
        → Seeking ring cap inline_size gen IsRefused IsSent msg x v p
        → Part g m i p
    fills :
        (q : ℕ) (a : Memory)
        → g.phase q ≡ claimed
        → g.sender q ≡ i
        → View (slot_of ring cap q) a m
        → Filling ring cap inline_size gen IsSent (g.message q) q p a
        → Part g m i p
    has_sent : Leaving ring cap inline_size gen IsSent p → Part g m i p
    looks :
        (x v : ℕ)
        → x < cap
        → v ≤ seq_at m x
        → Receiving ring cap inline_size gen IsNone IsDelivery (looking x v) p
        → Part g m i p
    empties :
        (q : ℕ) (a : Memory)
        → g.phase q ≡ taken
        → g.receiver q ≡ i
        → View (slot_of ring cap q) a m
        → Receiving ring cap inline_size gen IsNone IsDelivery (emptying q (g.message q) a) p
        → Part g m i p
    has_received :
        (q : ℕ)
        → q < g.enq
        → g.phase q ≡ recycled
        → g.receiver q ≡ i
        → Leaving ring cap inline_size gen (IsDelivery (g.message q)) p
        → Part g m i p

  -- What the others can rely on when process `i` makes an access.
  pub record Rely (i : ℕ) (g : History) (m : Memory) (g' : History) (m' : Memory) : Type 0 where
    pub grows : g.enq ≤ g'.enq
    pub rises : (y : ℕ) → y < cap → seq_at m y ≤ seq_at m' y
    pub same_message : (q : ℕ) → q < g.enq → g'.message q ≡ g.message q
    pub same_sender : (q : ℕ) → q < g.enq → g'.sender q ≡ g.sender q
    pub new_sender : (q : ℕ) → g.enq ≤ q → q < g'.enq → g'.sender q ≡ i
    pub claims :
        (q : ℕ)
        → g.phase q ≡ claimed
        → g.sender q ≢ i
        → (g'.phase q ≡ claimed) × View (slot_of ring cap q) m m'
    pub takes :
        (q : ℕ)
        → g.phase q ≡ taken
        → g.receiver q ≢ i
        → (g'.phase q ≡ taken) × (g'.receiver q ≡ g.receiver q) × View (slot_of ring cap q) m m'
    pub ends :
        (q : ℕ) → g.phase q ≡ recycled → (g'.phase q ≡ recycled) × (g'.receiver q ≡ g.receiver q)

  -- An access of another process leaves every part as it is.
  pub Part-other :
      (g g' : History) (m m' : Memory) (i j : ℕ) (p : Prog Outcome)
      → IsShared g m
      → Rely i g m g' m'
      → j ≢ i
      → Part g m j p
      → Part g' m' j p
  Part-other g g' m m' i j p s r n (seeks msg owner x v c l h new k) =
      seeks msg owner x v c l (omega (arith, h, r.rises x l))
        (λ q lq e. elim (dec_lt q g.enq) [
          | yes old ↦ new q old (sym (r.same_sender q old) ∙ e)
          | no young ↦ n (sym e ∙ r.new_sender q (omega arith) lq)
        ])
        k
  Part-other g g' m m' i j p s r n (fills q a e by view k) =
      let (e', view') = r.claims q e (λ w. n (sym by ∙ w)) in
      let old = (s.window q (claimed-IsLive e)).0 in
      fills q a e' (r.same_sender q old ∙ by) (View-trans (slot_of ring cap q) a m m' view view') (
        subst (λ w. Filling ring cap inline_size gen IsSent w q p a) (sym (r.same_message q old)) k)
  Part-other g g' m m' i j p s r n (has_sent k) = has_sent k
  Part-other g g' m m' i j p s r n (looks x v l h k) = looks x v l (omega (arith, h, r.rises x l)) k
  Part-other g g' m m' i j p s r n (empties q a e by view k) =
      let (e', by', view') = r.takes q e (λ w. n (sym by ∙ w)) in
      let old = (s.window q (taken-IsLive e)).0 in
      empties q a e' (by' ∙ by) (View-trans (slot_of ring cap q) a m m' view view') (
        subst (λ w. Receiving ring cap inline_size gen IsNone IsDelivery (emptying q w a) p)
          (sym (r.same_message q old)) k)
  Part-other g g' m m' i j p s r n (has_received q l e by k) =
      let (e', by') = r.ends q e in
      has_received q (omega (arith, l, r.grows)) e' (by' ∙ by) (
        subst (λ w. Leaving ring cap inline_size gen (IsDelivery w) p) (sym (r.same_message q l)) k)
