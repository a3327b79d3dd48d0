-- ===== src/Ring/Concurrent/Counters.antt =====
-- The two counters of the ring, and the slot of the next ticket.
use django_channels_shm.Prelude.{
  ℕ, ◌+◌, ◌%◌, ◌≤◌, ◌<◌, ◌≡◌, ◌≢◌, refl, sym, ap, ◌∙◌, ◌⊎◌, inl, inr, ℕ_discrete, ◌==◌,
  if◌then◌else◌, eq→==, ne→==, arith,
}
use mathlib.Core.Path.{subst}
use native.Mathlib.Nat.{add-mod_right}
use django_channels_shm.Shm.{Memory, set_word}
use django_channels_shm.Shm.Exec.{set_word-apart}
use django_channels_shm.Layout.{ring_enqueue_pos, ring_dequeue_pos, slot_seq}
use django_channels_shm.Ring.{slot_offset}
use django_channels_shm.Ring.Concurrent.{Call}
use django_channels_shm.Ring.Concurrent.Roles.{Known, configured, slots, generation, no_page}
use django_channels_shm.Ring.Concurrent.Invariant.{
  Phase, unclaimed, claimed, published, taken, recycled, IsLive, Shows, History, View, seq_of,
  IsShared,
}
use django_channels_shm.Ring.Concurrent.Quiet.{field-apart}

-- A function with another value at `q`.
abbrev pub put : {A : Type 0} → (ℕ → A) → ℕ → A → ℕ → A
put f q a x = if q == x then a else f x

pub put_self : {A : Type 0} (f : ℕ → A) (q : ℕ) (a : A) (x : ℕ) → q ≡ x → put f q a x ≡ a
put_self f q a x e = rw (eq→== q x e)

pub put_other : {A : Type 0} (f : ℕ → A) (q : ℕ) (a : A) (x : ℕ) → q ≢ x → put f q a x ≡ f x
put_other f q a x n = rw (ne→== q x n)

pub put_case :
    {A : Type 0} (P : A → Type 0) (f : ℕ → A) (q : ℕ) (a : A) (x : ℕ)
    → (q ≡ x → P a)
    → (q ≢ x → P (f x))
    → P (put f q a x)
put_case P f q a x h k = elim (ℕ_discrete q x) [
  | yes e ↦ subst P (sym (put_self f q a x e)) (h e)
  | no n ↦ subst P (sym (put_other f q a x n)) (k n)
]

pub Shows-bounds : (s : Phase) (q n : ℕ) → IsLive s → Shows s q n → (q ≤ n) × (n ≤ q + 1)
Shows-bounds unclaimed q n live h = absurd live
Shows-bounds claimed q n live h = omega (arith, h)
Shows-bounds published q n live h = omega (arith, h)
Shows-bounds taken q n live h = omega (arith, h)
Shows-bounds recycled q n live h = absurd live

module _ (ring cap inline_size gen : ℕ) (two : 2 ≤ cap) (calls : ℕ → Call) (g : History)
    (m : Memory) (s : IsShared ring cap inline_size gen calls g m) where
  abbrev seq : ℕ → ℕ
  seq q = seq_of ring cap inline_size gen calls m q

  -- The slot of a ticket in use shows its number or the next one.
  pub live_seq : (q : ℕ) → IsLive (g.phase q) → (q ≤ seq q) × (seq q ≤ q + 1)
  live_seq q live = Shows-bounds (g.phase q) q (seq q) live (s.shows q)

  -- One lap later the slot is the same.
  pub lap : (p q : ℕ) → p + cap ≡ q → seq p ≡ seq q
  lap p q e =
      ap (λ (x : ℕ). m.word (slot_offset ring x) slot_seq)
        (sym (add-mod_right p cap) ∙ ap (λ (x : ℕ). x % cap) e)

  -- A slot that has come to the next ticket waits for it.
  pub next_ready : g.enq ≤ seq g.enq → seq g.enq ≡ g.enq
  next_ready h = elim (s.ready g.enq (omega arith) (omega (arith, two))) [
    | inl e ↦ e
    | inr (p, e, live) ↦ absurd (omega (arith, h, e, lap p g.enq e, live_seq p live, two))
  ]

  -- Then every slot in use has a later ticket than one lap before.
  pub next_window : seq g.enq ≡ g.enq → (q : ℕ) → IsLive (g.phase q) → g.enq < q + cap
  next_window h q live = elim (ℕ_discrete (q + cap) g.enq) [
    | yes e ↦ absurd (omega (arith, h, e, lap q g.enq e, live_seq q live, two))
    | no n ↦ omega (arith, n, s.window q live)
  ]

  -- A counter of the ring changes.
  pub counter-Known :
      (f d : ℕ)
      → (f ≡ ring_enqueue_pos) ⊎ (f ≡ ring_dequeue_pos)
      → (o a w : ℕ) → Known ring cap inline_size gen o a w
      → (set_word ring f d m).word o a ≡ w
  counter-Known f d h o a w k =
      field-apart ring f d m o a (λ e. apart o a w k (omega (arith, e, h))) ∙ s.known o a w k
    where
      apart :
          (o a w : ℕ)
          → Known ring cap inline_size gen o a w
          → ¬ ((a ≡ ring_enqueue_pos) ⊎ (a ≡ ring_dequeue_pos))
      apart o a w configured h = omega (arith, h)
      apart o a w slots h = omega (arith, h)
      apart o a w generation h = omega (arith, h)
      apart o a w (no_page x l) h = omega (arith, h)

  pub counter_slot :
      (f d y a : ℕ)
      → (set_word ring f d m).word (slot_offset ring y) a ≡ m.word (slot_offset ring y) a
  counter_slot f d y a = set_word-apart ring f d m (slot_offset ring y) a (λ e. omega (arith, e))

  pub counter_View : (f d y : ℕ) → View (slot_offset ring y) m (set_word ring f d m)
  counter_View f d y = ((λ a h. counter_slot f d y a), (λ a h. refl))
