-- ===== src/Slab/Update.antt =====
-- A block changes hands.
use django_channels_shm.Prelude.{
  ℕ, ◌≡◌, ◌≢◌, refl, ap, ◌∙◌, List, ◌==◌, if◌then◌else◌, eq→==, ne→==, ℕ_discrete,
}
use django_channels_shm.Slab.Chain.{Status, unused, live, free, update}
use django_channels_shm.Slab.Invariant.{size_of}

-- A free-list table with another list for one class.
abbrev pub update_list : (ℕ → List ℕ) → ℕ → List ℕ → ℕ → List ℕ
update_list blocks c xs d = if c == d then xs else blocks d

-- A block changes hands: it stays in use, with its size.
pub update-used :
    (st : ℕ → Status) (x : ℕ) (s : Status) (a : ℕ)
    → size_of s ≡ size_of (st x)
    → st x ≢ unused
    → (size_of (update st x s a) ≡ size_of (st a)) × (update st x s a ≢ unused → st a ≢ unused)
update-used st x s a e n = elim (ℕ_discrete x a) [
  | yes q ↦ (rw (eq→== x a q) (e ∙ ap (λ b. size_of (st b)) q), (λ u w. n (ap st q ∙ w)))
  | no q ↦ rw (ne→== x a q) (refl, (λ u. u))
]

pub used→unused : (s : Status) → ¬ (s ≢ unused) → s ≡ unused
used→unused unused n = refl
used→unused (live c) n = absurd (n (λ e. cc))
used→unused (free c) n = absurd (n (λ e. cc))

pub free_ne : (c : ℕ) → unused ≢ free c
free_ne c e = cc

pub live_ne : (c d : ℕ) → live c ≢ free d
live_ne c d e = cc

pub update_self : (st : ℕ → Status) (x a : ℕ) (s : Status) → x ≡ a → update st x s a ≡ s
update_self st x a s e = rw (eq→== x a e)

pub update_ne : (st : ℕ → Status) (x a : ℕ) (s : Status) → x ≢ a → update st x s a ≡ st a
update_ne st x a s n = rw (ne→== x a n)
