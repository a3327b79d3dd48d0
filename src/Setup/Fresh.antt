-- ===== src/Setup/Fresh.antt =====
-- What `shm_init` leaves behind.
use django_channels_shm.Prelude.{
  ℕ, zero, suc, ◌+◌, ◌*◌, ◌≤◌, ◌<◌, ◌≡◌, refl, ◌∙◌, some, ne→==, eq→==, ==_refl, ℕ_discrete, arith,
}
use mathlib.Core.Path.{subst}
use django_channels_shm.Shm.{Memory, set_word, exec, Prog}
use django_channels_shm.Shm.Exec.{exec-bind, set_word-apart}
use django_channels_shm.Layout.{
  ch_slot_name_len, ch_slot_ring_offset, ch_slot_capacity, ch_slot_non_local, ch_slot_version,
  grp_slot_name_len, grp_slot_members_offset, grp_slot_member_count, grp_slot_active,
  grp_slot_version, reg_valid, reg_pid, reg_start_time, reg_version,
}
use django_channels_shm.Slab
use django_channels_shm.Slab.{SlabAllocator, init_classes, bump_ptr_offset}
use django_channels_shm.Slab.Invariant.{IsPool}
use django_channels_shm.Index.{ch_slot_off}
use django_channels_shm.Index.Groups.{grp_slot_off}
use django_channels_shm.Registry.{reg_slot_off}
use django_channels_shm.Setup.{init_channels, init_groups, init_registry}

-- The program ends, and no object below `base` changes.
pub record Spares (base : ℕ) (p : Prog (Unit {0})) (m : Memory) : Type 0 where
  pub after : Memory
  pub ran : exec p m ≡ some (tt, after)
  pub same : (a f : ℕ) → a < base → after.word a f ≡ m.word a f

-- The slots below `i` that are empty stay so, and those from `i` on become so.
pub record Emptied (base n i : ℕ) (m m' : Memory) : Type 0 where
  pub kept :
      (k : ℕ)
      → k < i
      → m.word (ch_slot_off base k) ch_slot_name_len ≡ 0
      → m'.word (ch_slot_off base k) ch_slot_name_len ≡ 0
  pub emptied : (k : ℕ) → i ≤ k → k < i + n → m'.word (ch_slot_off base k) ch_slot_name_len ≡ 0

pub init_channels-Spares :
    (base n i : ℕ) (m : Memory)
    → (s : Spares base (init_channels base n i) m) × Emptied base n i m s.after
unfolding init_channels exec
init_channels-Spares base zero i m = (
  record { after = m; ran = refl; same = λ a f l. refl },
  record { kept = λ k l z. z; emptied = λ k a b. absurd (omega arith) },
)
init_channels-Spares base (suc n) i m =
    let so = ch_slot_off base i in
    let m₁ = set_word so ch_slot_version 0 (
      set_word so ch_slot_non_local 0 (
        set_word so ch_slot_capacity 0
          (set_word so ch_slot_ring_offset 0 (set_word so ch_slot_name_len 0 m)))) in
    let (s, e) = init_channels-Spares base n (i + 1) m₁ in
    (
      record {
        after = s.after;
        ran = s.ran;
        same = λ a f l. s.same a f l ∙ ground (arith, ne→== so a);
      },
      record {
        kept = λ k l z. e.kept k (omega arith) (ground arith);
        emptied = λ k a b. elim (ℕ_discrete i k) [
          | yes q ↦ e.kept k (omega arith) (rw (eq→== so (ch_slot_off base k) (omega arith)))
          | no d ↦ e.emptied k (omega arith) (omega arith)
        ];
      },
    )

-- The same of a table whose slots are vacant if `P` holds of them.
pub record Vacated (slot : ℕ → ℕ) (P : ℕ → Memory → Type 0) (n i : ℕ) (m m' : Memory) : Type 0 where
  pub kept : (k : ℕ) → k < i → P (slot k) m → P (slot k) m'
  pub vacant : (k : ℕ) → i ≤ k → k < i + n → P (slot k) m'

-- One more slot in front, which `m₁` shows vacant.
Vacated-next :
    (slot : ℕ → ℕ) (P : ℕ → Memory → Type 0) (n i : ℕ) (m m₁ m' : Memory)
    → ((k : ℕ) → P (slot k) m → P (slot k) m₁)
    → P (slot i) m₁
    → Vacated slot P n (i + 1) m₁ m'
    → Vacated slot P (suc n) i m m'
Vacated-next slot P n i m m₁ m' stays now v = record {
  kept = λ k l p. v.kept k (omega arith) (stays k p);
  vacant = λ k a b. elim (ℕ_discrete i k) [
    | yes e ↦ v.kept k (omega arith) (subst (λ (x : ℕ). P (slot x) m₁) e now)
    | no d ↦ v.vacant k (omega arith) (omega arith)
  ];
}

-- No group, and no process.
abbrev pub NoGroup : ℕ → Memory → Type 0
NoGroup so m =
    (m.word so grp_slot_name_len ≡ 0)
    × (m.word so grp_slot_members_offset ≡ 0)
    × (m.word so grp_slot_member_count ≡ 0)
    × (m.word so grp_slot_active ≡ 0)

abbrev pub NoProcess : ℕ → Memory → Type 0
NoProcess so m =
    (m.word so reg_valid ≡ 0) × (m.word so reg_pid ≡ 0) × (m.word so reg_start_time ≡ 0)

pub init_groups-Spares :
    (base n i : ℕ) (m : Memory)
    → (s : Spares base (init_groups base n i) m) × Vacated (grp_slot_off base) NoGroup n i m s.after
unfolding init_groups exec
init_groups-Spares base zero i m = (
  record { after = m; ran = refl; same = λ a f l. refl },
  record { kept = λ k l p. p; vacant = λ k a b. absurd (omega arith) },
)
init_groups-Spares base (suc n) i m =
    let so = grp_slot_off base i in
    let m₁ = set_word so grp_slot_active 0 (
      set_word so grp_slot_version 0 (
        set_word so grp_slot_member_count 0
          (set_word so grp_slot_members_offset 0 (set_word so grp_slot_name_len 0 m)))) in
    let (s, v) = init_groups-Spares base n (i + 1) m₁ in
    (
      record {
        after = s.after;
        ran = s.ran;
        same = λ a f l. s.same a f l ∙ ground (arith, ne→== so a);
      },
      Vacated-next (grp_slot_off base) NoGroup n i m m₁ s.after
          (λ k p. (ground (arith, p), ground (arith, p), ground (arith, p), ground (arith, p)))
          (rw (==_refl so), rw (==_refl so), rw (==_refl so), rw (==_refl so)) v,
    )

pub init_registry-Spares :
    (base n i : ℕ) (m : Memory)
    → (s : Spares base (init_registry base n i) m) × Vacated
        (reg_slot_off base)
        NoProcess
        n
        i
        m
        s.after
unfolding init_registry exec
init_registry-Spares base zero i m = (
  record { after = m; ran = refl; same = λ a f l. refl },
  record { kept = λ k l p. p; vacant = λ k a b. absurd (omega arith) },
)
init_registry-Spares base (suc n) i m =
    let so = reg_slot_off base i in
    let m₁ =
      set_word so reg_version 0
        (set_word so reg_start_time 0 (set_word so reg_pid 0 (set_word so reg_valid 0 m))) in
    let (s, v) = init_registry-Spares base n (i + 1) m₁ in
    (
      record {
        after = s.after;
        ran = s.ran;
        same = λ a f l. s.same a f l ∙ ground (arith, ne→== so a);
      },
      Vacated-next (reg_slot_off base) NoProcess n i m m₁ s.after
          (λ k p. (ground (arith, p), ground (arith, p), ground (arith, p)))
          (rw (==_refl so), rw (==_refl so), rw (==_refl so)) v,
    )

init_classes-Spares :
    (slab : SlabAllocator) (p : IsPool slab) (n i : ℕ) (m : Memory)
    → Spares slab.pool_offset (init_classes slab n i) m
unfolding init_classes exec
init_classes-Spares slab p zero i m = record { after = m; ran = refl; same = λ a f l. refl }
init_classes-Spares slab p (suc n) i m =
    let lock = slab.spinlocks_offset + i * 8 in
    let head = slab.free_heads_offset + i * 8 in
    let s = init_classes-Spares slab p n (i + 1) (set_word head 0 0 (set_word lock 0 0 m)) in
    record {
      after = s.after;
      ran = s.ran;
      same = λ a f l.
          s.same a f l
          ∙ set_word-apart head 0 0 (set_word lock 0 0 m) a f (λ q. absurd (omega (arith, p.heads)))
          ∙ set_word-apart lock 0 0 m a f (λ q. absurd (omega (arith, p.locks)));
    }

pub init-Spares :
    (slab : SlabAllocator) → IsPool slab → (m : Memory) → Spares slab.pool_offset (Slab.init slab) m
unfolding Slab.init exec
init-Spares slab p m =
    let s = init_classes-Spares slab p slab.num_classes 0 m in
    record {
      after = set_word (bump_ptr_offset slab) 0 0 s.after;
      ran = exec-bind (init_classes slab slab.num_classes 0) _ m s.ran;
      same = λ a f l.
          set_word-apart (bump_ptr_offset slab) 0 0 s.after a f
            (λ q. absurd (omega (arith, p.heads)))
          ∙ s.same a f l;
    }
