-- ===== src/Setup/Joined.antt =====
-- A process that joins a region after `shm_init`.
use django_channels_shm.Prelude.{
  ℕ, ◌≤◌, ◌<◌, ◌≡◌, refl, ap, sym, ◌∙◌, true, some, List, [], length, ==_refl, ne→==, arith, at,
  nowhere,
}
use mathlib.Core.Path.{subst}
use django_channels_shm.Shm.{Memory, set_word, exec, ◌>>=◌, Prog}
use django_channels_shm.Shm.Exec.{exec-bind, set_word-apart}
use django_channels_shm.Layout.{
  magic, version, hdr_magic, hdr_version, hdr_channel_index_off, hdr_inline_size,
  hdr_default_capacity, hdr_max_channels, hdr_max_groups, hdr_max_members_per_group,
  hdr_max_processes, ch_slot_name_len, hdr_expiry, hdr_group_expiry, hdr_total_size,
  hdr_group_index_off, hdr_group_members_off, hdr_wakeup_registry_off, hdr_metrics_counters_off,
  hdr_dynamic_pool_off,
}
use django_channels_shm.Layout.Hash.{fnv1a_hash}
use django_channels_shm.Layout.Regions.{compute_offsets}
use django_channels_shm.Slab
use django_channels_shm.Slab.{SlabAllocator}
use django_channels_shm.Slab.Chain.{unused}
use django_channels_shm.Slab.Invariant.{IsPool, IsValid, IsValid-frame}
use django_channels_shm.Slab.Init.{init-IsValid}
use django_channels_shm.Index.{not_found, ch_slot_off, channel_lookup_from, channel_index_lookup}
use django_channels_shm.Index.Groups.{grp_slot_off}
use django_channels_shm.Registry.{reg_slot_off}
use django_channels_shm.Index.Lookup.{lookup-First}
use django_channels_shm.Setup.{
  Config, offsets_of, write_config, write_offsets, init_channels, init_groups, init_registry,
  shm_init, check_magic, validate_config,
}
use django_channels_shm.Setup.Fresh.{
  NoGroup, NoProcess, init_channels-Spares, init_groups-Spares, init_registry-Spares, init-Spares,
}

-- The header holds the configuration and the offsets of the tables.
pub record IsConfigured (c : Config) (m : Memory) : Type 0 where
  pub inline_size : m.word 0 hdr_inline_size ≡ c.inline_size
  pub default_capacity : m.word 0 hdr_default_capacity ≡ c.default_capacity
  pub max_channels : m.word 0 hdr_max_channels ≡ c.max_channels
  pub max_groups : m.word 0 hdr_max_groups ≡ c.max_groups
  pub max_members : m.word 0 hdr_max_members_per_group ≡ c.max_members_per_group
  pub max_processes : m.word 0 hdr_max_processes ≡ c.max_processes
  pub expiry : m.word 0 hdr_expiry ≡ c.expiry
  pub group_expiry : m.word 0 hdr_group_expiry ≡ c.group_expiry
  pub total_size : m.word 0 hdr_total_size ≡ c.total_size
  pub channel_index : m.word 0 hdr_channel_index_off ≡ (offsets_of c).channel_index
  pub group_index : m.word 0 hdr_group_index_off ≡ (offsets_of c).group_index
  pub group_members : m.word 0 hdr_group_members_off ≡ (offsets_of c).group_members
  pub wakeup_registry : m.word 0 hdr_wakeup_registry_off ≡ (offsets_of c).wakeup_registry
  pub metrics_counters : m.word 0 hdr_metrics_counters_off ≡ (offsets_of c).metrics_counters
  pub dynamic_pool : m.word 0 hdr_dynamic_pool_off ≡ (offsets_of c).dynamic_pool

IsConfigured-valid :
    (c : Config) (m : Memory) → IsConfigured c m → exec (validate_config c) m ≡ some (true, m)
unfolding validate_config exec
IsConfigured-valid c m h = rw (
  h.inline_size,
  ==_refl c.inline_size,
  exec,
  h.default_capacity,
  ==_refl c.default_capacity,
  exec,
  h.max_channels,
  ==_refl c.max_channels,
  exec,
  h.max_groups,
  ==_refl c.max_groups,
  exec,
  h.max_members,
  ==_refl c.max_members_per_group,
  exec,
  h.max_processes,
  ==_refl c.max_processes,
  exec,
)

IsConfigured-same :
    (c : Config) (m m' : Memory)
    → ((f : ℕ) → m'.word 0 f ≡ m.word 0 f)
    → IsConfigured c m
    → IsConfigured c m'
IsConfigured-same c m m' same h = record {
  inline_size = same hdr_inline_size ∙ h.inline_size;
  default_capacity = same hdr_default_capacity ∙ h.default_capacity;
  max_channels = same hdr_max_channels ∙ h.max_channels;
  max_groups = same hdr_max_groups ∙ h.max_groups;
  max_members = same hdr_max_members_per_group ∙ h.max_members;
  max_processes = same hdr_max_processes ∙ h.max_processes;
  expiry = same hdr_expiry ∙ h.expiry;
  group_expiry = same hdr_group_expiry ∙ h.group_expiry;
  total_size = same hdr_total_size ∙ h.total_size;
  channel_index = same hdr_channel_index_off ∙ h.channel_index;
  group_index = same hdr_group_index_off ∙ h.group_index;
  group_members = same hdr_group_members_off ∙ h.group_members;
  wakeup_registry = same hdr_wakeup_registry_off ∙ h.wakeup_registry;
  metrics_counters = same hdr_metrics_counters_off ∙ h.metrics_counters;
  dynamic_pool = same hdr_dynamic_pool_off ∙ h.dynamic_pool;
}

abbrev marked : Memory → Memory
marked m = set_word 0 hdr_version version (set_word 0 hdr_magic magic m)

IsConfigured-marked : (c : Config) (m : Memory) → IsConfigured c m → IsConfigured c (marked m)
IsConfigured-marked c m h = record {
  inline_size = h.inline_size;
  default_capacity = h.default_capacity;
  max_channels = h.max_channels;
  max_groups = h.max_groups;
  max_members = h.max_members;
  max_processes = h.max_processes;
  expiry = h.expiry;
  group_expiry = h.group_expiry;
  total_size = h.total_size;
  channel_index = h.channel_index;
  group_index = h.group_index;
  group_members = h.group_members;
  wakeup_registry = h.wakeup_registry;
  metrics_counters = h.metrics_counters;
  dynamic_pool = h.dynamic_pool;
}

-- The magic number and the version stand at the start.
behind : (m : Memory) (o f : ℕ) → 0 < o → (marked m).word o f ≡ m.word o f
behind m o f h =
    set_word-apart 0 hdr_version version (set_word 0 hdr_magic magic m) o f
      (λ e. omega (arith, e, h))
    ∙ set_word-apart 0 hdr_magic magic m o f (λ e. omega (arith, e, h))

NoGroup-same :
    (so : ℕ) (m m' : Memory) → ((f : ℕ) → m'.word so f ≡ m.word so f) → NoGroup so m → NoGroup so m'
NoGroup-same so m m' same (a, b, c, d) = (same _ ∙ a, same _ ∙ b, same _ ∙ c, same _ ∙ d)

NoProcess-same :
    (so : ℕ) (m m' : Memory)
    → ((f : ℕ) → m'.word so f ≡ m.word so f)
    → NoProcess so m
    → NoProcess so m'
NoProcess-same so m m' same (a, b, c) = (same _ ∙ a, same _ ∙ b, same _ ∙ c)

-- The tables lie one behind the other.
in_order :
    (c : Config)
    → (0 < (offsets_of c).channel_index)
      × ((offsets_of c).channel_index ≤ (offsets_of c).group_index)
      × ((k : ℕ)
          → k < c.max_channels
          → ch_slot_off (offsets_of c).channel_index k < (offsets_of c).group_index)
      × ((offsets_of c).group_index ≤ (offsets_of c).wakeup_registry)
      × ((k : ℕ)
          → k < c.max_groups
          → grp_slot_off (offsets_of c).group_index k < (offsets_of c).wakeup_registry)
      × ((offsets_of c).wakeup_registry ≤ (offsets_of c).dynamic_pool)
      × ((k : ℕ)
          → k < c.max_processes
          → reg_slot_off (offsets_of c).wakeup_registry k < (offsets_of c).dynamic_pool)
unfolding compute_offsets
in_order c = (
  omega arith,
  omega arith,
  (λ k l. omega arith),
  omega arith,
  (λ k l. omega arith),
  omega arith,
  (λ k l. omega arith),
)

module _ (c : Config) (slab : SlabAllocator) (p : IsPool slab)
    (placed : slab.pool_offset ≡ (offsets_of c).dynamic_pool) (m : Memory) where
  header-run :
      (m₀ : Memory) × ((B : Type 0) (k : Unit {0} → Prog B)
        → exec (write_config c >>= λ _. write_offsets (offsets_of c) c.total_size >>= k) m
          ≡ exec (k tt) m₀)
      × (m₀.word 0 hdr_channel_index_off ≡ (offsets_of c).channel_index)
      × IsConfigured c m₀
  unfolding write_config write_offsets compute_offsets exec
  header-run = (
    _,
    (λ B k. refl),
    refl,
    record {
      inline_size = refl;
      default_capacity = refl;
      max_channels = refl;
      max_groups = refl;
      max_members = refl;
      max_processes = refl;
      expiry = refl;
      group_expiry = refl;
      total_size = refl;
      channel_index = refl;
      group_index = refl;
      group_members = refl;
      wakeup_registry = refl;
      metrics_counters = refl;
      dynamic_pool = refl;
    },
  )

  -- `shm_init` ends, and whoever joins the region then finds it set up: the magic number and the
  -- version are right, the check of the configuration succeeds, the header holds all numbers that were
  -- given and the offsets of the tables, a lookup of any name that is not empty finds no channel, no
  -- slot of the index of groups is in use, none of the registry is, and the pool of the allocator is
  -- valid and empty. The pool must
  -- begin where the layout puts it, hold its metadata and end below 2 ^ 64.
  pub shm_init_lem :
      (name : List ℕ)
      → 0 < length name
      → (m' : Memory) × (exec (shm_init c slab) m ≡ some (tt, m'))
        × (exec check_magic m' ≡ some (true, m'))
        × (exec (validate_config c) m' ≡ some (true, m'))
        × IsConfigured c m'
        × (exec (channel_index_lookup name c.max_channels) m' ≡ some (not_found, m'))
        × ((k : ℕ) → k < c.max_groups → NoGroup (grp_slot_off (offsets_of c).group_index k) m')
        × ((k : ℕ)
            → k < c.max_processes
            → NoProcess (reg_slot_off (offsets_of c).wakeup_registry k) m')
        × IsValid slab m' (λ _. unused) (λ _. [])
  unfolding shm_init check_magic channel_index_lookup exec
  shm_init_lem name named =
      let (m₀, head_ran, at_index, conf) = header-run in
      let o = offsets_of c in
      let (positive, up₁, inside, up₂, inside₂, up₃, inside₃) = in_order c in
      let (s₁, e₁) = init_channels-Spares o.channel_index c.max_channels 0 m₀ in
      let (s₂, e₂) = init_groups-Spares o.group_index c.max_groups 0 s₁.after in
      let (s₃, e₃) = init_registry-Spares o.wakeup_registry c.max_processes 0 s₂.after in
      let s₄ = init-Spares slab p s₃.after in
      let (m₄, ran₄, valid, front, locks) = init-IsValid slab p s₃.after in
      let same₄ : s₄.after ≡ m₄ = cc (s₄.ran, ran₄) in
      let low : (a f : ℕ) → a < o.group_index → m₄.word a f ≡ s₁.after.word a f = λ a f l.
        ap (λ (w : Memory). w.word a f) (sym same₄)
        ∙ s₄.same a f (omega (arith, placed, up₂, up₃))
        ∙ s₃.same a f (omega (arith, up₂))
        ∙ s₂.same a f l in
      let kept : (f : ℕ) → m₄.word 0 f ≡ m₀.word 0 f =
        λ f. low 0 f (omega (arith, positive, up₁)) ∙ s₁.same 0 f positive in
      let conf' : IsConfigured c (marked m₄) =
        IsConfigured-marked c m₄ (IsConfigured-same c m₀ m₄ kept conf) in
      (
        marked m₄,
        head_ran _ _
            ∙ exec-bind (init_channels o.channel_index c.max_channels 0) _ m₀ s₁.ran
            ∙ exec-bind (init_groups o.group_index c.max_groups 0) _ s₁.after s₂.ran
            ∙ exec-bind (init_registry o.wakeup_registry c.max_processes 0) _ s₂.after s₃.ran
            ∙ exec-bind (Slab.init slab) _ s₃.after ran₄,
        refl,
        IsConfigured-valid c (marked m₄) conf',
        conf',
        subst
            (λ i.
              exec (channel_lookup_from name i (fnv1a_hash name) c.max_channels 0) (marked m₄)
              ≡ some (not_found, marked m₄))
            (sym (kept hdr_channel_index_off ∙ at_index))
            (elim (lookup-First name named o.channel_index (marked m₄) c.max_channels 0) [
              | nowhere d ran ↦ ran
              | at j a b e d ran ↦
                  let z : m₄.word (ch_slot_off o.channel_index j) ch_slot_name_len ≡ 0 =
                    low (ch_slot_off o.channel_index j) ch_slot_name_len (inside j (omega arith))
                    ∙ e₁.emptied j (omega arith) (omega arith) in
                  absurd (omega (arith, named, z, e.len))
            ]),
        (λ k l.
            NoGroup-same (grp_slot_off o.group_index k) s₂.after (marked m₄)
              (λ f.
                behind m₄ (grp_slot_off o.group_index k) f (omega (arith, positive, up₁))
                ∙ ap (λ (w : Memory). w.word (grp_slot_off o.group_index k) f) (sym same₄)
                ∙ s₄.same (grp_slot_off o.group_index k) f (omega (arith, placed, inside₂ k l, up₃))
                ∙ s₃.same (grp_slot_off o.group_index k) f (inside₂ k l))
              (e₂.vacant k (omega arith) (omega (arith, l)))),
        (λ k l.
            NoProcess-same (reg_slot_off o.wakeup_registry k) s₃.after (marked m₄)
              (λ f.
                behind m₄ (reg_slot_off o.wakeup_registry k) f (omega (arith, positive, up₁, up₂))
                ∙ ap (λ (w : Memory). w.word (reg_slot_off o.wakeup_registry k) f) (sym same₄)
                ∙ s₄.same (reg_slot_off o.wakeup_registry k) f (omega (arith, placed, inside₃ k l)))
              (e₃.vacant k (omega arith) (omega (arith, l)))),
        IsValid-frame slab m₄ (marked m₄) _ _ p
            (λ a l. rw (ne→== 0 a (λ q. absurd (omega (arith, p.heads))))) valid,
      )
