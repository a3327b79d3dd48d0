-- ===== src/Tests/Setup.antt =====
-- A small region is set up.
use django_channels_shm.Prelude.{ℕ, ◌<◌, ◌≡◌, refl, sym, true, some, [], ◌∷◌, arith}
use django_channels_shm.Shm.{Memory, exec, zeroed}
use django_channels_shm.Layout.Regions.{compute_offsets}
use django_channels_shm.Slab.{SlabAllocator}
use django_channels_shm.Slab.Chain.{unused}
use django_channels_shm.Slab.Invariant.{IsPool, IsValid}
use django_channels_shm.Index.{not_found, channel_index_lookup}
use django_channels_shm.Setup.{Config, offsets_of, shm_init, check_magic, validate_config}
use django_channels_shm.Setup.Joined.{IsConfigured, shm_init_lem}
use django_channels_shm.Setup.Fresh.{NoGroup, NoProcess}
use django_channels_shm.Index.Groups.{grp_slot_off}
use django_channels_shm.Registry.{reg_slot_off}

abbrev config : Config
config = record {
  total_size = 200000;
  inline_size = 512;
  default_capacity = 16;
  expiry = 60;
  group_expiry = 86400;
  max_channels = 2;
  max_groups = 2;
  max_members_per_group = 4;
  max_processes = 2;
}

placed : (offsets_of config).dynamic_pool ≡ 5632
unfolding compute_offsets
placed = refl

abbrev pool : SlabAllocator
pool = record {
  pool_offset = 5632;
  pool_size = 65536;
  spinlocks_offset = 5632;
  num_classes = 12;
  free_heads_offset = 5728;
  metadata_size = 200;
}

is_pool : IsPool pool
is_pool = record {
  classes = refl;
  locks = refl;
  heads = refl;
  metadata = refl;
  room = omega arith;
  small = omega arith;
}

shm_init_example :
    (m' : Memory) × (exec (shm_init config pool) zeroed ≡ some (tt, m'))
    × (exec check_magic m' ≡ some (true, m'))
    × (exec (validate_config config) m' ≡ some (true, m'))
    × IsConfigured config m'
    × (exec (channel_index_lookup (97 ∷ []) 2) m' ≡ some (not_found, m'))
    × ((k : ℕ) → k < 2 → NoGroup (grp_slot_off (offsets_of config).group_index k) m')
    × ((k : ℕ) → k < 2 → NoProcess (reg_slot_off (offsets_of config).wakeup_registry k) m')
    × IsValid pool m' (λ _. unused) (λ _. [])
shm_init_example = shm_init_lem config pool is_pool (sym placed) zeroed (97 ∷ []) (omega arith)
