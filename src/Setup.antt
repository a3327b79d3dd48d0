-- ===== src/Setup.antt =====
-- crates/_channels_shm_native/src/lib.rs: a region is set up, and checked by those that join it.
pub mod Fresh
pub mod Joined
use django_channels_shm.Prelude.{ℕ, zero, suc, ◌+◌, ◌*◌, Bool, ◌&&◌, ◌==◌}
use django_channels_shm.Shm.{
  Prog, ret, ◌>>=◌, ◌>>◌, store_u64, store_u32, load_u32, read_u32, write_u32, write_u16, write_u8,
}
use django_channels_shm.Layout.{
  magic, version, hdr_magic, hdr_version, hdr_total_size, hdr_seq, hdr_inline_size,
  hdr_default_capacity, hdr_expiry, hdr_group_expiry, hdr_max_channels, hdr_max_groups,
  hdr_max_processes, hdr_max_members_per_group, hdr_channel_index_off, hdr_group_index_off,
  hdr_group_members_off, hdr_wakeup_registry_off, hdr_metrics_counters_off, hdr_dynamic_pool_off,
  ch_slot_name_len, ch_slot_ring_offset, ch_slot_capacity, ch_slot_non_local, ch_slot_version,
  grp_slot_name_len, grp_slot_members_offset, grp_slot_member_count, grp_slot_active,
  grp_slot_version, reg_valid, reg_pid, reg_start_time, reg_version,
}
use django_channels_shm.Layout.Regions.{Offsets, compute_offsets}
use django_channels_shm.Slab
use django_channels_shm.Slab.{SlabAllocator}
use django_channels_shm.Index.{ch_slot_off}
use django_channels_shm.Index.Groups.{grp_slot_off}
use django_channels_shm.Registry.{reg_slot_off}

-- The arguments of `shm_init` but for the region and the allocator.
pub record Config : Type 0 where
  pub total_size : ℕ
  pub inline_size : ℕ
  pub default_capacity : ℕ
  pub expiry : ℕ
  pub group_expiry : ℕ
  pub max_channels : ℕ
  pub max_groups : ℕ
  pub max_members_per_group : ℕ
  pub max_processes : ℕ

abbrev pub offsets_of : Config → Offsets
offsets_of c = compute_offsets c.max_channels c.max_groups c.max_members_per_group c.max_processes

unfoldable pub write_config : Config → Prog (Unit {0})
write_config c = do
  write_u32 0 hdr_inline_size c.inline_size
  write_u32 0 hdr_default_capacity c.default_capacity
  write_u32 0 hdr_expiry c.expiry
  write_u32 0 hdr_group_expiry c.group_expiry
  write_u32 0 hdr_max_channels c.max_channels
  write_u32 0 hdr_max_groups c.max_groups
  write_u32 0 hdr_max_processes c.max_processes
  write_u32 0 hdr_max_members_per_group c.max_members_per_group

unfoldable pub write_offsets : Offsets → ℕ → Prog (Unit {0})
write_offsets o total_size = do
  store_u64 0 hdr_channel_index_off o.channel_index
  store_u64 0 hdr_group_index_off o.group_index
  store_u64 0 hdr_group_members_off o.group_members
  store_u64 0 hdr_wakeup_registry_off o.wakeup_registry
  store_u64 0 hdr_metrics_counters_off o.metrics_counters
  store_u64 0 hdr_dynamic_pool_off o.dynamic_pool
  store_u64 0 hdr_total_size total_size
  store_u64 0 hdr_seq 0

unfoldable pub init_channels : ℕ → ℕ → ℕ → Prog (Unit {0})
init_channels ch_off zero i = ret tt
init_channels ch_off (suc n) i = do
  let slot_off = ch_slot_off ch_off i
  write_u16 slot_off ch_slot_name_len 0
  store_u64 slot_off ch_slot_ring_offset 0
  write_u32 slot_off ch_slot_capacity 0
  write_u8 slot_off ch_slot_non_local 0
  store_u64 slot_off ch_slot_version 0
  init_channels ch_off n (i + 1)

unfoldable pub init_groups : ℕ → ℕ → ℕ → Prog (Unit {0})
init_groups grp_off zero i = ret tt
init_groups grp_off (suc n) i = do
  let slot_off = grp_slot_off grp_off i
  write_u16 slot_off grp_slot_name_len 0
  store_u64 slot_off grp_slot_members_offset 0
  write_u32 slot_off grp_slot_member_count 0
  store_u64 slot_off grp_slot_version 0
  write_u8 slot_off grp_slot_active 0
  init_groups grp_off n (i + 1)

unfoldable pub init_registry : ℕ → ℕ → ℕ → Prog (Unit {0})
init_registry reg_off zero i = ret tt
init_registry reg_off (suc n) i = do
  let slot_off = reg_slot_off reg_off i
  write_u8 slot_off reg_valid 0
  write_u32 slot_off reg_pid 0
  store_u64 slot_off reg_start_time 0
  store_u64 slot_off reg_version 0
  init_registry reg_off n (i + 1)

-- The magic number is written last but for the version.
unfoldable pub shm_init : Config → SlabAllocator → Prog (Unit {0})
shm_init c slab = do
  write_config c
  write_offsets (offsets_of c) c.total_size
  init_channels (offsets_of c).channel_index c.max_channels 0
  init_groups (offsets_of c).group_index c.max_groups 0
  init_registry (offsets_of c).wakeup_registry c.max_processes 0
  Slab.init slab
  store_u32 0 hdr_magic magic
  store_u32 0 hdr_version version

unfoldable pub check_magic : Prog Bool
check_magic = do
  magic' ← load_u32 0 hdr_magic
  version' ← load_u32 0 hdr_version
  ret ((magic' == magic) && (version' == version))

unfoldable pub read_version : Prog ℕ
read_version = read_u32 0 hdr_version

-- A comparison that fails ends the reads.
abbrev and_then : Bool → Prog Bool → Prog Bool
and_then Bool.true p = p
and_then Bool.false p = ret Bool.false

unfoldable pub validate_config : Config → Prog Bool
validate_config c = do
  a ← load_u32 0 hdr_inline_size
  and_then (a == c.inline_size) (do
    b ← load_u32 0 hdr_default_capacity
    and_then (b == c.default_capacity) (do
      d ← load_u32 0 hdr_max_channels
      and_then (d == c.max_channels) (do
        e ← load_u32 0 hdr_max_groups
        and_then (e == c.max_groups) (do
          f ← load_u32 0 hdr_max_members_per_group
          and_then (f == c.max_members_per_group)
              (do g ← load_u32 0 hdr_max_processes; ret (g == c.max_processes))))))
