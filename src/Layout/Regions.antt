-- ===== src/Layout/Regions.antt =====
-- `compute_offsets` of layout.rs.
use django_channels_shm.Prelude.{ℕ, ◌+◌, ◌*◌, ◌%◌, ◌≤◌, ◌<◌, ◌≡◌, arith}
use django_channels_shm.Layout.{
  hdr_size, ch_slot_size, grp_slot_size, reg_slot_size, metrics_region_size, metrics_counter_count,
}

pub record Offsets : Type 0 where
  pub channel_index : ℕ
  pub group_index : ℕ
  pub group_members : ℕ
  pub wakeup_registry : ℕ
  pub metrics_counters : ℕ
  pub dynamic_pool : ℕ

-- The arguments are `u32`, so no sum reaches 2 ^ 64.
unfoldable pub compute_offsets : ℕ → ℕ → ℕ → ℕ → Offsets
compute_offsets max_channels max_groups max_members_per_group max_processes =
    let ch_off : ℕ = hdr_size in
    let grp_off : ℕ = ch_off + max_channels * ch_slot_size in
    let reg_off : ℕ = grp_off + max_groups * grp_slot_size in
    let metrics_off : ℕ = reg_off + max_processes * reg_slot_size in
    record {
      channel_index = ch_off;
      group_index = grp_off;
      group_members = reg_off;
      wakeup_registry = reg_off;
      metrics_counters = metrics_off;
      dynamic_pool = metrics_off + metrics_region_size;
    }

-- The tables of a region come one behind the other, behind the header: each slot of a table ends
-- before the next table begins, the metrics end where the pool begins, and every table begins at a
-- multiple of 8 bytes, as the atomic accesses to it need.
pub compute_offsets_lem :
    (max_channels max_groups max_members max_processes i j k : ℕ)
    → i < max_channels
    → j < max_groups
    → k < max_processes
    → let o = compute_offsets max_channels max_groups max_members max_processes in
      (hdr_size ≤ o.channel_index)
      × (o.channel_index + i * ch_slot_size + ch_slot_size ≤ o.group_index)
      × (o.group_index + j * grp_slot_size + grp_slot_size ≤ o.wakeup_registry)
      × (o.wakeup_registry + k * reg_slot_size + reg_slot_size ≤ o.metrics_counters)
      × (o.metrics_counters + metrics_counter_count * 8 ≡ o.dynamic_pool)
      × (o.channel_index % 8 ≡ 0)
      × (o.group_index % 8 ≡ 0)
      × (o.wakeup_registry % 8 ≡ 0)
      × (o.metrics_counters % 8 ≡ 0)
      × (o.dynamic_pool % 8 ≡ 0)
unfolding compute_offsets
compute_offsets_lem max_channels max_groups max_members max_processes i j k a b c = (
  omega arith,
  omega arith,
  omega arith,
  omega arith,
  omega arith,
  omega arith,
  omega arith,
  omega arith,
  omega arith,
  omega arith,
)
