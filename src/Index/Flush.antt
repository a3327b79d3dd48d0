-- ===== src/Index/Flush.antt =====
-- `flush` and `compact` of index.rs.
use django_channels_shm.Prelude.{ℕ, zero, suc, ◌+◌, ltb, ◌==◌, if◌then◌else◌}
use django_channels_shm.Shm.{
  Prog, ret, ◌>>=◌, ◌>>◌, load_u64, store_u64, read_u16, write_u16, write_u32, write_u8,
}
use django_channels_shm.Layout.{
  hdr_channel_index_off, hdr_group_index_off, ch_slot_name_len, ch_slot_ring_offset,
  ch_slot_capacity, ch_slot_non_local, ch_slot_version, grp_slot_name_len, grp_slot_members_offset,
  grp_slot_member_count, grp_slot_active, grp_slot_version,
}
use django_channels_shm.Slab
use django_channels_shm.Slab.{SlabAllocator}
use django_channels_shm.Ring
use django_channels_shm.Ring.Repair
use django_channels_shm.Index.{ch_slot_off}
use django_channels_shm.Index.Groups.{grp_slot_off}

-- The ring of a slot that is in use and has one is reset.
unfoldable pub reset_ring_of : ℕ → Prog (Unit {0})
reset_ring_of slot_off = do
  name_len ← read_u16 slot_off ch_slot_name_len
  if ltb 0 name_len
      then (do
        ring_off ← load_u64 slot_off ch_slot_ring_offset
        if ring_off == 0 then ret tt else Ring.reset ring_off)
      else ret tt

unfoldable pub clear_channel : ℕ → Prog (Unit {0})
clear_channel slot_off = do
  write_u16 slot_off ch_slot_name_len 0
  store_u64 slot_off ch_slot_ring_offset 0
  write_u32 slot_off ch_slot_capacity 0
  write_u8 slot_off ch_slot_non_local 0
  store_u64 slot_off ch_slot_version 0

unfoldable pub flush_channels : ℕ → ℕ → ℕ → Prog (Unit {0})
unfolding reset_ring_of clear_channel
flush_channels ch_off zero i = ret tt
flush_channels ch_off (suc n) i = do
  reset_ring_of (ch_slot_off ch_off i)
  clear_channel (ch_slot_off ch_off i)
  flush_channels ch_off n (i + 1)

unfoldable pub clear_group : ℕ → Prog (Unit {0})
clear_group slot_off = do
  write_u16 slot_off grp_slot_name_len 0
  store_u64 slot_off grp_slot_members_offset 0
  write_u32 slot_off grp_slot_member_count 0
  write_u8 slot_off grp_slot_active 0
  store_u64 slot_off grp_slot_version 0

unfoldable pub flush_groups : ℕ → ℕ → ℕ → Prog (Unit {0})
unfolding clear_group
flush_groups grp_off zero i = ret tt
flush_groups grp_off (suc n) i = do
  clear_group (grp_slot_off grp_off i)
  flush_groups grp_off n (i + 1)

-- Every ring is reset, every slot emptied, and the pool is taken back as a whole.
unfoldable pub flush : SlabAllocator → ℕ → ℕ → Prog (Unit {0})
unfolding flush_channels flush_groups
flush slab max_channels max_groups = do
  ch_off ← load_u64 0 hdr_channel_index_off
  flush_channels ch_off max_channels 0
  grp_off ← load_u64 0 hdr_group_index_off
  flush_groups grp_off max_groups 0
  Slab.reset slab

unfoldable pub compact_from : ℕ → SlabAllocator → ℕ → ℕ → ℕ → Prog (Unit {0})
compact_from rounds slab ch_off zero i = ret tt
compact_from rounds slab ch_off (suc n) i = do
  name_len ← read_u16 (ch_slot_off ch_off i) ch_slot_name_len
  (if ltb 0 name_len
      then (do
        ring_off ← load_u64 (ch_slot_off ch_off i) ch_slot_ring_offset
        if ring_off == 0 then ret tt else Ring.Repair.compact rounds slab ring_off)
      else ret tt)
  compact_from rounds slab ch_off n (i + 1)

unfoldable pub compact : ℕ → SlabAllocator → ℕ → Prog (Unit {0})
unfolding compact_from
compact rounds slab max_channels = do
  ch_off ← load_u64 0 hdr_channel_index_off
  compact_from rounds slab ch_off max_channels 0
