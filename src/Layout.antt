-- ===== src/Layout.antt =====
-- crates/_channels_shm_native/src/layout.rs: offsets of the fields, sizes of the objects.
-- The constants carry the names of the source in lower case.
pub mod SizeClass
pub mod Hash
pub mod Regions
pub mod Process
use django_channels_shm.Prelude.{ℕ, List, [], ◌∷◌}

abbrev pub magic : ℕ
magic = 0x43485348

abbrev pub version : ℕ
version = 2

-- The header, at offset 0.
abbrev pub hdr_magic : ℕ
hdr_magic = 0

abbrev pub hdr_version : ℕ
hdr_version = 4

abbrev pub hdr_total_size : ℕ
hdr_total_size = 8

abbrev pub hdr_seq : ℕ
hdr_seq = 16

abbrev pub hdr_inline_size : ℕ
hdr_inline_size = 24

abbrev pub hdr_default_capacity : ℕ
hdr_default_capacity = 28

abbrev pub hdr_expiry : ℕ
hdr_expiry = 32

abbrev pub hdr_group_expiry : ℕ
hdr_group_expiry = 36

abbrev pub hdr_max_channels : ℕ
hdr_max_channels = 40

abbrev pub hdr_max_groups : ℕ
hdr_max_groups = 44

abbrev pub hdr_max_processes : ℕ
hdr_max_processes = 48

abbrev pub hdr_max_members_per_group : ℕ
hdr_max_members_per_group = 52

abbrev pub hdr_channel_index_off : ℕ
hdr_channel_index_off = 56

abbrev pub hdr_group_index_off : ℕ
hdr_group_index_off = 64

abbrev pub hdr_group_members_off : ℕ
hdr_group_members_off = 72

abbrev pub hdr_wakeup_registry_off : ℕ
hdr_wakeup_registry_off = 80

abbrev pub hdr_metrics_counters_off : ℕ
hdr_metrics_counters_off = 88

abbrev pub hdr_dynamic_pool_off : ℕ
hdr_dynamic_pool_off = 96

abbrev pub hdr_size : ℕ
hdr_size = 4096

-- A slot of the channel index.
abbrev pub ch_slot_name_hash : ℕ
ch_slot_name_hash = 0

abbrev pub ch_slot_name_len : ℕ
ch_slot_name_len = 8

abbrev pub ch_slot_name : ℕ
ch_slot_name = 10

abbrev pub ch_slot_ring_offset : ℕ
ch_slot_ring_offset = 144

abbrev pub ch_slot_capacity : ℕ
ch_slot_capacity = 152

abbrev pub ch_slot_non_local : ℕ
ch_slot_non_local = 156

abbrev pub ch_slot_version : ℕ
ch_slot_version = 160

abbrev pub ch_slot_size : ℕ
ch_slot_size = 168

-- A slot of the group index.
abbrev pub grp_slot_name_hash : ℕ
grp_slot_name_hash = 0

abbrev pub grp_slot_name_len : ℕ
grp_slot_name_len = 8

abbrev pub grp_slot_name : ℕ
grp_slot_name = 10

abbrev pub grp_slot_members_offset : ℕ
grp_slot_members_offset = 144

abbrev pub grp_slot_member_count : ℕ
grp_slot_member_count = 152

abbrev pub grp_slot_version : ℕ
grp_slot_version = 160

abbrev pub grp_slot_active : ℕ
grp_slot_active = 168

abbrev pub grp_slot_size : ℕ
grp_slot_size = 176

-- A member of a group.
abbrev pub member_channel_name : ℕ
member_channel_name = 0

abbrev pub member_join_time : ℕ
member_join_time = 128

abbrev pub member_active : ℕ
member_active = 136

abbrev pub member_entry_size : ℕ
member_entry_size = 144

-- A slot of the wakeup registry.
abbrev pub reg_client_prefix : ℕ
reg_client_prefix = 0

abbrev pub reg_socket_path : ℕ
reg_socket_path = 32

abbrev pub reg_pid : ℕ
reg_pid = 140

abbrev pub reg_start_time : ℕ
reg_start_time = 144

abbrev pub reg_valid : ℕ
reg_valid = 152

abbrev pub reg_version : ℕ
reg_version = 160

abbrev pub reg_slot_size : ℕ
reg_slot_size = 168

-- The dynamic pool.
abbrev pub slab_spinlock_size : ℕ
slab_spinlock_size = 8

-- The header of a ring.
abbrev pub ring_enqueue_pos : ℕ
ring_enqueue_pos = 0

abbrev pub ring_dequeue_pos : ℕ
ring_dequeue_pos = 8

abbrev pub ring_capacity : ℕ
ring_capacity = 16

abbrev pub ring_last_compact_enq : ℕ
ring_last_compact_enq = 24

abbrev pub ring_last_compact_deq : ℕ
ring_last_compact_deq = 32

abbrev pub ring_generation : ℕ
ring_generation = 40

abbrev pub ring_header_size : ℕ
ring_header_size = 48

-- A slot of a ring. `slot_recovering` is the owner while a repair is in progress.
abbrev pub slot_seq : ℕ
slot_seq = 0

abbrev pub slot_owner_pid : ℕ
slot_owner_pid = 8

abbrev pub slot_recovering : ℕ
slot_recovering = 0xffffffff

abbrev pub slot_owner_ticket : ℕ
slot_owner_ticket = 16

abbrev pub slot_owner_start_time : ℕ
slot_owner_start_time = 24

abbrev pub slot_compact_mark : ℕ
slot_compact_mark = 32

abbrev pub slot_expiry_ts : ℕ
slot_expiry_ts = 40

abbrev pub slot_channel_len : ℕ
slot_channel_len = 48

abbrev pub slot_channel_name : ℕ
slot_channel_name = 50

abbrev pub slot_msg_len : ℕ
slot_msg_len = 180

abbrev pub slot_inline : ℕ
slot_inline = 184

abbrev pub slot_overflow_off : ℕ
slot_overflow_off = 696

abbrev pub slot_size : ℕ
slot_size = 704

-- The metrics counters.
abbrev pub metrics_counter_count : ℕ
metrics_counter_count = 64

abbrev pub metrics_region_size : ℕ
metrics_region_size = 512

-- `SIZE_CLASSES`
abbrev pub size_classes : List ℕ
size_classes =
    512 ∷ 2048 ∷ 8192 ∷ 32768 ∷ 131072 ∷ 262144 ∷ 524288 ∷ 1048576 ∷ 2097152 ∷ 4194304 ∷ 8388608
    ∷ 16777216 ∷ []
