-- ===== src/Bindings/Functions.antt =====
-- The exported functions of lib.rs over the index and the members of groups. A name is given by its
-- bytes, and `name.len()` is their number.
use django_channels_shm.Prelude.{ℕ, Bool, List, length, ltb, if◌then◌else◌}
use django_channels_shm.Shm.{Prog, ret}
use django_channels_shm.Layout.Hash
use django_channels_shm.Layout.Process
use django_channels_shm.Layout.Process.{Env}
use django_channels_shm.Layout.SizeClass
use django_channels_shm.Layout.Regions
use django_channels_shm.Layout.Regions.{Offsets}
use django_channels_shm.Prelude.{Option}
use django_channels_shm.Index
use django_channels_shm.Index.{Found}
use django_channels_shm.Index.Groups
use django_channels_shm.Index.Flush
use django_channels_shm.Member
use django_channels_shm.Bindings.{
  PyResult, raised, ok_of, channel_name_too_long, group_name_too_long, name_width,
}
use django_channels_shm.Bindings.PySlabAllocator.{PySlabAllocator}

unfoldable pub fnv1a_hash : List ℕ → ℕ
fnv1a_hash name = Hash.fnv1a_hash name

unfoldable pub pid_dead : Env → ℕ → ℕ → Option Bool
pid_dead env pid start_time = Process.pid_dead env pid start_time

-- The offsets in their order, as a tuple.
unfoldable pub compute_offsets : ℕ → ℕ → ℕ → ℕ → ℕ × ℕ × ℕ × ℕ × ℕ × ℕ
compute_offsets max_channels max_groups max_members_per_group max_processes =
    let o : Offsets =
      Regions.compute_offsets max_channels max_groups max_members_per_group max_processes in
    (
      o.channel_index, o.group_index, o.group_members, o.wakeup_registry, o.metrics_counters,
      o.dynamic_pool,
    )

unfoldable pub size_class_for : ℕ → Option ℕ
size_class_for size = SizeClass.size_class_for size

unfoldable pub channel_index_lookup : List ℕ → ℕ → Prog Found
channel_index_lookup name max_channels = Index.channel_index_lookup name max_channels

unfoldable pub channel_index_create : List ℕ → ℕ → ℕ → Bool → ℕ → Prog (PyResult (ℕ × Bool))
channel_index_create name ring_offset capacity non_local max_channels =
    if ltb name_width (length name)
    then ret (raised (channel_name_too_long (length name)))
    else ok_of (Index.channel_index_create name ring_offset capacity non_local max_channels)

unfoldable pub group_index_lookup : List ℕ → ℕ → Prog Found
group_index_lookup name max_groups = Groups.group_index_lookup name max_groups

unfoldable pub group_index_create_or_find :
    List ℕ → PySlabAllocator → ℕ → ℕ → Prog (PyResult (ℕ × ℕ))
group_index_create_or_find name slab max_groups max_members_per_group =
    if ltb name_width (length name)
    then ret (raised (group_name_too_long (length name)))
    else ok_of (Groups.group_index_create_or_find slab.inner name max_groups max_members_per_group)

unfoldable pub group_member_read : ℕ → ℕ → Prog (Bool × List ℕ × ℕ)
group_member_read members_offset index = Member.group_member_read members_offset index

unfoldable pub group_members_read_all : ℕ → ℕ → ℕ → ℕ → Prog (List (List ℕ))
group_members_read_all members_offset max_members now group_expiry =
    Member.group_members_read_all members_offset max_members now group_expiry

unfoldable pub flush : PySlabAllocator → ℕ → ℕ → Prog (Unit {0})
flush slab max_channels max_groups = Flush.flush slab.inner max_channels max_groups

-- The start time is not used. `rounds` bounds the tries of a lock.
unfoldable pub compact : ℕ → PySlabAllocator → ℕ → ℕ → Prog (Unit {0})
compact rounds slab max_channels start_time = Flush.compact rounds slab.inner max_channels

unfoldable pub group_member_add : ℕ → ℕ → List ℕ → ℕ → ℕ → ℕ → Prog (PyResult Bool)
group_member_add grp_slot_off members_offset channel_name now max_members group_expiry =
    if ltb name_width (length channel_name)
    then ret (raised (channel_name_too_long (length channel_name)))
    else ok_of (
        Member.group_member_add members_offset channel_name grp_slot_off now max_members
          group_expiry)

unfoldable pub group_member_remove : ℕ → ℕ → List ℕ → ℕ → Prog Bool
group_member_remove grp_slot_off members_offset channel_name max_members =
    Member.group_member_remove members_offset channel_name grp_slot_off max_members
