-- ===== src/Index/Groups.antt =====
-- The index of groups in index.rs.
use django_channels_shm.Prelude.{
  ℕ, zero, suc, ◌+◌, ◌*◌, ◌%◌, ◌^◌, true, not, ◌||◌, Option, none, some, List, length, ◌==◌,
  if◌then◌else◌, bytes_eq,
}
use django_channels_shm.Shm.{
  Prog, ret, ◌>>=◌, ◌>>◌, load_u64, store_u64, read_u16, write_u16, read_u32, write_u32, read_u8,
  write_u8, read_bytes, copy_field,
}
use django_channels_shm.Layout.{
  hdr_group_index_off, grp_slot_name_hash, grp_slot_name_len, grp_slot_name,
  grp_slot_members_offset, grp_slot_member_count, grp_slot_active, grp_slot_version, grp_slot_size,
  member_active, member_join_time, member_entry_size,
}
use django_channels_shm.Layout.Hash.{fnv1a_hash}
use django_channels_shm.Slab.{SlabAllocator, alloc_cold}
use django_channels_shm.Member.{entry_off}
use django_channels_shm.Index.{Found, not_found, other_name}

abbrev pub grp_slot_off : ℕ → ℕ → ℕ
grp_slot_off grp_off i = grp_off + i * grp_slot_size

module _ (name : List ℕ) (grp_off : ℕ) where
  -- The slot, the members' offset and their number, and whether the group is active.
  unfoldable pub read_group : ℕ → Prog Found
  read_group slot_off = do
    members_off ← load_u64 slot_off grp_slot_members_offset
    count ← read_u32 slot_off grp_slot_member_count
    active ← read_u8 slot_off grp_slot_active
    ret (true, slot_off, members_off, count, not (active == 0))

  unfoldable pub group_lookup_from : ℕ → ℕ → ℕ → Prog Found
  unfolding read_group
  group_lookup_from hash zero i = ret not_found
  group_lookup_from hash (suc n) i = do
    let next = group_lookup_from hash n (i + 1)
    let slot_off = grp_slot_off grp_off i
    slot_hash ← load_u64 slot_off grp_slot_name_hash
    slot_len ← read_u16 slot_off grp_slot_name_len
    if slot_len == 0
        then next
        else (if other_name slot_hash slot_len hash name then next else (do
          v1 ← load_u64 slot_off grp_slot_version
          if not (v1 % 2 == 0) then next else (do
            slot_name ← read_bytes slot_off grp_slot_name slot_len
            v2 ← load_u64 slot_off grp_slot_version
            if not (v1 == v2)
                then next
                else (if bytes_eq slot_name name then read_group slot_off else next))))

  -- A writer died in the slot: it is made an empty one.
  unfoldable pub repair_group : ℕ → Prog (Unit {0})
  repair_group slot_off = do
    store_u64 slot_off grp_slot_version 1
    store_u64 slot_off grp_slot_name_hash 0
    write_u16 slot_off grp_slot_name_len 0
    store_u64 slot_off grp_slot_members_offset 0
    write_u32 slot_off grp_slot_member_count 0
    write_u8 slot_off grp_slot_active 0
    store_u64 slot_off grp_slot_version 0

  -- The first pass of `group_index_create_or_find`: the active group of the name, if there is one.
  unfoldable pub find_group : ℕ → ℕ → ℕ → Prog (Option (ℕ × ℕ))
  unfolding repair_group
  find_group hash zero i = ret none
  find_group hash (suc n) i = do
    let next = find_group hash n (i + 1)
    let slot_off = grp_slot_off grp_off i
    v ← load_u64 slot_off grp_slot_version
    if not (v % 2 == 0) then (repair_group slot_off >> next) else (do
      slot_hash ← load_u64 slot_off grp_slot_name_hash
      slot_len ← read_u16 slot_off grp_slot_name_len
      active ← read_u8 slot_off grp_slot_active
      if (slot_len == 0) || (active == 0)
          then next
          else (if other_name slot_hash slot_len hash name then next else (do
            slot_name ← read_bytes slot_off grp_slot_name slot_len
            if bytes_eq slot_name name
                then (do
                  members_off ← load_u64 slot_off grp_slot_members_offset
                  ret (some (slot_off, members_off)))
                else next)))

  -- The entries from `j` on, `n` of them left, are made free.
  unfoldable pub clear_members : ℕ → ℕ → ℕ → Prog (Unit {0})
  clear_members members_offset zero j = ret tt
  clear_members members_offset (suc n) j = do
    write_u8 (entry_off members_offset j) member_active 0
    store_u64 (entry_off members_offset j) member_join_time 0
    clear_members members_offset n (j + 1)

  unfoldable pub write_group : ℕ → ℕ → ℕ → Prog (Unit {0})
  write_group slot_off hash members_offset = do
    store_u64 slot_off grp_slot_version 1
    store_u64 slot_off grp_slot_name_hash hash
    write_u16 slot_off grp_slot_name_len (length name % 2 ^ 16)
    copy_field 128 slot_off grp_slot_name name
    store_u64 slot_off grp_slot_members_offset members_offset
    write_u32 slot_off grp_slot_member_count 0
    write_u8 slot_off grp_slot_active 1
    store_u64 slot_off grp_slot_version 2

  -- The second pass: the first inactive slot; (0, 0) if there is none, or no room for the members.
  unfoldable pub place_group : SlabAllocator → ℕ → ℕ → ℕ → ℕ → Prog (ℕ × ℕ)
  unfolding alloc_cold clear_members write_group
  place_group slab hash max_members zero i = ret (0, 0)
  place_group slab hash max_members (suc n) i = do
    let slot_off = grp_slot_off grp_off i
    active ← read_u8 slot_off grp_slot_active
    if active == 0
        then (do
          members_offset ← alloc_cold slab (max_members * member_entry_size)
          if members_offset == 0 then ret (0, 0) else (do
            clear_members members_offset max_members 0
            write_group slot_off hash members_offset
            ret (slot_off, members_offset)))
        else place_group slab hash max_members n (i + 1)

unfoldable pub group_index_lookup : List ℕ → ℕ → Prog Found
unfolding group_lookup_from
group_index_lookup name max_groups = do
  grp_off ← load_u64 0 hdr_group_index_off
  group_lookup_from name grp_off (fnv1a_hash name) max_groups 0

-- The offsets of the slot and of the members; (0, 0) is a failure.
unfoldable pub group_index_create_or_find : SlabAllocator → List ℕ → ℕ → ℕ → Prog (ℕ × ℕ)
unfolding find_group place_group
group_index_create_or_find slab name max_groups max_members = do
  grp_off ← load_u64 0 hdr_group_index_off
  existing ← find_group name grp_off (fnv1a_hash name) max_groups 0
  elim existing [
    | some at ↦ ret at
    | none ↦ place_group name grp_off slab (fnv1a_hash name) max_members max_groups 0
  ]
