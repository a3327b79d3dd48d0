-- ===== src/Member.antt =====
-- crates/_channels_shm_native/src/member.rs: the member array of a group.
pub mod Utf8
pub mod Entry
pub mod Kept
pub mod Add
pub mod Remove
pub mod ReadAll
pub mod Joined
use django_channels_shm.Prelude.{
  ℕ, zero, suc, ◌+◌, ◌-◌, ◌*◌, ◌%◌, ◌^◌, min, Bool, true, false, not, ◌&&◌, Option, none, some,
  List, [], ◌∷◌, ltb, leb, ◌==◌, if◌then◌else◌, length, take, padded, bytes_eq, until_nul,
}
use django_channels_shm.Shm.{
  Prog, ret, ◌>>=◌, ◌>>◌, add64, load_u64, store_u64, read_u32, write_u32, read_u8, write_u8,
  read_bytes, copy_in,
}
use django_channels_shm.Layout.{
  member_channel_name, member_join_time, member_active, member_entry_size, grp_slot_member_count,
  grp_slot_version, grp_slot_active,
}
use django_channels_shm.Member.Utf8.{is_utf8}

abbrev pub entry_off : ℕ → ℕ → ℕ
entry_off members_offset i = members_offset + i * member_entry_size

-- The name in an entry: the bytes before the first NUL of the field.
abbrev pub read_name : ℕ → Prog (List ℕ)
read_name entry = do name_buf ← read_bytes entry member_channel_name 128; ret (until_nul name_buf)

-- The first 128 bytes of a name.
abbrev pub clipped : List ℕ → List ℕ
clipped name = take (min (length name) 128) name

-- `existing_len == name_len && existing_name[..name_len] == name_bytes[..name_len]`
abbrev pub same_name : List ℕ → List ℕ → Bool
same_name existing name =
    length existing == min (length name) 128 && bytes_eq existing (clipped name)

unfoldable pub group_member_read : ℕ → ℕ → Prog (Bool × List ℕ × ℕ)
group_member_read members_offset index = do
  active ← read_u8 (entry_off members_offset index) member_active
  name ← read_name (entry_off members_offset index)
  join_time ← load_u64 (entry_off members_offset index) member_join_time
  ret (not (active == 0), name, join_time)

-- Whether the membership had expired: `join_time + group_expiry < now`.
abbrev pub expired : ℕ → ℕ → ℕ → Bool
expired join_time group_expiry now = ltb (add64 join_time group_expiry) now

-- The first free entry: the one found before, or this one.
abbrev pub first_free : Option ℕ → ℕ → Option ℕ
first_free none i = some i
first_free (some j) i = some j

-- How the loop of `group_member_add` ends: the member was there and is refreshed, or the entries
-- were gone through, with the first free one.
pub data Scan : Type 0 where
  refreshed : Scan
  scanned : Option ℕ → Scan

module _ (members_offset : ℕ) (channel_name : List ℕ) where
  -- The loop from entry `i` on, `n` of them left.
  unfoldable pub add_scan : ℕ → ℕ → ℕ → ℕ → Option ℕ → Prog Scan
  add_scan now group_expiry zero i empty_slot = ret (scanned empty_slot)
  add_scan now group_expiry (suc n) i empty_slot = do
    active ← read_u8 (entry_off members_offset i) member_active
    if active == 0 then add_scan now group_expiry n (i + 1) (first_free empty_slot i) else (do
      existing ← read_name (entry_off members_offset i)
      if same_name existing channel_name
          then (do store_u64 (entry_off members_offset i) member_join_time now; ret refreshed)
          else (do
            join_time ← load_u64 (entry_off members_offset i) member_join_time
            if expired join_time group_expiry now
                then (do
                  write_u8 (entry_off members_offset i) member_active 0
                  add_scan now group_expiry n (i + 1) (first_free empty_slot i))
                else add_scan now group_expiry n (i + 1) empty_slot))

  -- The new entry, and the group's count under its version.
  unfoldable pub add_at : ℕ → ℕ → ℕ → Prog Bool
  add_at grp_slot_off now idx = do
    copy_in (entry_off members_offset idx) member_channel_name (padded 128 (clipped channel_name))
    store_u64 (entry_off members_offset idx) member_join_time now
    write_u8 (entry_off members_offset idx) member_active 1
    v ← load_u64 grp_slot_off grp_slot_version
    store_u64 grp_slot_off grp_slot_version (add64 v 1)
    count ← read_u32 grp_slot_off grp_slot_member_count
    write_u32 grp_slot_off grp_slot_member_count ((count + 1) % 2 ^ 32)
    store_u64 grp_slot_off grp_slot_version (add64 v 2)
    ret true

  -- After the scan.
  unfoldable pub add_finish : ℕ → ℕ → Scan → Prog Bool
  add_finish grp_slot_off now refreshed = ret true
  add_finish grp_slot_off now (scanned none) = ret false
  add_finish grp_slot_off now (scanned (some idx)) = add_at grp_slot_off now idx

  unfoldable pub group_member_add : ℕ → ℕ → ℕ → ℕ → Prog Bool
  group_member_add grp_slot_off now max_members group_expiry = do
    scan ← add_scan now group_expiry max_members 0 none
    add_finish grp_slot_off now scan

  -- The member's entry is cleared, the count goes down, and the last member takes the group with it.
  unfoldable pub remove_at : ℕ → ℕ → Prog Bool
  remove_at grp_slot_off i = do
    write_u8 (entry_off members_offset i) member_active 0
    v ← load_u64 grp_slot_off grp_slot_version
    store_u64 grp_slot_off grp_slot_version (add64 v 1)
    count ← read_u32 grp_slot_off grp_slot_member_count
    (if ltb 0 count then write_u32 grp_slot_off grp_slot_member_count (count - 1) else ret tt)
    (if leb count 1 then write_u8 grp_slot_off grp_slot_active 0 else ret tt)
    store_u64 grp_slot_off grp_slot_version (add64 v 2)
    ret true

  unfoldable pub remove_from : ℕ → ℕ → ℕ → Prog Bool
  unfolding remove_at
  remove_from grp_slot_off zero i = ret false
  remove_from grp_slot_off (suc n) i = do
    active ← read_u8 (entry_off members_offset i) member_active
    if active == 0 then remove_from grp_slot_off n (i + 1) else (do
      existing ← read_name (entry_off members_offset i)
      if same_name existing channel_name
          then remove_at grp_slot_off i
          else remove_from grp_slot_off n (i + 1))

  unfoldable pub group_member_remove : ℕ → ℕ → Prog Bool
  unfolding remove_from
  group_member_remove grp_slot_off max_members = remove_from grp_slot_off max_members 0

-- The loop from entry `i` on; names are their bytes, and one that is no UTF-8 is left out.
unfoldable pub read_from : ℕ → ℕ → ℕ → ℕ → ℕ → Prog (List (List ℕ))
read_from members_offset now group_expiry zero i = ret []
read_from members_offset now group_expiry (suc n) i = do
  active ← read_u8 (entry_off members_offset i) member_active
  if active == 0 then read_from members_offset now group_expiry n (i + 1) else (do
    join_time ← load_u64 (entry_off members_offset i) member_join_time
    if expired join_time group_expiry now
        then read_from members_offset now group_expiry n (i + 1)
        else (do
          name ← read_name (entry_off members_offset i)
          out ← read_from members_offset now group_expiry n (i + 1)
          ret (if is_utf8 name then name ∷ out else out)))

unfoldable pub group_members_read_all : ℕ → ℕ → ℕ → ℕ → Prog (List (List ℕ))
unfolding read_from
group_members_read_all members_offset max_members now group_expiry =
    read_from members_offset now group_expiry max_members 0
