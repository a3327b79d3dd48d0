-- ===== src/Index.antt =====
-- crates/_channels_shm_native/src/index.rs: the index of channels. A name is the list of its bytes.
pub mod Groups
pub mod Flush
pub mod Entry
pub mod Lookup
pub mod Tidy
pub mod Pass
pub mod Create
pub mod RoundTrip
pub mod Progress
pub mod Concurrent
use django_channels_shm.Prelude.{
  ℕ, zero, suc, ◌+◌, ◌*◌, ◌%◌, ◌^◌, Bool, true, false, not, ◌||◌, Option, none, some, List, length,
  ◌==◌, if◌then◌else◌, bytes_eq,
}
use django_channels_shm.Shm.{
  Prog, ret, ◌>>=◌, ◌>>◌, load_u64, store_u64, read_u16, write_u16, read_u32, write_u32, read_u8,
  write_u8, read_bytes, copy_field,
}
use django_channels_shm.Layout.{
  hdr_channel_index_off, ch_slot_name_hash, ch_slot_name_len, ch_slot_name, ch_slot_ring_offset,
  ch_slot_capacity, ch_slot_non_local, ch_slot_version, ch_slot_size,
}
use django_channels_shm.Layout.Hash.{fnv1a_hash}

-- Whether there is a match, the offset of its slot, the offset and the capacity of the ring, and
-- whether the channel is not local.
abbrev pub Found : Type 0
Found = Bool × ℕ × ℕ × ℕ × Bool

abbrev pub not_found : Found
not_found = (false, 0, 0, 0, false)

abbrev pub ch_slot_off : ℕ → ℕ → ℕ
ch_slot_off ch_off i = ch_off + i * ch_slot_size

-- `slot_hash != hash || slot_len != name_bytes.len()`
abbrev pub other_name : ℕ → ℕ → ℕ → List ℕ → Bool
other_name slot_hash slot_len hash name = not (slot_hash == hash) || not (slot_len == length name)

module _ (name : List ℕ) (ch_off : ℕ) where
  -- The fields of a slot whose name matches.
  unfoldable pub read_channel : ℕ → Prog Found
  read_channel slot_off = do
    ring_off ← load_u64 slot_off ch_slot_ring_offset
    cap ← read_u32 slot_off ch_slot_capacity
    non_local ← read_u8 slot_off ch_slot_non_local
    ret (true, slot_off, ring_off, cap, not (non_local == 0))

  -- The loop from slot `i` on, `n` of them left.
  unfoldable pub channel_lookup_from : ℕ → ℕ → ℕ → Prog Found
  unfolding read_channel
  channel_lookup_from hash zero i = ret not_found
  channel_lookup_from hash (suc n) i = do
    let next = channel_lookup_from hash n (i + 1)
    let slot_off = ch_slot_off ch_off i
    slot_hash ← load_u64 slot_off ch_slot_name_hash
    slot_len ← read_u16 slot_off ch_slot_name_len
    if slot_len == 0
        then next
        else (if other_name slot_hash slot_len hash name then next else (do
          v1 ← load_u64 slot_off ch_slot_version
          if not (v1 % 2 == 0) then next else (do
            slot_name ← read_bytes slot_off ch_slot_name slot_len
            v2 ← load_u64 slot_off ch_slot_version
            if not (v1 == v2)
                then next
                else (if bytes_eq slot_name name then read_channel slot_off else next))))

  -- A writer died in the slot: it is made an empty one.
  unfoldable pub repair_channel : ℕ → Prog (Unit {0})
  repair_channel slot_off = do
    store_u64 slot_off ch_slot_version 1
    store_u64 slot_off ch_slot_name_hash 0
    write_u16 slot_off ch_slot_name_len 0
    store_u64 slot_off ch_slot_ring_offset 0
    write_u32 slot_off ch_slot_capacity 0
    write_u8 slot_off ch_slot_non_local 0
    store_u64 slot_off ch_slot_version 0

  -- The first pass of `channel_index_create`: the slot that has the name, if there is one.
  unfoldable pub find_channel : ℕ → ℕ → ℕ → Prog (Option ℕ)
  unfolding repair_channel
  find_channel hash zero i = ret none
  find_channel hash (suc n) i = do
    let next = find_channel hash n (i + 1)
    let slot_off = ch_slot_off ch_off i
    v ← load_u64 slot_off ch_slot_version
    if not (v % 2 == 0) then (repair_channel slot_off >> next) else (do
      slot_hash ← load_u64 slot_off ch_slot_name_hash
      slot_len ← read_u16 slot_off ch_slot_name_len
      if slot_len == 0
          then next
          else (if other_name slot_hash slot_len hash name then next else (do
            slot_name ← read_bytes slot_off ch_slot_name slot_len
            if bytes_eq slot_name name then ret (some slot_off) else next)))

  -- The new entry, written under the slot's version.
  unfoldable pub write_channel : ℕ → ℕ → ℕ → ℕ → Bool → Prog (Unit {0})
  write_channel slot_off hash ring_offset capacity non_local = do
    store_u64 slot_off ch_slot_version 1
    store_u64 slot_off ch_slot_name_hash hash
    write_u16 slot_off ch_slot_name_len (length name % 2 ^ 16)
    copy_field 128 slot_off ch_slot_name name
    store_u64 slot_off ch_slot_ring_offset ring_offset
    write_u32 slot_off ch_slot_capacity capacity
    write_u8 slot_off ch_slot_non_local (if non_local then 1 else 0)
    store_u64 slot_off ch_slot_version 2

  -- The second pass of `channel_index_create`.
  unfoldable pub place_channel : ℕ → ℕ → ℕ → Bool → ℕ → ℕ → Prog (ℕ × Bool)
  unfolding write_channel
  place_channel hash ring_offset capacity non_local zero i = ret (0, false)
  place_channel hash ring_offset capacity non_local (suc n) i = do
    let slot_off = ch_slot_off ch_off i
    slot_len ← read_u16 slot_off ch_slot_name_len
    if slot_len == 0
        then (write_channel slot_off hash ring_offset capacity non_local >> ret (slot_off, false))
        else place_channel hash ring_offset capacity non_local n (i + 1)

unfoldable pub channel_index_lookup : List ℕ → ℕ → Prog Found
channel_index_lookup name max_channels = do
  ch_off ← load_u64 0 hdr_channel_index_off
  channel_lookup_from name ch_off (fnv1a_hash name) max_channels 0

-- The offset of the slot, and whether it was there before; (0, false) if the index is full.
unfoldable pub channel_index_create : List ℕ → ℕ → ℕ → Bool → ℕ → Prog (ℕ × Bool)
channel_index_create name ring_offset capacity non_local max_channels = do
  ch_off ← load_u64 0 hdr_channel_index_off
  existing ← find_channel name ch_off (fnv1a_hash name) max_channels 0
  elim existing [
    | some slot_off ↦ ret (slot_off, true)
    | none ↦
        place_channel name ch_off (fnv1a_hash name) ring_offset capacity non_local max_channels 0
  ]
