-- ===== src/Index/Entry.antt =====
-- What the slots of the channel index hold.
use django_channels_shm.Prelude.{
  ℕ, ◌%◌, ◌≡◌, ◌≢◌, not, true, false, List, length, padded, ◌==◌, arith,
}
use django_channels_shm.Shm.{Memory}
use django_channels_shm.Layout.{
  hdr_channel_index_off, ch_slot_name_hash, ch_slot_name_len, ch_slot_name, ch_slot_ring_offset,
  ch_slot_capacity, ch_slot_non_local, ch_slot_version,
}
use django_channels_shm.Layout.Hash.{fnv1a_hash}
use django_channels_shm.Index.{Found, ch_slot_off, other_name}

-- Slot `i` is the finished entry of the channel `name`.
pub record IsEntry (ch_off : ℕ) (name : List ℕ) (i : ℕ) (m : Memory) : Type 0 where
  pub hash : m.word (ch_slot_off ch_off i) ch_slot_name_hash ≡ fnv1a_hash name
  pub len : m.word (ch_slot_off ch_off i) ch_slot_name_len ≡ length name
  pub version : m.word (ch_slot_off ch_off i) ch_slot_version % 2 ≡ 0
  pub bytes : padded (length name) (m.bytes (ch_slot_off ch_off i) ch_slot_name) ≡ name

-- Where the index begins.
abbrev pub index_of : Memory → ℕ
index_of m = m.word 0 hdr_channel_index_off

-- The answer to a lookup that finds slot `i`.
abbrev pub entry_at : ℕ → ℕ → Memory → Found
entry_at ch_off i m = (
  true,
  ch_slot_off ch_off i,
  m.word (ch_slot_off ch_off i) ch_slot_ring_offset,
  m.word (ch_slot_off ch_off i) ch_slot_capacity,
  not (m.word (ch_slot_off ch_off i) ch_slot_non_local == 0),
)

pub ch_slot_apart : (ch_off i j : ℕ) → i ≢ j → ch_slot_off ch_off i ≢ ch_slot_off ch_off j
ch_slot_apart ch_off i j n e = n (omega arith)

pub other_name-len : (a b h : ℕ) (name : List ℕ) → b ≢ length name → other_name a b h name ≡ true
other_name-len a b h name n = ground arith

pub other_name-hash : (a b h : ℕ) (name : List ℕ) → a ≢ h → other_name a b h name ≡ true
other_name-hash a b h name n = ground arith

pub other_name-same :
    (a b h : ℕ) (name : List ℕ) → a ≡ h → b ≡ length name → other_name a b h name ≡ false
other_name-same a b h name p q = ground arith
