-- ===== src/Index/Progress.antt =====
-- What the slot shows while `write_channel` fills it, access by access.
use django_channels_shm.Prelude.{
  ℕ, zero, suc, ◌%◌, ◌^◌, ◌≤◌, ◌<◌, ◌≡◌, ◌≢◌, refl, ap, Bool, List, length, arith, ==_refl, ne→==,
  ge→ltb, if◌then◌else◌,
}
use django_channels_shm.Shm.{
  Memory, Prog, ret, ◌>>=◌, ◌>>◌, store_u64, write_u16, write_u32, write_u8, copy_in,
}
use django_channels_shm.Shm.Interleave.{access, walk}
use django_channels_shm.Shm.Writer.{after, walk-ret}
use django_channels_shm.Layout.{
  ch_slot_name_hash, ch_slot_name_len, ch_slot_name, ch_slot_version, ch_slot_ring_offset,
  ch_slot_capacity, ch_slot_non_local,
}
use django_channels_shm.Layout.Hash.{fnv1a_hash}
use django_channels_shm.Index.{Found, not_found, write_channel}
use django_channels_shm.Index.Create.{written}

-- A process that writes an entry; it has no answer to give.
abbrev pub creation : ℕ → ℕ → List ℕ → ℕ → ℕ → Bool → Prog Found
creation ch_off so name ring_offset capacity non_local =
    write_channel name ch_off so (fnv1a_hash name) ring_offset capacity non_local >>= λ _.
    ret not_found

-- The accesses of a creation whose name fits its field.
abbrev pub accesses : ℕ → List ℕ → ℕ → ℕ → Bool → Prog Found
accesses so name ring_offset capacity non_local = do
  store_u64 so ch_slot_version 1
  store_u64 so ch_slot_name_hash (fnv1a_hash name)
  write_u16 so ch_slot_name_len (length name % 2 ^ 16)
  copy_in so ch_slot_name name
  store_u64 so ch_slot_ring_offset ring_offset
  write_u32 so ch_slot_capacity capacity
  write_u8 so ch_slot_non_local (if non_local then 1 else 0)
  store_u64 so ch_slot_version 2
  ret not_found

pub creation-accesses :
    (ch_off so : ℕ) (name : List ℕ) (ring_offset capacity : ℕ) (non_local : Bool)
    → length name ≤ 128
    → creation ch_off so name ring_offset capacity non_local
      ≡ accesses so name ring_offset capacity non_local
unfolding write_channel
creation-accesses ch_off so name ring_offset capacity non_local short =
    rw (ge→ltb 128 (length name) short)

module _ (ch_off so : ℕ) (name : List ℕ) (ring_offset capacity : ℕ) (non_local : Bool)
    (m : Memory) where
  abbrev pub shown : ℕ → Memory
  shown = after (accesses so name ring_offset capacity non_local) m

  complete :
      (n : ℕ)
      → shown (suc (suc (suc (suc (suc (suc (suc (suc n))))))))
        ≡ written so name ring_offset capacity non_local m
  unfolding walk access
  complete n = ap (λ s. s.1) (walk-ret n not_found _)

  pub complete_from : (n : ℕ) → 8 ≤ n → shown n ≡ written so name ring_offset capacity non_local m
  complete_from zero h = absurd (omega arith)
  complete_from (suc zero) h = absurd (omega arith)
  complete_from (suc (suc zero)) h = absurd (omega arith)
  complete_from (suc (suc (suc zero))) h = absurd (omega arith)
  complete_from (suc (suc (suc (suc zero)))) h = absurd (omega arith)
  complete_from (suc (suc (suc (suc (suc zero))))) h = absurd (omega arith)
  complete_from (suc (suc (suc (suc (suc (suc zero)))))) h = absurd (omega arith)
  complete_from (suc (suc (suc (suc (suc (suc (suc zero))))))) h = absurd (omega arith)
  complete_from (suc (suc (suc (suc (suc (suc (suc (suc n)))))))) h = complete n

  -- The length of the name appears with the third access.
  pub len_before : (n : ℕ) → n < 3 → (shown n).word so ch_slot_name_len ≡ m.word so ch_slot_name_len
  unfolding walk access
  len_before zero h = refl
  len_before (suc zero) h = refl
  len_before (suc (suc zero)) h = refl
  len_before (suc (suc (suc zero))) h = absurd (omega arith)
  len_before (suc (suc (suc (suc zero)))) h = absurd (omega arith)
  len_before (suc (suc (suc (suc (suc zero))))) h = absurd (omega arith)
  len_before (suc (suc (suc (suc (suc (suc zero)))))) h = absurd (omega arith)
  len_before (suc (suc (suc (suc (suc (suc (suc zero))))))) h = absurd (omega arith)
  len_before (suc (suc (suc (suc (suc (suc (suc (suc n)))))))) h = absurd (omega arith)

  pub len_from : (n : ℕ) → 3 ≤ n → (shown n).word so ch_slot_name_len ≡ length name % 2 ^ 16
  unfolding walk access
  len_from zero h = absurd (omega arith)
  len_from (suc zero) h = absurd (omega arith)
  len_from (suc (suc zero)) h = absurd (omega arith)
  len_from (suc (suc (suc zero))) h = rw (==_refl so)
  len_from (suc (suc (suc (suc zero)))) h = rw (==_refl so)
  len_from (suc (suc (suc (suc (suc zero))))) h = rw (==_refl so)
  len_from (suc (suc (suc (suc (suc (suc zero)))))) h = rw (==_refl so)
  len_from (suc (suc (suc (suc (suc (suc (suc zero))))))) h = rw (==_refl so)
  len_from (suc (suc (suc (suc (suc (suc (suc (suc n)))))))) h = rw (complete n, ==_refl so)

  -- From then on the version is odd, until the last access.
  pub version_odd : (n : ℕ) → 3 ≤ n → n < 8 → (shown n).word so ch_slot_version ≡ 1
  unfolding walk access
  version_odd zero h l = absurd (omega arith)
  version_odd (suc zero) h l = absurd (omega arith)
  version_odd (suc (suc zero)) h l = absurd (omega arith)
  version_odd (suc (suc (suc zero))) h l = rw (==_refl so)
  version_odd (suc (suc (suc (suc zero)))) h l = rw (==_refl so)
  version_odd (suc (suc (suc (suc (suc zero))))) h l = rw (==_refl so)
  version_odd (suc (suc (suc (suc (suc (suc zero)))))) h l = rw (==_refl so)
  version_odd (suc (suc (suc (suc (suc (suc (suc zero))))))) h l = rw (==_refl so)
  version_odd (suc (suc (suc (suc (suc (suc (suc (suc n)))))))) h l = absurd (omega arith)

  -- No other slot changes.
  pub word_elsewhere : (n o f : ℕ) → so ≢ o → (shown n).word o f ≡ m.word o f
  unfolding walk access
  word_elsewhere zero o f d = refl
  word_elsewhere (suc zero) o f d = ground (arith, ne→== so o d)
  word_elsewhere (suc (suc zero)) o f d = ground (arith, ne→== so o d)
  word_elsewhere (suc (suc (suc zero))) o f d = ground (arith, ne→== so o d)
  word_elsewhere (suc (suc (suc (suc zero)))) o f d = ground (arith, ne→== so o d)
  word_elsewhere (suc (suc (suc (suc (suc zero))))) o f d = ground (arith, ne→== so o d)
  word_elsewhere (suc (suc (suc (suc (suc (suc zero)))))) o f d = ground (arith, ne→== so o d)
  word_elsewhere (suc (suc (suc (suc (suc (suc (suc zero))))))) o f d = ground (arith, ne→== so o d)
  word_elsewhere (suc (suc (suc (suc (suc (suc (suc (suc n)))))))) o f d =
      rw (complete n) (ground (arith, ne→== so o d))

  pub bytes_elsewhere : (n o f : ℕ) → so ≢ o → (shown n).bytes o f ≡ m.bytes o f
  unfolding walk access
  bytes_elsewhere zero o f d = refl
  bytes_elsewhere (suc zero) o f d = refl
  bytes_elsewhere (suc (suc zero)) o f d = refl
  bytes_elsewhere (suc (suc (suc zero))) o f d = refl
  bytes_elsewhere (suc (suc (suc (suc zero)))) o f d = ground (arith, ne→== so o d)
  bytes_elsewhere (suc (suc (suc (suc (suc zero))))) o f d = ground (arith, ne→== so o d)
  bytes_elsewhere (suc (suc (suc (suc (suc (suc zero)))))) o f d = ground (arith, ne→== so o d)
  bytes_elsewhere (suc (suc (suc (suc (suc (suc (suc zero))))))) o f d =
      ground (arith, ne→== so o d)
  bytes_elsewhere (suc (suc (suc (suc (suc (suc (suc (suc n)))))))) o f d =
      rw (complete n) (ground (arith, ne→== so o d))
