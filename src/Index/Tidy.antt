-- ===== src/Index/Tidy.antt =====
-- The first pass of `channel_index_create` repairs slots and keeps the entries.
use django_channels_shm.Prelude.{
  ℕ, ◌%◌, ◌<◌, ◌≡◌, ◌≢◌, refl, ap, sym, ◌∙◌, List, length, padded, ne→==, eq→==, ℕ_discrete, arith,
}
use mathlib.Core.Path.{subst}
use django_channels_shm.Shm.{Memory, set_word}
use django_channels_shm.Layout.{
  hdr_channel_index_off, ch_slot_name_hash, ch_slot_name_len, ch_slot_name, ch_slot_version,
  ch_slot_ring_offset, ch_slot_capacity, ch_slot_non_local,
}
use django_channels_shm.Index.{ch_slot_off}
use django_channels_shm.Index.Entry.{IsEntry, ch_slot_apart}

-- From `m` to `m'` the entries of names that are not empty stay the same, and empty slots stay empty.
pub record Tidied (ch_off : ℕ) (m m' : Memory) : Type 0 where
  pub kept :
      (name : List ℕ) (k : ℕ) → 0 < length name → IsEntry ch_off name k m → IsEntry ch_off name k m'
  pub none_new :
      (name : List ℕ) (k : ℕ) → 0 < length name → IsEntry ch_off name k m' → IsEntry ch_off name k m
  pub header : m'.word 0 hdr_channel_index_off ≡ m.word 0 hdr_channel_index_off
  pub empty :
      (k : ℕ)
      → m.word (ch_slot_off ch_off k) ch_slot_name_len ≡ 0
      → m'.word (ch_slot_off ch_off k) ch_slot_name_len ≡ 0

pub Tidied-refl : (ch_off : ℕ) (m : Memory) → Tidied ch_off m m
Tidied-refl ch_off m = record {
  kept = λ name k p e. e;
  none_new = λ name k p e. e;
  header = refl;
  empty = λ k z. z;
}

pub Tidied-trans :
    (ch_off : ℕ) (a b c : Memory) → Tidied ch_off a b → Tidied ch_off b c → Tidied ch_off a c
Tidied-trans ch_off a b c s t = record {
  kept = λ name k p e. t.kept name k p (s.kept name k p e);
  none_new = λ name k p e. s.none_new name k p (t.none_new name k p e);
  header = t.header ∙ s.header;
  empty = λ k z. t.empty k (s.empty k z);
}

abbrev pub repaired : ℕ → Memory → Memory
repaired so m = set_word so ch_slot_version 0 (
    set_word so ch_slot_non_local 0 (
      set_word so ch_slot_capacity 0 (
        set_word so ch_slot_ring_offset 0 (
          set_word so ch_slot_name_len 0
            (set_word so ch_slot_name_hash 0 (set_word so ch_slot_version 1 m))))))

-- An entry is read from four fields of its slot.
pub IsEntry-same :
    (ch_off : ℕ) (name : List ℕ) (k : ℕ) (m m' : Memory)
    → m'.word (ch_slot_off ch_off k) ch_slot_name_hash
      ≡ m.word (ch_slot_off ch_off k) ch_slot_name_hash
    → m'.word (ch_slot_off ch_off k) ch_slot_name_len
      ≡ m.word (ch_slot_off ch_off k) ch_slot_name_len
    → m'.word (ch_slot_off ch_off k) ch_slot_version ≡ m.word (ch_slot_off ch_off k) ch_slot_version
    → m'.bytes (ch_slot_off ch_off k) ch_slot_name ≡ m.bytes (ch_slot_off ch_off k) ch_slot_name
    → IsEntry ch_off name k m
    → IsEntry ch_off name k m'
IsEntry-same ch_off name k m m' a b c d e = record {
  hash = a ∙ e.hash;
  len = b ∙ e.len;
  version = ap (λ (v : ℕ). v % 2) c ∙ e.version;
  bytes = ap (padded (length name)) d ∙ e.bytes;
}

pub repaired-Tidied :
    (ch_off i : ℕ) (m : Memory)
    → m.word (ch_slot_off ch_off i) ch_slot_version % 2 ≢ 0
    → Tidied ch_off m (repaired (ch_slot_off ch_off i) m)
repaired-Tidied ch_off i m odd = record {
  kept = λ name k p e. elim (ℕ_discrete i k) [
    | yes q ↦ absurd (
        odd (
          subst (λ (k : ℕ). m.word (ch_slot_off ch_off k) ch_slot_version % 2 ≡ 0) (sym q)
            e.version))
    | no n ↦
        let o = ne→== (ch_slot_off ch_off i) (ch_slot_off ch_off k) (ch_slot_apart ch_off i k n) in
        IsEntry-same ch_off name k m (repaired (ch_slot_off ch_off i) m) (rw o) (rw o) (rw o) refl e
  ];
  none_new = λ name k p e. elim (ℕ_discrete i k) [
    | yes q ↦
        let z : (repaired (ch_slot_off ch_off i) m).word (ch_slot_off ch_off k) ch_slot_name_len
            ≡ 0 =
          rw (eq→== (ch_slot_off ch_off i) (ch_slot_off ch_off k) (omega arith)) in
        absurd (omega (arith, e.len))
    | no n ↦
        let o = ne→== (ch_slot_off ch_off i) (ch_slot_off ch_off k) (ch_slot_apart ch_off i k n) in
        IsEntry-same ch_off name k (repaired (ch_slot_off ch_off i) m) m (rw o) (rw o) (rw o) refl e
  ];
  header = refl;
  empty = λ k z. ground arith;
}
