-- ===== src/Index/Create.antt =====
-- `channel_index_create`, and the lookup after it.
use django_channels_shm.Prelude.{
  ℕ, zero, suc, ◌+◌, ◌%◌, ◌^◌, ◌<◌, ◌≤◌, ge→ltb, ◌≡◌, ◌≢◌, refl, ap, ◌∙◌, inl, inr, Bool, true,
  false, not, Option, none, some, List, length, padded-overlay, ◌==◌, if◌then◌else◌, ==_refl, ne→==,
  ℕ_discrete, arith, First, at, nowhere, First-beside,
}
use native.Mathlib.Nat.{mod-eq_of_lt}
use django_channels_shm.Shm.{Memory, set_word, set_bytes, exec, ret}
use django_channels_shm.Shm.Exec.{exec-bind}
use django_channels_shm.Layout.{
  hdr_channel_index_off, ch_slot_name_hash, ch_slot_name_len, ch_slot_name, ch_slot_version,
  ch_slot_ring_offset, ch_slot_capacity, ch_slot_non_local,
}
use django_channels_shm.Layout.Hash.{fnv1a_hash}
use django_channels_shm.Index.{
  ch_slot_off, find_channel, write_channel, place_channel, channel_index_create,
}
use django_channels_shm.Index.Entry.{IsEntry, entry_at, index_of, ch_slot_apart}
use django_channels_shm.Index.Tidy.{Tidied, IsEntry-same}
use django_channels_shm.Index.Pass.{there, missing, find_channel-Pass}

-- The region after the entry was written into the slot at `so`.
abbrev pub written : ℕ → List ℕ → ℕ → ℕ → Bool → Memory → Memory
written so name ring_offset capacity non_local m = set_word so ch_slot_version 2 (
    set_word so ch_slot_non_local (if non_local then 1 else 0) (
      set_word so ch_slot_capacity capacity (
        set_word so ch_slot_ring_offset ring_offset (
          set_bytes so ch_slot_name name (
            set_word so ch_slot_name_len (length name % 2 ^ 16) (
              set_word so ch_slot_name_hash (fnv1a_hash name)
                (set_word so ch_slot_version 1 m)))))))

-- In `m'` slot `j` is the new entry, and the entries of the other slots are those of `m`.
pub record Entered (ch_off : ℕ) (name : List ℕ) (ring_offset capacity : ℕ) (non_local : Bool)
    (j : ℕ) (m m' : Memory) : Type 0 where
  pub entry : IsEntry ch_off name j m'
  pub fields : entry_at ch_off j m' ≡ (true, ch_slot_off ch_off j, ring_offset, capacity, non_local)
  pub kept : (other : List ℕ) (k : ℕ) → j ≢ k → IsEntry ch_off other k m → IsEntry ch_off other k m'
  pub none_new :
      (other : List ℕ) (k : ℕ) → j ≢ k → IsEntry ch_off other k m' → IsEntry ch_off other k m
  pub header : m'.word 0 hdr_channel_index_off ≡ m.word 0 hdr_channel_index_off

as_flag : (b : Bool) → not ((if b then 1 else 0) == 0) ≡ b
as_flag true = refl
as_flag false = refl

module _ (name : List ℕ) (named : 0 < length name) (short : length name ≤ 128)
    (ch_off ring_offset capacity : ℕ) (non_local : Bool) where
  pub written-Entered :
      (j : ℕ) (m : Memory)
      → Entered ch_off name ring_offset capacity non_local j m
          (written (ch_slot_off ch_off j) name ring_offset capacity non_local m)
  written-Entered j m =
      let so = ch_slot_off ch_off j in
      record {
        entry = record {
          hash = rw (==_refl so);
          len = rw (==_refl so) (mod-eq_of_lt (omega (arith, short)));
          version = rw (==_refl so);
          bytes = rw (==_refl so) (padded-overlay name _);
        };
        fields = rw (==_refl so, as_flag non_local);
        kept = λ other k n e.
            let o = ne→== so (ch_slot_off ch_off k) (ch_slot_apart ch_off j k n) in
            IsEntry-same ch_off other k m (written so name ring_offset capacity non_local m) (rw o)
              (rw o) (rw o) (rw o) e;
        none_new = λ other k n e.
            let o = ne→== so (ch_slot_off ch_off k) (ch_slot_apart ch_off j k n) in
            IsEntry-same ch_off other k (written so name ring_offset capacity non_local m) m (rw o)
              (rw o) (rw o) (rw o) e;
        header = refl;
      }

  place-First :
      (n i : ℕ) (m : Memory)
      → First
          (Option ((ℕ × Bool) × Memory))
          (λ j. m.word (ch_slot_off ch_off j) ch_slot_name_len ≡ 0)
          (λ j. some (
            (ch_slot_off ch_off j, false),
            written (ch_slot_off ch_off j) name ring_offset capacity non_local m,
          ))
          (some ((0, false), m))
          n
          i
          (exec (place_channel name ch_off (fnv1a_hash name) ring_offset capacity non_local n i) m)
  unfolding place_channel write_channel exec
  place-First zero i m = nowhere (λ k l u. absurd (omega arith)) refl
  place-First (suc n) i m = elim (ℕ_discrete (m.word (ch_slot_off ch_off i) ch_slot_name_len) 0) [
    | yes z ↦
        at i (omega arith) (omega arith) z (λ k l u. absurd (omega arith))
          (rw (z, exec, ge→ltb 128 (length name) short, exec))
    | no nz ↦
        rw (ne→== (m.word (ch_slot_off ch_off i) ch_slot_name_len) 0 nz, exec)
          (First-beside n i _ nz (place-First n (i + 1) m))
  ]

module _ (name : List ℕ) (named : 0 < length name) (short : length name ≤ 128)
    (ring_offset capacity : ℕ) (non_local : Bool) (max_channels : ℕ) (m : Memory) where
  abbrev pub run : Option ((ℕ × Bool) × Memory)
  run = exec (channel_index_create name ring_offset capacity non_local max_channels) m

  pub data Outcome : Type 0 where
    existed :
        (j : ℕ) (m' : Memory)
        → run ≡ some ((ch_slot_off (index_of m) j, true), m')
        → j < max_channels
        → IsEntry (index_of m) name j m
        → Tidied (index_of m) m m'
        → Outcome
    created :
        (j : ℕ) (m₁ m' : Memory)
        → run ≡ some ((ch_slot_off (index_of m) j, false), m')
        → j < max_channels
        → ((k : ℕ) → k < max_channels → ¬ IsEntry (index_of m) name k m)
        → Tidied (index_of m) m m₁
        → Entered (index_of m) name ring_offset capacity non_local j m₁ m'
        → Outcome
    crowded :
        run ≡ some ((0, false), m)
        → ((k : ℕ) → k < max_channels → ¬ IsEntry (index_of m) name k m)
        → ((k : ℕ) → k < max_channels → m.word (ch_slot_off (index_of m) k) ch_slot_name_len ≢ 0)
        → Outcome

  abbrev second_pass : Option ℕ → Memory → Option ((ℕ × Bool) × Memory)
  second_pass found w =
      exec
        (elim found [
          | some slot_off ↦ ret (slot_off, true)
          | none ↦
              place_channel name (index_of m) (fnv1a_hash name) ring_offset capacity non_local
                max_channels 0
        ])
        w

  then_second :
      {found : Option ℕ} {w : Memory}
      → exec (find_channel name (index_of m) (fnv1a_hash name) max_channels 0) m ≡ some (found, w)
      → run ≡ second_pass found w
  unfolding channel_index_create exec
  then_second e = exec-bind (find_channel name (index_of m) (fnv1a_hash name) max_channels 0) _ m e

  pub outcome : Outcome
  unfolding exec
  outcome = elim (find_channel-Pass name named (index_of m) max_channels 0 m) [
    | there j m' e a b c t ↦ existed j m' (then_second e) (omega arith) c t
    | missing m₁ e a t w ↦
        elim (place-First name named short (index_of m) ring_offset capacity non_local max_channels
          0 m₁) [
            | at j b c d f g ↦
                created j m₁ _ (then_second e ∙ g) (omega arith)
                  (λ k l. a k (omega arith) (omega arith)) t
                  (written-Entered name named short (index_of m) ring_offset capacity non_local j
                    m₁)
            | nowhere f g ↦ elim w [
              | inl same ↦
                  crowded (then_second e ∙ g ∙ ap (λ w. some ((0, false), w)) same)
                    (λ k l. a k (omega arith) (omega arith))
                    (λ k l z. f k (omega arith) (omega arith) (
                      ap (λ (w : Memory). w.word (ch_slot_off (index_of m) k) ch_slot_name_len) same
                      ∙ z))
              | inr (k, l, u, z) ↦ absurd (f k (omega arith) (omega arith) z)
            ]
          ]
  ]
