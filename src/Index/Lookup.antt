-- ===== src/Index/Lookup.antt =====
-- `channel_index_lookup` finds the first entry of a name.
use django_channels_shm.Prelude.{
  ℕ, zero, suc, ◌+◌, ◌%◌, ◌<◌, ◌≡◌, refl, ap, sym, ◌∙◌, ◌⊎◌, inl, inr, Option, some, List, length,
  padded, bytes_eq, bytes_eq→eq, bytes_eq_refl, ==_refl, ne→==, Bool-cases, ℕ_discrete, arith,
  First, at, nowhere, First-beside,
}
use mathlib.Core.Path.{subst}
use django_channels_shm.Shm.{Memory, exec}
use django_channels_shm.Layout.{
  hdr_channel_index_off, ch_slot_name_hash, ch_slot_name_len, ch_slot_name, ch_slot_version,
}
use django_channels_shm.Layout.Hash.{fnv1a_hash}
use django_channels_shm.Index.{
  Found, not_found, ch_slot_off, channel_lookup_from, channel_index_lookup,
}
use django_channels_shm.Index.Entry.{
  IsEntry, entry_at, other_name-len, other_name-hash, other_name-same,
}

module _ (name : List ℕ) (named : 0 < length name) (ch_off : ℕ) (m : Memory) where
  abbrev Step : ℕ → ℕ → Type 0
  Step n i =
      (IsEntry ch_off name i m
        × (exec (channel_lookup_from name ch_off (fnv1a_hash name) (suc n) i) m
            ≡ some (entry_at ch_off i m, m)))
      ⊎ ((¬ IsEntry ch_off name i m)
          × (exec (channel_lookup_from name ch_off (fnv1a_hash name) (suc n) i) m
              ≡ exec (channel_lookup_from name ch_off (fnv1a_hash name) n (i + 1)) m))

  lookup-Step : (n i : ℕ) → Step n i
  unfolding channel_lookup_from exec
  lookup-Step n i =
      let so = ch_slot_off ch_off i in
      let len = m.word so ch_slot_name_len in
      let hash = m.word so ch_slot_name_hash in
      elim (ℕ_discrete len (length name)) [
        | no nl ↦ elim (ℕ_discrete len 0) [
          | yes z ↦ inr ((λ e. nl e.len), rw (z, exec))
          | no nz ↦ inr (
            (λ e. nl e.len),
            rw (ne→== len 0 nz, other_name-len hash len (fnv1a_hash name) name nl, exec),
          )
        ]
        | yes l ↦ elim (ℕ_discrete hash (fnv1a_hash name)) [
          | no nh ↦ inr (
            (λ e. nh e.hash),
            rw (
              ne→== len 0 (λ z. absurd (omega arith)),
              other_name-hash hash len (fnv1a_hash name) name nh,
              exec,
            ),
          )
          | yes h ↦ elim (ℕ_discrete (m.word so ch_slot_version % 2) 0) [
            | no nv ↦ inr (
              (λ e. nv e.version),
              rw (
                ne→== len 0 (λ z. absurd (omega arith)),
                other_name-same hash len (fnv1a_hash name) name h l,
                exec,
                ne→== (m.word so ch_slot_version % 2) 0 nv,
                exec,
              ),
            )
            | yes v ↦
                elim (Bool-cases (bytes_eq (padded (length name) (m.bytes so ch_slot_name)) name)) [
                  | inl same ↦ inl (
                    (record { hash = h; len = l; version = v; bytes = bytes_eq→eq _ name same }),
                    rw (
                      ne→== len 0 (λ z. absurd (omega arith)),
                      other_name-same hash len (fnv1a_hash name) name h l,
                      exec,
                      v,
                      exec,
                      ==_refl (m.word so ch_slot_version),
                      l,
                      same,
                      exec,
                    ),
                  )
                  | inr other ↦ inr (
                    (λ e. cc (ap (λ n. bytes_eq n name) e.bytes ∙ bytes_eq_refl name, other)),
                    rw (
                      ne→== len 0 (λ z. absurd (omega arith)),
                      other_name-same hash len (fnv1a_hash name) name h l,
                      exec,
                      v,
                      exec,
                      ==_refl (m.word so ch_slot_version),
                      l,
                      other,
                      exec,
                    ),
                  )
                ]
          ]
        ]
      ]

  pub lookup-First :
      (n i : ℕ)
      → First
          (Option (Found × Memory))
          (λ j. IsEntry ch_off name j m)
          (λ j. some (entry_at ch_off j m, m))
          (some (not_found, m))
          n
          i
          (exec (channel_lookup_from name ch_off (fnv1a_hash name) n i) m)
  unfolding channel_lookup_from exec
  lookup-First zero i = nowhere (λ k l u. absurd (omega arith)) refl
  lookup-First (suc n) i = elim (lookup-Step n i) [
    | inl (e, ran) ↦ at i (omega arith) (omega arith) e (λ k l u. absurd (omega arith)) ran
    | inr (no_entry, ran) ↦
        subst
          (λ run.
            First (Option (Found × Memory)) (λ j. IsEntry ch_off name j m)
              (λ j. some (entry_at ch_off j m, m)) (some (not_found, m)) (suc n) i run)
          (sym ran) (First-beside n i _ no_entry (lookup-First n (i + 1)))
  ]

-- A lookup of a name that is not empty changes nothing. It answers with the slot, the ring, the
-- capacity and the locality of the first entry of that name; or it answers that there is none, and
-- then no slot is an entry of it.
pub channel_index_lookup_lem :
    (name : List ℕ) (max_channels any : ℕ) (m : Memory)
    → 0 < length name
    → any < max_channels
    → ((j : ℕ) × (exec (channel_index_lookup name max_channels) m
          ≡ some (entry_at (m.word 0 hdr_channel_index_off) j m, m))
        × (j < max_channels)
        × IsEntry (m.word 0 hdr_channel_index_off) name j m
        × (any < j → ¬ IsEntry (m.word 0 hdr_channel_index_off) name any m))
      ⊎ ((exec (channel_index_lookup name max_channels) m ≡ some (not_found, m))
          × (¬ IsEntry (m.word 0 hdr_channel_index_off) name any m))
unfolding channel_index_lookup exec
channel_index_lookup_lem name max_channels any m named below =
    elim (lookup-First name named (m.word 0 hdr_channel_index_off) m max_channels 0) [
      | at j a b c d e ↦ inl (j, e, omega arith, c, d any (omega arith))
      | nowhere d e ↦ inr (e, d any (omega arith) (omega arith))
    ]
