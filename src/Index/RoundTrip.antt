-- ===== src/Index/RoundTrip.antt =====
-- What callers of the channel index can rely on.
use django_channels_shm.Prelude.{
  ℕ, ◌<◌, ◌≤◌, ◌≡◌, ◌≢◌, ap, sym, ◌∙◌, Bool, true, false, some, List, length, ℕ_discrete, arith, at,
  nowhere,
}
use mathlib.Core.Path.{subst}
use django_channels_shm.Shm.{Memory, exec}
use django_channels_shm.Layout.{hdr_channel_index_off}
use django_channels_shm.Layout.Hash.{fnv1a_hash}
use django_channels_shm.Index.{
  channel_lookup_from, ch_slot_off, channel_index_create, channel_index_lookup,
}
use django_channels_shm.Index.Entry.{IsEntry, entry_at, index_of}
use django_channels_shm.Index.Lookup.{lookup-First}
use django_channels_shm.Index.Create.{existed, created, crowded, outcome}

-- A lookup finds an entry that is the only one of its name.
lookup-only :
    (name : List ℕ) (o max_channels j : ℕ) (m : Memory)
    → 0 < length name
    → m.word 0 hdr_channel_index_off ≡ o
    → j < max_channels
    → IsEntry o name j m
    → ((k : ℕ) → k < max_channels → j ≢ k → ¬ IsEntry o name k m)
    → exec (channel_index_lookup name max_channels) m ≡ some (entry_at o j m, m)
unfolding channel_index_lookup exec
lookup-only name o max_channels j m named h below e only =
    subst
      (λ o'.
        exec (channel_lookup_from name o' (fnv1a_hash name) max_channels 0) m
        ≡ some (entry_at o j m, m))
      (sym h)
      (elim (lookup-First name named o m max_channels 0) [
        | at k a b c d ran ↦ elim (ℕ_discrete j k) [
          | yes q ↦ ran ∙ ap (λ k. some (entry_at o k m, m)) (sym q)
          | no n ↦ absurd (only k (omega arith) n c)
        ]
        | nowhere d ran ↦ absurd (d j (omega arith) (omega arith) e)
      ])

-- A channel that was created is found: after `channel_index_create`, of a name of 1 to 128 bytes,
-- answered with a new slot, `channel_index_lookup` answers with
-- that slot and the ring, the capacity and the locality that were given, and changes nothing.
pub lookup-create :
    (name : List ℕ) (ring_offset capacity : ℕ) (non_local : Bool) (max_channels so : ℕ)
    (m m' : Memory)
    → 0 < length name
    → length name ≤ 128
    → exec (channel_index_create name ring_offset capacity non_local max_channels) m
      ≡ some ((so, false), m')
    → so ≢ 0
    → exec (channel_index_lookup name max_channels) m'
      ≡ some ((true, so, ring_offset, capacity, non_local), m')
lookup-create name ring_offset capacity non_local max_channels so m m' named short ran nz =
    elim (outcome name named short ring_offset capacity non_local max_channels m) [
      | existed j w ran' l e t ↦ cc (ran, ran')
      | crowded ran' n f ↦ absurd (nz (cc (ran, ran')))
      | created j m₁ w ran' l n t e ↦
          let same : w ≡ m' = cc (ran, ran') in
          let slot : ch_slot_off (index_of m) j ≡ so = cc (ran, ran') in
          let found =
            lookup-only name (index_of m) max_channels j w named (e.header ∙ t.header) l e.entry
              (λ k b ne x. n k b (t.none_new name k named (e.none_new name k ne x))) in
          subst
            (λ w.
              exec (channel_index_lookup name max_channels) w
              ≡ some ((true, so, ring_offset, capacity, non_local), w))
            same
            (found
              ∙ ap (λ a. some (a, w))
                  (e.fields ∙ ap (λ s. (true, s, ring_offset, capacity, non_local)) slot))
    ]
