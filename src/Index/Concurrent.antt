-- ===== src/Index/Concurrent.antt =====
-- Lookups while another process, which holds the lock of the region, writes a new entry.
use django_channels_shm.Prelude.{
  ℕ, zero, suc, ◌+◌, ◌%◌, ◌≤◌, ◌<◌, ◌≡◌, ◌≢◌, refl, sym, ap, ap₂, ◌∙◌, dec_lt, ◌⊎◌, inl, inr, Bool,
  not, List, length, padded, bytes_eq, bytes_eq→eq, ◌==◌, if◌then◌else◌, arith, Bool-cases,
  ℕ_discrete,
}
use mathlib.Core.Path.{subst}
use native.Mathlib.Nat.{mod-eq_of_lt}
use django_channels_shm.Shm.{Memory, Prog, ret, ◌>>=◌, load_u64, read_bytes}
use django_channels_shm.Shm.Interleave.{System, Reach}
use django_channels_shm.Shm.Writer.{Safe, reader-Good}
use django_channels_shm.Layout.{
  hdr_channel_index_off, ch_slot_name_hash, ch_slot_name_len, ch_slot_name, ch_slot_version,
}
use django_channels_shm.Layout.Hash.{fnv1a_hash}
use django_channels_shm.Index.{
  Found, not_found, ch_slot_off, other_name, read_channel, channel_lookup_from,
  channel_index_lookup,
}
use django_channels_shm.Index.Entry.{IsEntry, entry_at, index_of, ch_slot_apart}
use django_channels_shm.Index.Create.{written, Entered, written-Entered}
use django_channels_shm.Index.Progress.{
  creation, accesses, creation-accesses, shown, complete_from, len_before, len_from, version_odd,
  word_elsewhere, bytes_elsewhere,
}

-- An answer that is right once the entry is written: nothing, or a finished entry with its fields.
abbrev pub IsAnswer : ℕ → List ℕ → Memory → Found → Type 0
IsAnswer ch_off name m r =
    (r ≡ not_found) ⊎ ((j : ℕ) × IsEntry ch_off name j m × (r ≡ entry_at ch_off j m))

module _ (ch_off slot : ℕ) (new_name : List ℕ) (named : 0 < length new_name)
    (short : length new_name ≤ 128) (ring_offset capacity : ℕ) (non_local : Bool) (m : Memory)
    (vacant : m.word (ch_slot_off ch_off slot) ch_slot_name_len ≡ 0) (name : List ℕ) where
  abbrev so : ℕ
  so = ch_slot_off ch_off slot

  abbrev final : Memory
  final = written so new_name ring_offset capacity non_local m

  abbrev at : ℕ → Memory
  at = shown ch_off so new_name ring_offset capacity non_local m

  abbrev Sound : ℕ → Prog Found → Type 0
  Sound = Safe (accesses so new_name ring_offset capacity non_local) m (IsAnswer ch_off name final)

  -- From the access `c` on, the numbers of slot `i` stay as they are.
  abbrev Rests : ℕ → ℕ → Type 0
  Rests i c =
      (e f : ℕ) → c ≤ e → (at e).word (ch_slot_off ch_off i) f ≡ final.word (ch_slot_off ch_off i) f

  new_entry : Entered ch_off new_name ring_offset capacity non_local slot m final
  new_entry = written-Entered new_name named short ch_off ring_offset capacity non_local slot m

  Rests-new : (c : ℕ) → 8 ≤ c → Rests slot c
  Rests-new c h e f l =
      rw (complete_from ch_off so new_name ring_offset capacity non_local m e (omega arith))

  same_elsewhere :
      (i e f : ℕ)
      → slot ≢ i
      → (at e).word (ch_slot_off ch_off i) f ≡ m.word (ch_slot_off ch_off i) f
  same_elsewhere i e f n =
      word_elsewhere ch_off so new_name ring_offset capacity non_local m e _ f
        (ch_slot_apart ch_off slot i n)

  Rests-old : (i c : ℕ) → slot ≢ i → Rests i c
  Rests-old i c n e f l =
      same_elsewhere i e f n
      ∙ sym (same_elsewhere i 8 f n)
      ∙ ap (λ (w : Memory). w.word (ch_slot_off ch_off i) f)
          (complete_from ch_off so new_name ring_offset capacity non_local m 8 (omega arith))

  read-Sound :
      (i c : ℕ)
      → IsEntry ch_off name i final
      → Rests i c
      → Sound c (read_channel name ch_off (ch_slot_off ch_off i))
  unfolding Safe read_channel
  read-Sound i c entry rests = λ e he f hf g hg.
      inr (i, entry, rw (rests e _ he, rests f _ (omega arith), rests g _ (omega arith)))

  -- After the second reading of the version.
  compared-Sound :
      (i c : ℕ) (v1 v2 : ℕ) (slot_name : List ℕ) (next : Prog Found)
      → Sound c next
      → (slot_name ≡ name → IsEntry ch_off name i final × Rests i c)
      → Sound c (
          if not (v1 == v2)
          then next
          else (if bytes_eq slot_name name
              then read_channel name ch_off (ch_slot_off ch_off i)
              else next))
  compared-Sound i c v1 v2 slot_name next safe accept = elim (Bool-cases (v1 == v2)) [
    | inr e ↦ rw e safe
    | inl e ↦ elim (Bool-cases (bytes_eq slot_name name)) [
      | inr d ↦ rw (e, d) safe
      | inl d ↦
          let (entry, rests) = accept (bytes_eq→eq slot_name name d) in
          rw (e, d) (read-Sound i c entry rests)
    ]
  ]

  -- A slot, whose hash was read at `a` and whose length at `b`, is taken for an entry if then the
  -- name that is looked for is read under an even version.
  abbrev Accepts : ℕ → ℕ → ℕ → Type 0
  Accepts i a b =
      (at b).word (ch_slot_off ch_off i) ch_slot_name_len ≢ 0
      → (at a).word (ch_slot_off ch_off i) ch_slot_name_hash ≡ fnv1a_hash name
      → (at b).word (ch_slot_off ch_off i) ch_slot_name_len ≡ length name
      → (c d : ℕ) → b ≤ c
      → c ≤ d
      → (at c).word (ch_slot_off ch_off i) ch_slot_version % 2 ≡ 0
      → padded ((at b).word (ch_slot_off ch_off i) ch_slot_name_len)
          ((at d).bytes (ch_slot_off ch_off i) ch_slot_name)
        ≡ name
      → IsEntry ch_off name i final × Rests i d

  -- An old slot is an entry of before, and stays one.
  Accepts-old : (i a b : ℕ) → slot ≢ i → Accepts i a b
  Accepts-old i a b n nz hh hl c d hc hd even same =
      let old : IsEntry ch_off name i m = record {
        hash = sym (same_elsewhere i a ch_slot_name_hash n) ∙ hh;
        len = sym (same_elsewhere i b ch_slot_name_len n) ∙ hl;
        version = rw (← same_elsewhere i c ch_slot_version n) even;
        bytes =
            ap₂ (λ (k : ℕ) (l : List ℕ). padded k l) (sym hl)
              (sym (
                bytes_elsewhere ch_off so new_name ring_offset capacity non_local m d _ ch_slot_name
                  (ch_slot_apart ch_off slot i n)))
            ∙ same;
      } in
      (new_entry.kept name i n old, Rests-old i d n)

  -- The slot that is being written is the finished entry.
  Accepts-new : (a b : ℕ) → Accepts slot a b
  Accepts-new a b nz hh hl c d hc hd even same =
      let late : 3 ≤ b = elim (dec_lt b 3) [
        | yes l ↦
            absurd
              (nz (len_before ch_off so new_name ring_offset capacity non_local m b l ∙ vacant))
        | no g ↦ omega arith
      ] in
      let done : 8 ≤ c = elim (dec_lt c 8) [
        | yes l ↦ absurd (
            omega (
              arith,
              even,
              version_odd ch_off so new_name ring_offset capacity non_local m c (omega arith) l,
            ))
        | no g ↦ omega arith
      ] in
      let len : (at b).word so ch_slot_name_len ≡ length new_name =
        len_from ch_off so new_name ring_offset capacity non_local m b late
        ∙ mod-eq_of_lt (omega (arith, short)) in
      let is : new_name ≡ name =
        sym new_entry.entry.bytes
        ∙ ap₂ (λ (k : ℕ) (w : Memory). padded k (w.bytes so ch_slot_name)) (sym len)
            (sym
              (complete_from ch_off so new_name ring_offset capacity non_local m d (omega arith)))
        ∙ same in
      (subst (λ n. IsEntry ch_off n slot final) is new_entry.entry, Rests-new d (omega arith))

  -- A slot whose hash was read at `a` and whose length was read at `b`; the name counts if it is
  -- read under an even version, and is the name that is looked for.
  slot-Sound :
      (i a b : ℕ) (next : Prog Found)
      → a ≤ b
      → ((c : ℕ) → Sound c next)
      → Accepts i a b
      → Sound b (
          if (at b).word (ch_slot_off ch_off i) ch_slot_name_len == 0
          then next
          else (if other_name
                ((at a).word (ch_slot_off ch_off i) ch_slot_name_hash)
                ((at b).word (ch_slot_off ch_off i) ch_slot_name_len)
                (fnv1a_hash name)
                name
              then next
              else (do
                v1 ← load_u64 (ch_slot_off ch_off i) ch_slot_version
                if not (v1 % 2 == 0) then next else (do
                  slot_name ←
                      read_bytes
                        (ch_slot_off ch_off i)
                        ch_slot_name
                        ((at b).word (ch_slot_off ch_off i) ch_slot_name_len)
                  v2 ← load_u64 (ch_slot_off ch_off i) ch_slot_version
                  if not (v1 == v2)
                      then next
                      else (if bytes_eq slot_name name
                          then read_channel name ch_off (ch_slot_off ch_off i)
                          else next)))))
  unfolding Safe
  slot-Sound i a b next h safe accept =
      let len = (at b).word (ch_slot_off ch_off i) ch_slot_name_len in
      let hash = (at a).word (ch_slot_off ch_off i) ch_slot_name_hash in
      elim (Bool-cases (len == 0)) [
        | inl z ↦ rw z (safe b)
        | inr nz ↦ elim (Bool-cases (other_name hash len (fnv1a_hash name) name)) [
          | inl o ↦ rw (nz, o) (safe b)
          | inr o ↦
              rw (nz, o)
                (λ (c : ℕ) (hc : b ≤ c).
                  elim (Bool-cases ((at c).word (ch_slot_off ch_off i) ch_slot_version % 2 == 0)) [
                    | inr odd ↦ rw odd (safe c)
                    | inl even ↦ rw even (λ (d : ℕ) (hd : c ≤ d) (e : ℕ) (he : d ≤ e).
                        compared-Sound i e _ _ _ next (safe e) (λ same.
                          let (entry, rests) =
                            accept (λ z. ground (arith, z, nz)) (ground (arith, o))
                              (ground (arith, o)) c d hc hd (ground (arith, even)) same in
                          (entry, (λ e' f l. rests e' f (omega arith)))))
                  ])
        ]
      ]

  lookup-Sound : (n i k : ℕ) → Sound k (channel_lookup_from name ch_off (fnv1a_hash name) n i)
  unfolding Safe channel_lookup_from
  lookup-Sound zero i k = inl refl
  lookup-Sound (suc n) i k = λ a ha b hb.
      slot-Sound i a b _ hb (λ c. lookup-Sound n (i + 1) c)
        (elim (ℕ_discrete slot i) [
          | yes e ↦ subst (λ (i : ℕ). Accepts i a b) e (Accepts-new a b)
          | no n ↦ Accepts-old i a b n
        ])

  index_lookup-Sound :
      (k max_channels : ℕ)
      → index_of m ≡ ch_off
      → 0 < ch_off
      → Sound k (channel_index_lookup name max_channels)
  unfolding Safe channel_index_lookup
  index_lookup-Sound k max_channels e p = λ a ha.
      rw
        (
          word_elsewhere ch_off so new_name ring_offset capacity non_local m a 0
              hdr_channel_index_off (λ q. omega (arith, q)),
          e,
        )
        (lookup-Sound max_channels 0 a)

-- One process writes the entry of a name, of 1 to 128 bytes, into a slot that is
-- vacant; the others look up names. However their accesses are interleaved, each lookup that has ended
-- answers that there is no such channel, or with an entry of its name, all of whose fields are those
-- of the finished index: no lookup sees a half-written entry.
pub lookup-concurrent :
    (ch_off slot : ℕ) (new_name : List ℕ) (ring_offset capacity max_channels : ℕ) (non_local : Bool)
    (m : Memory) (names : ℕ → List ℕ) (t : System Found) (i : ℕ) (r : Found)
    → 0 < length new_name
    → length new_name ≤ 128
    → index_of m ≡ ch_off
    → 0 < ch_off
    → m.word (ch_slot_off ch_off slot) ch_slot_name_len ≡ 0
    → Reach
        (record {
          memory = m;
          procs = λ i.
              if i == 0
              then creation ch_off (ch_slot_off ch_off slot) new_name ring_offset capacity non_local
              else channel_index_lookup (names i) max_channels;
        })
        t
    → i ≢ 0
    → t.procs i ≡ ret r
    → IsAnswer ch_off
        (names i)
        (written (ch_slot_off ch_off slot) new_name ring_offset capacity non_local m)
        r
lookup-concurrent ch_off slot new_name ring_offset capacity max_channels non_local m names t i r
      named short e p vacant h d q =
    reader-Good (accesses (ch_slot_off ch_off slot) new_name ring_offset capacity non_local) m
      (λ i r.
        IsAnswer ch_off (names i)
          (written (ch_slot_off ch_off slot) new_name ring_offset capacity non_local m) r)
      (λ i. channel_index_lookup (names i) max_channels) t i r
      (λ j n.
        index_lookup-Sound ch_off slot new_name named short ring_offset capacity non_local m vacant
          (names j) 0 max_channels e p)
      (subst
        (λ w.
          Reach
            (record {
              memory = m;
              procs = λ i. if i == 0 then w else channel_index_lookup (names i) max_channels;
            })
            t)
        (creation-accesses ch_off (ch_slot_off ch_off slot) new_name ring_offset capacity non_local
          short)
        h)
      d q
