-- ===== src/Index/Pass.antt =====
-- How the first pass of `channel_index_create` ends.
use django_channels_shm.Prelude.{
  ℕ, zero, suc, ◌+◌, ◌%◌, ◌≤◌, ◌<◌, ◌≡◌, refl, ap, sym, ◌∙◌, ◌⊎◌, inl, inr, Option, none, some,
  List, length, padded, bytes_eq, bytes_eq→eq, bytes_eq_refl, ==_refl, ne→==, Bool-cases,
  ℕ_discrete, arith,
}
use mathlib.Core.Path.{subst}
use django_channels_shm.Shm.{Memory, exec}
use django_channels_shm.Layout.{ch_slot_name_hash, ch_slot_name_len, ch_slot_name, ch_slot_version}
use django_channels_shm.Layout.Hash.{fnv1a_hash}
use django_channels_shm.Index.{ch_slot_off, repair_channel, find_channel}
use django_channels_shm.Index.Entry.{IsEntry, other_name-len, other_name-hash, other_name-same}
use django_channels_shm.Index.Tidy.{Tidied, Tidied-refl, Tidied-trans, repaired, repaired-Tidied}

module _ (name : List ℕ) (named : 0 < length name) (ch_off : ℕ) where
  -- How the pass over the slots from `i` to `i + n` ends.
  pub data Pass (n i : ℕ) (m : Memory) (run : Option (Option ℕ × Memory)) : Type 0 where
    there :
        (j : ℕ) (m' : Memory)
        → run ≡ some (some (ch_slot_off ch_off j), m')
        → i ≤ j
        → j < i + n
        → IsEntry ch_off name j m
        → Tidied ch_off m m'
        → Pass n i m run
    missing :
        (m' : Memory)
        → run ≡ some (none, m')
        → ((k : ℕ) → i ≤ k → k < i + n → ¬ IsEntry ch_off name k m)
        → Tidied ch_off m m'
        → (m' ≡ m)
          ⊎ ((k : ℕ) × (i ≤ k)
              × (k < i + n)
              × (m'.word (ch_slot_off ch_off k) ch_slot_name_len ≡ 0))
        → Pass n i m run

  -- A slot that is no entry of the name, and was repaired or left alone.
  behind :
      (n i : ℕ) (m m₁ : Memory) (run : Option (Option ℕ × Memory))
      → ¬ IsEntry ch_off name i m
      → Tidied ch_off m m₁
      → (m₁ ≡ m) ⊎ (m₁.word (ch_slot_off ch_off i) ch_slot_name_len ≡ 0)
      → Pass n (i + 1) m₁ run
      → Pass (suc n) i m run
  behind n i m m₁ run no_entry t o (there j m' e a b c d) =
      there j m' e (omega arith) (omega arith) (t.none_new name j named c)
        (Tidied-trans ch_off m m₁ m' t d)
  behind n i m m₁ run no_entry t o (missing m' e a d w) =
      missing m' e
        (λ k l u x. elim (ℕ_discrete i k) [
          | yes q ↦ no_entry (subst (λ (k : ℕ). IsEntry ch_off name k m) (sym q) x)
          | no q ↦ a k (omega arith) (omega arith) (t.kept name k named x)
        ])
        (Tidied-trans ch_off m m₁ m' t d) (which o w)
    where
      which :
          (m₁ ≡ m) ⊎ (m₁.word (ch_slot_off ch_off i) ch_slot_name_len ≡ 0)
          → (m' ≡ m₁)
            ⊎ ((k : ℕ) × (i + 1 ≤ k)
                × (k < i + 1 + n)
                × (m'.word (ch_slot_off ch_off k) ch_slot_name_len ≡ 0))
          → (m' ≡ m)
            ⊎ ((k : ℕ) × (i ≤ k)
                × (k < i + suc n)
                × (m'.word (ch_slot_off ch_off k) ch_slot_name_len ≡ 0))
      which (inr z) w = inr (i, omega arith, omega arith, d.empty i z)
      which (inl p) (inl q) = inl (q ∙ p)
      which (inl p) (inr (k, l, u, z)) = inr (k, omega arith, omega arith, z)

  pub find_channel-Pass :
      (n i : ℕ) (m : Memory) → Pass n i m (exec (find_channel name ch_off (fnv1a_hash name) n i) m)
  unfolding find_channel repair_channel exec
  find_channel-Pass zero i m =
      missing m refl (λ k l u. absurd (omega arith)) (Tidied-refl ch_off m) (inl refl)
  find_channel-Pass (suc n) i m =
      let so = ch_slot_off ch_off i in
      let len = m.word so ch_slot_name_len in
      let hash = m.word so ch_slot_name_hash in
      let H = fnv1a_hash name in
      let alone = λ (no_entry : ¬ IsEntry ch_off name i m).
        behind n i m m (exec (find_channel name ch_off H n (i + 1)) m) no_entry
          (Tidied-refl ch_off m) (inl refl) (find_channel-Pass n (i + 1) m) in
      elim (ℕ_discrete (m.word so ch_slot_version % 2) 0) [
        | no odd ↦
            rw (ne→== (m.word so ch_slot_version % 2) 0 odd, exec)
              (behind n i m (repaired so m) _ (λ e. odd e.version) (repaired-Tidied ch_off i m odd)
                (inr (rw (==_refl so))) (find_channel-Pass n (i + 1) (repaired so m)))
        | yes v ↦ elim (ℕ_discrete len (length name)) [
          | no nl ↦ elim (ℕ_discrete len 0) [
            | yes z ↦ rw (v, exec, z, exec) (alone (λ e. nl e.len))
            | no nz ↦
                rw (v, exec, ne→== len 0 nz, other_name-len hash len H name nl, exec)
                  (alone (λ e. nl e.len))
          ]
          | yes l ↦ elim (ℕ_discrete hash H) [
            | no nh ↦
                rw
                  (
                    v,
                    exec,
                    ne→== len 0 (λ z. absurd (omega arith)),
                    other_name-hash hash len H name nh,
                    exec,
                  )
                  (alone (λ e. nh e.hash))
            | yes h ↦
                elim (Bool-cases (bytes_eq (padded (length name) (m.bytes so ch_slot_name)) name)) [
                  | inl same ↦
                      rw
                        (
                          v,
                          exec,
                          ne→== len 0 (λ z. absurd (omega arith)),
                          other_name-same hash len H name h l,
                          exec,
                          l,
                          same,
                          exec,
                        )
                        (there i m refl (omega arith) (omega arith)
                          (record {
                            hash = h;
                            len = l;
                            version = v;
                            bytes = bytes_eq→eq _ name same;
                          })
                          (Tidied-refl ch_off m))
                  | inr other ↦
                      rw
                        (
                          v,
                          exec,
                          ne→== len 0 (λ z. absurd (omega arith)),
                          other_name-same hash len H name h l,
                          exec,
                          l,
                          other,
                          exec,
                        )
                        (alone
                          (λ e. cc (ap (λ n. bytes_eq n name) e.bytes ∙ bytes_eq_refl name, other)))
                ]
          ]
        ]
      ]
