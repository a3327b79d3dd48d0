-- ===== src/Member/Add.antt =====
-- `group_member_add`.
use django_channels_shm.Prelude.{
  ℕ, zero, suc, ◌+◌, ◌≤◌, ◌<◌, ◌≡◌, ◌≢◌, refl, ap, ◌∙◌, ◌⊎◌, inl, inr, true, false, Option, none,
  some, List, ne→==, ==_refl, length, padded, overlay, padded-overlay-padded, until_nul,
  until_nul-padded, HasNoNul, Bool-cases, ℕ_discrete, arith,
}
use mathlib.Core.Path.{subst}
use django_channels_shm.Shm.{Memory, set_word, exec}
use django_channels_shm.Shm.Exec.{exec-bind}
use django_channels_shm.Layout.{member_channel_name, member_join_time, member_active}
use django_channels_shm.Member.{
  entry_off, clipped, same_name, expired, first_free, Scan, refreshed, scanned, add_scan, add_at,
  add_finish, group_member_add,
}
use django_channels_shm.Member.Kept.{Careful, add_scan-Careful, add_at-Kept}
use django_channels_shm.Member.Entry.{
  name_at, IsMember, IsTaken, clipped-short, same_name→eq, same_name→ne,
}

module _ (off : ℕ) (name : List ℕ) (short : length name ≤ 128) (now expiry : ℕ) where
  -- How the scan of entries `i` to `i + n` ends, started with `free` found.
  data Scanned (n i : ℕ) (free : Option ℕ) (m : Memory) (run : Option (Scan × Memory))
      : Type 0 where
    renewed :
        (j : ℕ) (m' : Memory)
        → run ≡ some (refreshed, m')
        → i ≤ j
        → j < i + n
        → IsMember off j name now m'
        → Scanned n i free m run
    room :
        (k : ℕ) (m' : Memory)
        → run ≡ some (scanned (some k), m')
        → (free ≡ some k) ⊎ ((i ≤ k) × (k < i + n))
        → Scanned n i free m run
    crowded :
        run ≡ some (scanned none, m)
        → free ≡ none
        → ((j : ℕ) → i ≤ j → j < i + n → IsTaken off j name now expiry m)
        → Scanned n i free m run

  -- One more entry in front, passed over with `free'` found after it, and the memory at `m₁`.
  wider :
      (n i : ℕ) (free free' : Option ℕ) (m m₁ : Memory) (run : Option (Scan × Memory))
      → ((k : ℕ) → free' ≡ some k → (free ≡ some k) ⊎ (k ≡ i))
      → free' ≢ none
      → Scanned n (i + 1) free' m₁ run
      → Scanned (suc n) i free m run
  wider n i free free' m m₁ run h nn (renewed j m' e a b c) =
      renewed j m' e (omega arith) (omega arith) c
  wider n i free free' m m₁ run h nn (room k m' e (inr (a, b))) =
      room k m' e (inr (omega arith, omega arith))
  wider n i free free' m m₁ run h nn (room k m' e (inl f)) = elim (h k f) [
    | inl g ↦ room k m' e (inl g)
    | inr g ↦ room k m' e (inr (omega arith, omega arith))
  ]
  wider n i free free' m m₁ run h nn (crowded e f g) = absurd (nn f)

  -- One more entry in front that another member holds.
  behind_taken :
      (n i : ℕ) (free : Option ℕ) (m : Memory) (run : Option (Scan × Memory))
      → IsTaken off i name now expiry m
      → Scanned n (i + 1) free m run
      → Scanned (suc n) i free m run
  behind_taken n i free m run t (renewed j m' e a b c) =
      renewed j m' e (omega arith) (omega arith) c
  behind_taken n i free m run t (room k m' e (inl f)) = room k m' e (inl f)
  behind_taken n i free m run t (room k m' e (inr (a, b))) =
      room k m' e (inr (omega arith, omega arith))
  behind_taken n i free m run t (crowded e f g) = crowded e f λ j a b. elim (ℕ_discrete i j) [
    | yes q ↦ subst (λ (j : ℕ). IsTaken off j name now expiry m) q t
    | no q ↦ g j (omega arith) (omega arith)
  ]

  first_free-some :
      (free : Option ℕ) (i k : ℕ) → first_free free i ≡ some k → (free ≡ some k) ⊎ (k ≡ i)
  first_free-some none i k h = inr (ground arith)
  first_free-some (some j) i k h = inl h

  first_free-ne-none : (free : Option ℕ) (i : ℕ) → first_free free i ≢ none
  first_free-ne-none none i h = cc
  first_free-ne-none (some j) i h = cc

  add_scan-Scanned :
      (n i : ℕ) (free : Option ℕ) (m : Memory)
      → Scanned n i free m (exec (add_scan off name now expiry n i free) m)
  unfolding add_scan exec
  add_scan-Scanned zero i none m = crowded refl refl (λ j a b. absurd (omega arith))
  add_scan-Scanned zero i (some k) m = room k m refl (inl refl)
  add_scan-Scanned (suc n) i free m = elim (ℕ_discrete (m.word (entry_off off i) member_active) 0) [
    | yes z ↦
        rw (z, exec)
          (wider n i free (first_free free i) m m _ (first_free-some free i)
            (first_free-ne-none free i) (add_scan-Scanned n (i + 1) (first_free free i) m))
    | no nz ↦
        rw (ne→== (m.word (entry_off off i) member_active) 0 nz, exec)
          (elim (Bool-cases (same_name (name_at off i m) name)) [
            | inl same ↦
                rw (same, exec)
                  (renewed i (set_word (entry_off off i) member_join_time now m) refl (omega arith)
                    (omega arith)
                    (
                      nz,
                      same_name→eq (name_at off i m) name short same,
                      rw (==_refl (entry_off off i)),
                    ))
            | inr other ↦
                rw (other, exec)
                  (elim (Bool-cases
                    (expired (m.word (entry_off off i) member_join_time) expiry now)) [
                      | inl old ↦
                          rw (old, exec)
                            (wider n i free (first_free free i) m
                              (set_word (entry_off off i) member_active 0 m) _
                              (first_free-some free i) (first_free-ne-none free i)
                              (add_scan-Scanned n (i + 1) (first_free free i)
                                (set_word (entry_off off i) member_active 0 m)))
                      | inr fresh ↦
                          rw (fresh, exec)
                            (behind_taken n i free m _
                              (nz, same_name→ne (name_at off i m) name short other, fresh)
                              (add_scan-Scanned n (i + 1) free m))
                    ])
          ])
  ]

  add_at-IsMember :
      (grp idx : ℕ) (m : Memory)
      → HasNoNul name
      → (m' : Memory) × (exec (add_at off name grp now idx) m ≡ some (true, m'))
        × IsMember off idx name now m'
  unfolding add_at exec
  add_at-IsMember grp idx m z = (
    _,
    refl,
    (
      rw (==_refl (entry_off off idx)) (λ e. absurd (omega arith)),
      rw (==_refl (entry_off off idx)) written,
      rw (==_refl (entry_off off idx)),
    ),
  )
    where
      written :
          until_nul (
            padded 128 (
              overlay
                (padded 128 (clipped name))
                (m.bytes (entry_off off idx) member_channel_name)))
          ≡ name
      written =
          ap until_nul (padded-overlay-padded 128 (clipped name) _)
          ∙ rw (clipped-short name short) (until_nul-padded 128 name short z)

-- `group_member_add` of a name of at most 128 bytes without NUL: either it answers true, and then an
-- entry is the membership of that name, renewed now, and every entry that was the membership of
-- another channel and has not expired still is; or it answers false, and then it changed nothing, and
-- any entry is the membership of another channel that has not expired.
pub group_member_add_lem :
    (off grp now max_members expiry any : ℕ) (name : List ℕ) (m : Memory)
    → length name ≤ 128
    → HasNoNul name
    → any < max_members
    → ((m' : Memory) × (j : ℕ) × (exec (group_member_add off name grp now max_members expiry) m
          ≡ some (true, m'))
        × (j < max_members)
        × IsMember off j name now m'
        × ((k : ℕ) → IsTaken off k name now expiry m → IsTaken off k name now expiry m'))
      ⊎ ((exec (group_member_add off name grp now max_members expiry) m ≡ some (false, m))
          × IsTaken off any name now expiry m)
unfolding group_member_add add_finish exec
group_member_add_lem off grp now max_members expiry any name m short z below =
    finish (add_scan-Scanned off name short now expiry max_members 0 none m)
  where
    then_finish :
        {scan : Scan} {m₁ : Memory}
        → exec (add_scan off name now expiry max_members 0 none) m ≡ some (scan, m₁)
        → exec (group_member_add off name grp now max_members expiry) m
          ≡ exec (add_finish off name grp now scan) m₁
    then_finish e =
        exec-bind (add_scan off name now expiry max_members 0 none) (add_finish off name grp now) m
          e

    careful :
        {scan : Scan} {m₁ : Memory}
        → exec (add_scan off name now expiry max_members 0 none) m ≡ some (scan, m₁)
        → Careful off name short now expiry none m scan m₁
    careful {scan} {m₁} e =
        add_scan-Careful off name short now expiry max_members 0 none m scan m₁ e

    kept :
        (k : ℕ) (m₁ m' : Memory)
        → exec (add_scan off name now expiry max_members 0 none) m ≡ some (scanned (some k), m₁)
        → exec (add_at off name grp now k) m₁ ≡ some (true, m')
        → (j : ℕ) → IsTaken off j name now expiry m
        → IsTaken off j name now expiry m'
    kept k m₁ m' e ran j t = elim ((careful e).spot k refl) [
      | inl bad ↦ cc bad
      | inr free ↦
          add_at-Kept off name short now expiry grp k m₁ m' free ran j ((careful e).kept j t)
    ]

    finish :
        Scanned off name short now expiry max_members 0 none m
          (exec (add_scan off name now expiry max_members 0 none) m)
        → ((m' : Memory) × (j : ℕ) × (exec (group_member_add off name grp now max_members expiry) m
              ≡ some (true, m'))
            × (j < max_members)
            × IsMember off j name now m'
            × ((k : ℕ) → IsTaken off k name now expiry m → IsTaken off k name now expiry m'))
          ⊎ ((exec (group_member_add off name grp now max_members expiry) m ≡ some (false, m))
              × IsTaken off any name now expiry m)
    finish (renewed j m' e a b c) = inl (m', j, then_finish e, omega arith, c, (careful e).kept)
    finish (room k m₁ e (inl f)) = cc
    finish (room k m₁ e (inr (a, b))) =
        let (m', ran, c) = add_at-IsMember off name short now expiry grp k m₁ z in
        inl (m', k, then_finish e ∙ ran, omega arith, c, kept k m₁ m' e ran)
    finish (crowded e f g) = inr (then_finish e, g any (omega arith) (omega arith))
