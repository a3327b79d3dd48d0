-- ===== src/Member/Remove.antt =====
-- `group_member_remove`.
use django_channels_shm.Prelude.{
  ℕ, zero, suc, ◌+◌, ◌-◌, ◌≤◌, ◌<◌, ◌≡◌, ◌≢◌, refl, ◌∙◌, ◌⊎◌, inl, inr, Bool, true, false, Option,
  some, List, leb, if◌then◌else◌, ne→==, ==_refl, lt→ltb, gt→leb, length, Bool-cases, ℕ_discrete,
  First, at, nowhere, First-beside, arith, dec_le, dec_lt,
}
use django_channels_shm.Shm.{Memory, add64, exec}
use django_channels_shm.Layout.{
  member_active, grp_slot_member_count, grp_slot_version, grp_slot_active,
}
use django_channels_shm.Member.{entry_off, same_name, remove_at, remove_from, group_member_remove}
use django_channels_shm.Member.Entry.{name_at, same_name→eq, same_name→ne}

-- Entry `i` is a membership of `name`.
abbrev pub IsNamed : ℕ → ℕ → List ℕ → Memory → Type 0
IsNamed off i name m = (m.word (entry_off off i) member_active ≢ 0) × (name_at off i m ≡ name)

-- The group's slot after a member left it: one fewer, and inactive with the last.
abbrev pub HasLost : ℕ → Memory → Memory → Type 0
HasLost grp m m' =
    (m'.word grp grp_slot_member_count ≡ m.word grp grp_slot_member_count - 1)
    × (m'.word grp grp_slot_active
        ≡ (if leb (m.word grp grp_slot_member_count) 1 then 0 else m.word grp grp_slot_active))
    × (m'.word grp grp_slot_version ≡ add64 (m.word grp grp_slot_version) 2)

module _ (off : ℕ) (name : List ℕ) (short : length name ≤ 128) (grp : ℕ) where
  abbrev Removal : ℕ → ℕ → Memory → Option (Bool × Memory) → Type 0
  Removal n i m run =
      First (Option (Bool × Memory)) (λ j. IsNamed off j name m)
        (λ j. exec (remove_at off name grp j) m) (some (false, m)) n i run

  remove_from-Removal :
      (n i : ℕ) (m : Memory) → Removal n i m (exec (remove_from off name grp n i) m)
  unfolding remove_from exec
  remove_from-Removal zero i m = nowhere (λ k l u. absurd (omega arith)) refl
  remove_from-Removal (suc n) i m = elim (ℕ_discrete (m.word (entry_off off i) member_active) 0) [
    | yes z ↦
        rw (z, exec) (First-beside n i _ (λ h. absurd (h.0 z)) (remove_from-Removal n (i + 1) m))
    | no nz ↦
        rw (ne→== (m.word (entry_off off i) member_active) 0 nz, exec)
          (elim (Bool-cases (same_name (name_at off i m) name)) [
            | inl same ↦
                rw (same, exec)
                  (at i (omega arith) (omega arith)
                    (nz, same_name→eq (name_at off i m) name short same)
                    (λ k l u. absurd (omega arith)) refl)
            | inr other ↦
                rw (other, exec)
                  (First-beside n i _
                    (λ h. absurd (same_name→ne (name_at off i m) name short other (h.1)))
                    (remove_from-Removal n (i + 1) m))
          ])
  ]

  remove_at-HasLost :
      (j : ℕ) (m : Memory)
      → (m' : Memory) × (exec (remove_at off name grp j) m ≡ some (true, m'))
        × (m'.word (entry_off off j) member_active ≡ 0)
        × HasLost grp m m'
  unfolding remove_at exec
  remove_at-HasLost j m =
      let count : ℕ = m.word grp grp_slot_member_count in
      elim (dec_le count 1) [
        | yes few ↦ elim (dec_lt 0 count) [
          | yes pos ↦
              let one : count ≡ 1 = omega arith in
              rw (one, exec)
                (
                  _,
                  refl,
                  rw (==_refl (entry_off off j)),
                  (rw (==_refl grp), rw (==_refl grp), rw (==_refl grp)),
                )
          | no neg ↦
              let nil : count ≡ 0 = omega arith in
              rw (nil, exec)
                (_, refl, rw (==_refl (entry_off off j)), (nil, rw (==_refl grp), rw (==_refl grp)))
        ]
        | no many ↦
            rw (lt→ltb 0 count (omega arith), gt→leb count 1 (omega arith), exec)
              (_, refl, rw (==_refl (entry_off off j)), (rw (==_refl grp), refl, rw (==_refl grp)))
      ]

-- `group_member_remove` of a name of at most 128 bytes: either it answers true, and then the first
-- of the name's memberships is ended, the group counts one member fewer (none below zero), it
-- turns inactive when it counted at most one, and its version has gone up by two; or it answers
-- false, and then it changed nothing, and no entry is a membership of that name.
pub group_member_remove_lem :
    (off grp max_members any : ℕ) (name : List ℕ) (m : Memory)
    → length name ≤ 128
    → any < max_members
    → ((m' : Memory) × (j : ℕ) × (exec (group_member_remove off name grp max_members) m
          ≡ some (true, m'))
        × (j < max_members)
        × IsNamed off j name m
        × (any < j → ¬ IsNamed off any name m)
        × (m'.word (entry_off off j) member_active ≡ 0)
        × HasLost grp m m')
      ⊎ ((exec (group_member_remove off name grp max_members) m ≡ some (false, m))
          × (¬ IsNamed off any name m))
unfolding group_member_remove
group_member_remove_lem off grp max_members any name m short below =
    finish (remove_from-Removal off name short grp max_members 0 m)
  where
    finish :
        Removal off name short grp max_members 0 m (exec (remove_from off name grp max_members 0) m)
        → ((m' : Memory) × (j : ℕ) × (exec (remove_from off name grp max_members 0) m
              ≡ some (true, m'))
            × (j < max_members)
            × IsNamed off j name m
            × (any < j → ¬ IsNamed off any name m)
            × (m'.word (entry_off off j) member_active ≡ 0)
            × HasLost grp m m')
          ⊎ ((exec (remove_from off name grp max_members 0) m ≡ some (false, m))
              × (¬ IsNamed off any name m))
    finish (at j a b c d e) =
        let (m', ran, off_now, lost) = remove_at-HasLost off name short grp j m in
        inl (m', j, e ∙ ran, omega arith, c, d any (omega arith), off_now, lost)
    finish (nowhere d e) = inr (e, d any (omega arith) (omega arith))
