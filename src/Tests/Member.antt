-- ===== src/Tests/Member.antt =====
-- A member array of two entries at offset 8192 of the group at offset 512.
use django_channels_shm.Prelude.{
  refl, until_nul, bytes_eq, List, ℕ, ◌<◌, ◌≡◌, ◌⊎◌, ◌&&◌, true, false, some, [], ◌∷◌, ◌==◌,
  if◌then◌else◌, arith,
}
use django_channels_shm.Shm.{Memory, zeroed, exec, set_word}
use django_channels_shm.Layout.{member_join_time, member_active, grp_slot_member_count}
use django_channels_shm.Member.{
  add_scan, add_finish, entry_off, group_member_add, group_member_remove, group_members_read_all,
}
use mathlib.Core.List.{Memᴰ}
use django_channels_shm.Member.Utf8.{is_utf8}
use django_channels_shm.Member.Joined.{read_all-add}
use django_channels_shm.Member.Entry.{IsMember, IsTaken}
use django_channels_shm.Member.Add.{group_member_add_lem}
use django_channels_shm.Member.ReadAll.{Names, group_members_read_all_lem}
use django_channels_shm.Member.Remove.{IsNamed, HasLost, group_member_remove_lem}

group_member_add_example :
    ((m' : Memory) × (j : ℕ) × (exec (group_member_add 8192 (97 ∷ []) 512 100 2 50) zeroed
        ≡ some (true, m'))
      × (j < 2)
      × IsMember 8192 j (97 ∷ []) 100 m'
      × ((k : ℕ) → IsTaken 8192 k (97 ∷ []) 100 50 zeroed → IsTaken 8192 k (97 ∷ []) 100 50 m'))
    ⊎ ((exec (group_member_add 8192 (97 ∷ []) 512 100 2 50) zeroed ≡ some (false, zeroed))
        × IsTaken 8192 1 (97 ∷ []) 100 50 zeroed)
group_member_add_example =
    group_member_add_lem 8192 512 100 2 50 1 (97 ∷ []) zeroed (omega arith)
      ((λ e. absurd (omega arith)), tt) (omega arith)

-- The second entry is the membership of "a".
abbrev pub joined : Memory
joined = record {
  word = λ o f.
      if (f == member_active) && (o == entry_off 8192 1)
      then 1
      else if (f == grp_slot_member_count) && (o == 512)
      then 1
      else 0;
  bytes = λ o f. 97 ∷ [];
}

group_member_remove_example :
    ((m' : Memory) × (j : ℕ) × (exec (group_member_remove 8192 (97 ∷ []) 512 2) joined
        ≡ some (true, m'))
      × (j < 2)
      × IsNamed 8192 j (97 ∷ []) joined
      × (0 < j → ¬ IsNamed 8192 0 (97 ∷ []) joined)
      × (m'.word (entry_off 8192 j) member_active ≡ 0)
      × HasLost 512 joined m')
    ⊎ ((exec (group_member_remove 8192 (97 ∷ []) 512 2) joined ≡ some (false, joined))
        × (¬ IsNamed 8192 0 (97 ∷ []) joined))
group_member_remove_example =
    group_member_remove_lem 8192 512 2 0 (97 ∷ []) joined (omega arith) (omega arith)

group_members_read_all_example :
    (out : List (List ℕ)) × (exec (group_members_read_all 8192 2 10 50) joined ≡ some (out, joined))
    × Names 8192 10 50 joined 2 0 out
group_members_read_all_example = group_members_read_all_lem 8192 2 10 50 joined

-- The region after that membership was renewed.
abbrev pub renewed : Memory
renewed = set_word (entry_off 8192 1) member_join_time 100 joined

pub renew_run : exec (group_member_add 8192 (97 ∷ []) 512 100 2 500) joined ≡ some (true, renewed)
unfolding group_member_add add_scan add_finish exec until_nul bytes_eq
renew_run = refl

read_all-add_example :
    (out : List (List ℕ)) × (exec (group_members_read_all 8192 2 100 500) renewed
      ≡ some (out, renewed))
    × Memᴰ (97 ∷ []) out
read_all-add_example =
    read_all-add 8192 512 100 2 500 (97 ∷ []) joined renewed (omega arith)
      ((λ e. absurd (omega arith)), tt) text (omega arith) (omega arith) renew_run
  where
    text : is_utf8 (97 ∷ []) ≡ true
    text = unfold is_utf8 in refl
