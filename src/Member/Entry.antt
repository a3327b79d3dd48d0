-- ===== src/Member/Entry.antt =====
-- What the entries of a member array hold.
use django_channels_shm.Prelude.{
  ℕ, ◌≤◌, ◌≡◌, ◌≢◌, ap, ◌∙◌, min, true, false, List, length, take-length, padded, bytes_eq→eq,
  bytes_eq_refl, until_nul, arith,
}
use django_channels_shm.Shm.{Memory}
use django_channels_shm.Layout.{member_channel_name, member_join_time, member_active}
use django_channels_shm.Member.{entry_off, clipped, same_name, expired}

-- The name that entry `i` shows.
abbrev pub name_at : ℕ → ℕ → Memory → List ℕ
name_at off i m = until_nul (padded 128 (m.bytes (entry_off off i) member_channel_name))

-- Entry `i` is the membership of `name`, renewed at `now`.
abbrev pub IsMember : ℕ → ℕ → List ℕ → ℕ → Memory → Type 0
IsMember off i name now m =
    (m.word (entry_off off i) member_active ≢ 0)
    × (name_at off i m ≡ name)
    × (m.word (entry_off off i) member_join_time ≡ now)

-- Entry `i` is the membership, not expired, of another channel than `name`.
abbrev pub IsTaken : ℕ → ℕ → List ℕ → ℕ → ℕ → Memory → Type 0
IsTaken off i name now expiry m =
    (m.word (entry_off off i) member_active ≢ 0)
    × (name_at off i m ≢ name)
    × (expired (m.word (entry_off off i) member_join_time) expiry now ≡ false)

pub clipped-short : (name : List ℕ) → length name ≤ 128 → clipped name ≡ name
clipped-short name h =
    let e : min (length name) 128 ≡ length name = omega arith in rw e (take-length name)

pub same_name→eq :
    (existing name : List ℕ) → length name ≤ 128 → same_name existing name ≡ true → existing ≡ name
same_name→eq existing name h t =
    bytes_eq→eq existing (clipped name) (ground arith) ∙ clipped-short name h

pub same_name_refl : (name : List ℕ) → length name ≤ 128 → same_name name name ≡ true
same_name_refl name h =
    let e : min (length name) 128 ≡ length name = omega arith in
    rw (clipped-short name h, e) (ground (arith, bytes_eq_refl name))

pub same_name→ne :
    (existing name : List ℕ) → length name ≤ 128 → same_name existing name ≡ false → existing ≢ name
same_name→ne existing name h f e = cc (ap (λ n. same_name n name) e ∙ same_name_refl name h, f)

pub entry_apart : (off i j : ℕ) → i ≢ j → entry_off off i ≢ entry_off off j
entry_apart off i j n e = n (omega arith)
