-- ===== src/Member/Joined.antt =====
-- A member that joined is listed.
use django_channels_shm.Prelude.{
  ℕ, ◌+◌, ◌≤◌, ◌<◌, ◌≡◌, refl, sym, inl, inr, true, false, some, List, ◌∷◌, length, HasNoNul,
  ge→ltb, ℕ_discrete, arith,
}
use mathlib.Core.Path.{subst}
use mathlib.Core.List.{Memᴰ}
use native.Mathlib.Nat.{mod-eq_of_lt}
use django_channels_shm.Shm.{Memory, add64, u64_mod, exec}
use django_channels_shm.Member.{expired, group_member_add, group_members_read_all}
use django_channels_shm.Member.Utf8.{is_utf8}
use django_channels_shm.Member.Entry.{name_at, IsMember}
use django_channels_shm.Member.Add.{group_member_add_lem}
use django_channels_shm.Member.ReadAll.{
  IsCurrent, Names, done, listed, left_out, group_members_read_all_lem,
}

-- A current entry of the range is in the list.
Names-Mem :
    (off now expiry j : ℕ) (m : Memory) (n i : ℕ) (out : List (List ℕ))
    → Names off now expiry m n i out
    → i ≤ j
    → j < i + n
    → IsCurrent off now expiry j m
    → Memᴰ (name_at off j m) out
Names-Mem off now expiry j m _ _ _ (done i) a b c = absurd (omega arith)
Names-Mem off now expiry j m _ _ _ (listed n i out here rest) a b c = elim (ℕ_discrete i j) [
  | yes e ↦ subst (λ (j : ℕ). Memᴰ (name_at off j m) (name_at off i m ∷ out)) e (Memᴰ.head refl)
  | no d ↦ Memᴰ.tail (Names-Mem off now expiry j m n (i + 1) out rest (omega arith) (omega arith) c)
]
Names-Mem off now expiry j m _ _ _ (left_out n i out missing rest) a b c = elim (ℕ_discrete i j) [
  | yes e ↦ absurd (missing (subst (λ (j : ℕ). IsCurrent off now expiry j m) (sym e) c))
  | no d ↦ Names-Mem off now expiry j m n (i + 1) out rest (omega arith) (omega arith) c
]

-- A channel whose name is text without NUL, of at most 128 bytes, and that was added to a group is in
-- the list of the members that is read at the same time, if the expiry does not overflow.
pub read_all-add :
    (off grp now max_members expiry : ℕ) (name : List ℕ) (m m' : Memory)
    → length name ≤ 128
    → HasNoNul name
    → is_utf8 name ≡ true
    → 0 < max_members
    → now + expiry < u64_mod
    → exec (group_member_add off name grp now max_members expiry) m ≡ some (true, m')
    → (out : List (List ℕ)) × (exec (group_members_read_all off max_members now expiry) m'
        ≡ some (out, m'))
      × Memᴰ name out
read_all-add off grp now max_members expiry name m m' short z text some_room w ran =
    elim (group_member_add_lem off grp now max_members expiry 0 name m short z some_room) [
      | inr (ran', taken) ↦ cc (ran, ran')
      | inl (w', j, ran', l, member, others) ↦
          let same : w' ≡ m' = cc (ran, ran') in
          let (active, named, joined) =
            subst (λ (w : Memory). IsMember off j name now w) same member in
          let (out, read, names) = group_members_read_all_lem off max_members now expiry m' in
          let fresh : expired now expiry now ≡ false =
            let e : add64 now expiry ≡ now + expiry = mod-eq_of_lt w in
            ge→ltb (add64 now expiry) now (omega (arith, e)) in
          (
            out,
            read,
            subst (λ n. Memᴰ n out) named
                (Names-Mem off now expiry j m' max_members 0 out names (omega arith) (omega arith) (
                  active,
                  subst (λ t. expired t expiry now ≡ false) (sym joined) fresh,
                  subst (λ n. is_utf8 n ≡ true) (sym named) text,
                )),
          )
    ]
