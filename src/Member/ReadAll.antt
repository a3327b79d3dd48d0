-- ===== src/Member/ReadAll.antt =====
-- `group_members_read_all`.
use django_channels_shm.Prelude.{
  ℕ, zero, suc, ◌+◌, ◌≡◌, ◌≢◌, refl, ap, ◌∙◌, inl, inr, true, false, some, List, [], ◌∷◌,
  if◌then◌else◌, ne→==, Bool-cases, ℕ_discrete,
}
use django_channels_shm.Shm.{Memory, exec}
use django_channels_shm.Shm.Exec.{exec-bind}
use django_channels_shm.Layout.{member_join_time, member_active}
use django_channels_shm.Member.{entry_off, expired, read_from, group_members_read_all}
use django_channels_shm.Member.Utf8.{is_utf8}
use django_channels_shm.Member.Entry.{name_at}

-- Entry `i` is a membership that has not expired, with a name that is text.
abbrev pub IsCurrent : ℕ → ℕ → ℕ → ℕ → Memory → Type 0
IsCurrent off now expiry i m =
    (m.word (entry_off off i) member_active ≢ 0)
    × (expired (m.word (entry_off off i) member_join_time) expiry now ≡ false)
    × (is_utf8 (name_at off i m) ≡ true)

-- The names of the current entries from `i` to `i + n`, in their order.
pub data Names (off now expiry : ℕ) (m : Memory) : ℕ → ℕ → List (List ℕ) → Type 0 where
  done : (i : ℕ) → Names off now expiry m zero i []
  listed :
      (n i : ℕ) (out : List (List ℕ))
      → IsCurrent off now expiry i m
      → Names off now expiry m n (i + 1) out
      → Names off now expiry m (suc n) i (name_at off i m ∷ out)
  left_out :
      (n i : ℕ) (out : List (List ℕ))
      → ¬ IsCurrent off now expiry i m
      → Names off now expiry m n (i + 1) out
      → Names off now expiry m (suc n) i out

module _ (off now expiry : ℕ) (m : Memory) where
  read_from-Names :
      (n i : ℕ)
      → (out : List (List ℕ)) × (exec (read_from off now expiry n i) m ≡ some (out, m))
        × Names off now expiry m n i out
  unfolding read_from exec
  read_from-Names zero i = ([], refl, done i)
  read_from-Names (suc n) i =
      let (out, ran, names) = read_from-Names n (i + 1) in
      let active = m.word (entry_off off i) member_active in
      let join_time = m.word (entry_off off i) member_join_time in
      elim (ℕ_discrete active 0) [
        | yes z ↦ (out, rw (z, exec) ran, left_out n i out (λ c. c.0 z) names)
        | no nz ↦ elim (Bool-cases (expired join_time expiry now)) [
          | inl old ↦ (
            out,
            rw (ne→== active 0 nz, exec, old, exec) ran,
            left_out n i out (λ c. cc (c.1, old)) names,
          )
          | inr fresh ↦ elim (Bool-cases (is_utf8 (name_at off i m))) [
            | inl text ↦ (
              name_at off i m ∷ out,
              rw (ne→== active 0 nz, exec, fresh, exec)
                  (exec-bind (read_from off now expiry n (i + 1)) _ m ran
                    ∙ ap (λ b. some ((if b then name_at off i m ∷ out else out), m)) text),
              listed n i out (nz, fresh, text) names,
            )
            | inr junk ↦ (
              out,
              rw (ne→== active 0 nz, exec, fresh, exec)
                  (exec-bind (read_from off now expiry n (i + 1)) _ m ran
                    ∙ ap (λ b. some ((if b then name_at off i m ∷ out else out), m)) junk),
              left_out n i out (λ c. cc (c.2, junk)) names,
            )
          ]
        ]
      ]

-- `group_members_read_all` changes nothing and answers the names of the entries that are active, not
-- expired and text, each such entry once and in the order of the entries.
pub group_members_read_all_lem :
    (off max_members now expiry : ℕ) (m : Memory)
    → (out : List (List ℕ)) × (exec (group_members_read_all off max_members now expiry) m
        ≡ some (out, m))
      × Names off now expiry m max_members 0 out
unfolding group_members_read_all
group_members_read_all_lem off max_members now expiry m =
    read_from-Names off now expiry m max_members 0
