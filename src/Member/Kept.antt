-- ===== src/Member/Kept.antt =====
-- `group_member_add` leaves the memberships of the other channels as they are, if they have not
-- expired.
use django_channels_shm.Prelude.{
  ℕ, zero, suc, ◌+◌, ◌≤◌, ◌≡◌, ◌≢◌, sym, ap, ◌∙◌, ◌⊎◌, inl, inr, Bool, true, false, Option, none,
  some, List, length, ne→==, eq→==, ==_refl, Bool-cases, ℕ_discrete, arith,
}
use mathlib.Core.Path.{subst}
use django_channels_shm.Shm.{Memory, set_word, exec}
use django_channels_shm.Shm.Exec.{set_word-apart}
use django_channels_shm.Layout.{member_join_time, member_active}
use django_channels_shm.Member.{
  entry_off, same_name, expired, first_free, Scan, scanned, add_scan, add_at,
}
use django_channels_shm.Member.Entry.{name_at, IsTaken, same_name→eq, entry_apart}

abbrev memory_of : Memory → Option (Bool × Memory) → Memory
memory_of m none = m
memory_of m (some (b, m')) = m'

module _ (off : ℕ) (name : List ℕ) (short : length name ≤ 128) (now expiry : ℕ) where
  -- The others stay: what another channel holds, it still holds.
  abbrev pub Kept : Memory → Memory → Type 0
  Kept m m' = (k : ℕ) → IsTaken off k name now expiry m → IsTaken off k name now expiry m'

  -- A scan that began with `free` found ends with `s`: the others stay, a free entry stays free, and
  -- the entry that it found is free.
  pub record Careful (free : Option ℕ) (m : Memory) (s : Scan) (m' : Memory) : Type 0 where
    pub kept : Kept m m'
    pub freed :
        (k : ℕ)
        → m.word (entry_off off k) member_active ≡ 0
        → m'.word (entry_off off k) member_active ≡ 0
    pub spot :
        (k : ℕ)
        → s ≡ scanned (some k)
        → (free ≡ some k) ⊎ (m'.word (entry_off off k) member_active ≡ 0)

  first_free-case :
      (free : Option ℕ) (i k : ℕ) → first_free free i ≡ some k → (free ≡ some k) ⊎ (k ≡ i)
  first_free-case none i k h = inr (ground arith)
  first_free-case (some j) i k h = inl h

  -- One more free entry in front.
  Careful-free :
      (free : Option ℕ) (i : ℕ) (m m₁ m' : Memory) (s : Scan)
      → Kept m m₁
      → ((k : ℕ)
          → m.word (entry_off off k) member_active ≡ 0
          → m₁.word (entry_off off k) member_active ≡ 0)
      → m₁.word (entry_off off i) member_active ≡ 0
      → Careful (first_free free i) m₁ s m'
      → Careful free m s m'
  Careful-free free i m m₁ m' s kept freed z c = record {
    kept = λ k t. c.kept k (kept k t);
    freed = λ k e. c.freed k (freed k e);
    spot = λ k e. elim (c.spot k e) [
      | inr f ↦ inr f
      | inl f ↦ elim (first_free-case free i k f) [
        | inl g ↦ inl g
        | inr g ↦
            inr
              (subst (λ (x : ℕ). m'.word (entry_off off x) member_active ≡ 0) (sym g) (c.freed i z))
      ]
    ];
  }

  -- A store to entry `i`, which no other channel holds, leaves the others.
  Kept-store :
      (i f v : ℕ) (m : Memory)
      → ¬ IsTaken off i name now expiry m
      → Kept m (set_word (entry_off off i) f v m)
  Kept-store i f v m free k t = elim (ℕ_discrete i k) [
    | yes e ↦ absurd (free (subst (λ (x : ℕ). IsTaken off x name now expiry m) (sym e) t))
    | no n ↦
        let same = λ (g : ℕ).
          set_word-apart (entry_off off i) f v m (entry_off off k) g (entry_apart off i k n) in
        (
          (λ z. t.0 (sym (same member_active) ∙ z)),
          t.1,
          subst (λ (w : ℕ). expired w expiry now ≡ false) (sym (same member_join_time)) t.2,
        )
  ]

  -- Clearing an entry sets none free that was not.
  cleared :
      (i k : ℕ) (m : Memory)
      → m.word (entry_off off k) member_active ≡ 0
      → (set_word (entry_off off i) member_active 0 m).word (entry_off off k) member_active ≡ 0
  cleared i k m e = elim (ℕ_discrete (entry_off off i) (entry_off off k)) [
    | yes q ↦ rw (eq→== (entry_off off i) (entry_off off k) q)
    | no n ↦ rw (ne→== (entry_off off i) (entry_off off k) n) e
  ]

  pub add_scan-Careful :
      (n i : ℕ) (free : Option ℕ) (m : Memory) (s : Scan) (m' : Memory)
      → exec (add_scan off name now expiry n i free) m ≡ some (s, m')
      → Careful free m s m'
  unfolding add_scan exec
  add_scan-Careful zero i free m s m' h =
      subst (λ w. Careful free m s w) {x = m} (cc h)
        (record { kept = λ k t. t; freed = λ k e. e; spot = λ k e. inl (cc (h, e)) })
  add_scan-Careful (suc n) i free m s m' h =
      elim (ℕ_discrete (m.word (entry_off off i) member_active) 0) [
        | yes z ↦
            Careful-free free i m m m' s (λ k t. t) (λ k e. e) z
              (add_scan-Careful n (i + 1) (first_free free i) m s m' (rw (z, exec) at h))
        | no nz ↦
            let h₁ = rw (ne→== (m.word (entry_off off i) member_active) 0 nz, exec) at h in
            elim (Bool-cases (same_name (name_at off i m) name)) [
              | inl same ↦
                  let mine = same_name→eq (name_at off i m) name short same in
                  let h₂ = rw (same, exec) at h₁ in
                  subst (λ w. Careful free m s w)
                    {x = set_word (entry_off off i) member_join_time now m} (cc h₂)
                    (record {
                      kept = Kept-store i member_join_time now m (λ t. t.1 mine);
                      freed = λ k e. e;
                      spot = λ k e. cc (e, h₂);
                    })
              | inr other ↦
                  let h₂ = rw (other, exec) at h₁ in
                  elim (Bool-cases
                    (expired (m.word (entry_off off i) member_join_time) expiry now)) [
                      | inl old ↦
                          let m₁ = set_word (entry_off off i) member_active 0 m in
                          Careful-free free i m m₁ m' s
                            (Kept-store i member_active 0 m (λ t. cc (t.2, old)))
                            (λ k e. cleared i k m e) (rw (==_refl (entry_off off i)))
                            (add_scan-Careful n (i + 1) (first_free free i) m₁ s m'
                              (rw (old, exec) at h₂))
                      | inr fresh ↦ add_scan-Careful n (i + 1) free m s m' (rw (fresh, exec) at h₂)
                    ]
            ]
      ]

  -- The new entry goes to a free place, so that the others stay.
  pub add_at-Kept :
      (grp idx : ℕ) (m m' : Memory)
      → m.word (entry_off off idx) member_active ≡ 0
      → exec (add_at off name grp now idx) m ≡ some (true, m')
      → Kept m m'
  unfolding add_at exec
  add_at-Kept grp idx m m' free h k t =
      let apart : entry_off off idx ≢ entry_off off k =
        (λ e. t.0 (subst (λ (o : ℕ). m.word o member_active ≡ 0) e free)) in
      subst (λ w. IsTaken off k name now expiry w) (ap (memory_of m) h)
        (rw (ne→== (entry_off off idx) (entry_off off k) apart) t)
