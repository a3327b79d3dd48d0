-- ===== src/Registry/Register.antt =====
-- A registered process is found by its prefix.
use django_channels_shm.Prelude.{
  ℕ, zero, suc, ◌+◌, ◌≤◌, ◌<◌, ◌≡◌, ◌≢◌, inl, inr, refl, ap, ◌∙◌, min, true, Option, none, some,
  List, length, take, take-length, padded, overlay, padded-overlay-padded, until_nul,
  until_nul-padded, HasNoNul, bytes_eq→eq, bytes_eq_refl, ==_refl, ne→==, Bool-cases, ℕ_discrete,
  arith, First, at, nowhere, First-beside,
}
use mathlib.Core.Path.{subst}
use django_channels_shm.Shm.{Memory, set_word, set_bytes, exec}
use django_channels_shm.Layout.{
  hdr_wakeup_registry_off, reg_client_prefix, reg_socket_path, reg_pid, reg_start_time, reg_valid,
  reg_version,
}
use django_channels_shm.Registry.{
  reg_slot_off, same_prefix, register_from, write_process, registry_register, socket_from,
  registry_lookup_socket,
}

-- Slot `i` is registered under `prefix`.
abbrev pub IsRegistered : ℕ → List ℕ → ℕ → Memory → Type 0
IsRegistered reg_off prefix i m =
    (m.word (reg_slot_off reg_off i) reg_valid ≢ 0)
    × (until_nul (padded 32 (m.bytes (reg_slot_off reg_off i) reg_client_prefix)) ≡ prefix)

abbrev path_at : ℕ → ℕ → Memory → List ℕ
path_at reg_off i m = until_nul (padded 108 (m.bytes (reg_slot_off reg_off i) reg_socket_path))

abbrev pub registered : ℕ → List ℕ → List ℕ → ℕ → ℕ → Memory → Memory
registered so prefix path pid start_time m = set_word so reg_version 2 (
    set_word so reg_valid 1 (
      set_word so reg_start_time start_time (
        set_word so reg_pid pid (
          set_bytes so reg_socket_path (padded 108 (take (min (length path) 107) path)) (
            set_bytes so reg_client_prefix (padded 32 (take (min (length prefix) 32) prefix))
              (set_word so reg_version 1 m))))))

same_prefix→eq : (a b : List ℕ) → same_prefix a b ≡ true → a ≡ b
same_prefix→eq a b h = bytes_eq→eq a b (ground arith)

same_prefix_refl : (a : List ℕ) → same_prefix a a ≡ true
same_prefix_refl a = ground (arith, bytes_eq_refl a)

-- A text that fits its field is read back.
text-back :
    (width limit : ℕ) (text old : List ℕ)
    → length text ≤ limit
    → limit ≤ width
    → HasNoNul text
    → until_nul (padded width (overlay (padded width (take (min (length text) limit) text)) old))
      ≡ text
text-back width limit text old h w z =
    let e : min (length text) limit ≡ length text = omega arith in
    ap until_nul (padded-overlay-padded width (take (min (length text) limit) text) old)
    ∙ rw (e, take-length text) (until_nul-padded width text (omega arith) z)

module _ (reg_off : ℕ) where
  register-First :
      (prefix path : List ℕ) (pid start_time n i : ℕ) (m : Memory)
      → First
          (Option (ℕ × Memory))
          (λ j. m.word (reg_slot_off reg_off j) reg_valid ≡ 0)
          (λ j. some (
            reg_slot_off reg_off j,
            registered (reg_slot_off reg_off j) prefix path pid start_time m,
          ))
          (some (0, m))
          n
          i
          (exec (register_from prefix path pid start_time reg_off n i) m)
  unfolding register_from write_process exec
  register-First prefix path pid start_time zero i m = nowhere (λ k l u. absurd (omega arith)) refl
  register-First prefix path pid start_time (suc n) i m =
      elim (ℕ_discrete (m.word (reg_slot_off reg_off i) reg_valid) 0) [
        | yes z ↦ at i (omega arith) (omega arith) z (λ k l u. absurd (omega arith)) (rw (z, exec))
        | no nz ↦
            rw (ne→== (m.word (reg_slot_off reg_off i) reg_valid) 0 nz, exec)
              (First-beside n i _ nz (register-First prefix path pid start_time n (i + 1) m))
      ]

  pub socket-First :
      (prefix : List ℕ) (n i : ℕ) (m : Memory)
      → First
          (Option (Option (List ℕ) × Memory))
          (λ j. IsRegistered reg_off prefix j m)
          (λ j. some (some (path_at reg_off j m), m))
          (some (none, m))
          n
          i
          (exec (socket_from prefix reg_off n i) m)
  unfolding socket_from exec
  socket-First prefix zero i m = nowhere (λ k l u. absurd (omega arith)) refl
  socket-First prefix (suc n) i m =
      let so = reg_slot_off reg_off i in
      let existing = until_nul (padded 32 (m.bytes so reg_client_prefix)) in
      elim (ℕ_discrete (m.word so reg_valid) 0) [
        | yes z ↦ rw (z, exec) (First-beside n i _ (λ e. e.0 z) (socket-First prefix n (i + 1) m))
        | no nz ↦ elim (Bool-cases (same_prefix existing prefix)) [
          | inl same ↦
              rw (ne→== (m.word so reg_valid) 0 nz, exec, same, exec)
                (at i (omega arith) (omega arith) (nz, same_prefix→eq existing prefix same)
                  (λ k l u. absurd (omega arith)) refl)
          | inr other ↦
              rw (ne→== (m.word so reg_valid) 0 nz, exec, other, exec)
                (First-beside n i _
                  (λ e. cc (ap (λ n. same_prefix n prefix) e.1 ∙ same_prefix_refl prefix, other))
                  (socket-First prefix n (i + 1) m))
        ]
      ]

  -- The lookup in the region after the registration.
  module _ (prefix path : List ℕ) (pid start_time : ℕ) (short : length prefix ≤ 32)
      (z : HasNoNul prefix) (j : ℕ) (m : Memory) where
    abbrev after : Memory
    after = registered (reg_slot_off reg_off j) prefix path pid start_time m

    new-IsRegistered : IsRegistered reg_off prefix j after
    new-IsRegistered = (
      rw (==_refl (reg_slot_off reg_off j)) (λ e. absurd (omega arith)),
      rw (==_refl (reg_slot_off reg_off j)) (text-back 32 32 prefix _ short (omega arith) z),
    )

    old-IsRegistered :
        (k : ℕ) → j ≢ k → IsRegistered reg_off prefix k after → IsRegistered reg_off prefix k m
    old-IsRegistered k n e =
        let o = ne→== (reg_slot_off reg_off j) (reg_slot_off reg_off k) (λ q. n (omega arith)) in
        ((rw o at e.0), (rw o at e.1))

    socket-new :
        (max_processes : ℕ)
        → length path ≤ 107
        → HasNoNul path
        → j < max_processes
        → ((k : ℕ) → k < max_processes → ¬ IsRegistered reg_off prefix k m)
        → exec (socket_from prefix reg_off max_processes 0) after ≡ some (some path, after)
    socket-new max_processes fits z' below fresh =
        elim (socket-First prefix max_processes 0 after) [
          | nowhere d ran ↦ absurd (d j (omega arith) (omega arith) new-IsRegistered)
          | at k a b c d ran ↦ elim (ℕ_discrete j k) [
            | yes q ↦
                ran
                ∙ ap (λ p. some (some p, after))
                    (subst (λ (k : ℕ). path_at reg_off k after ≡ path) q
                      (rw (==_refl (reg_slot_off reg_off j))
                        (text-back 108 107 path _ fits (omega arith) z')))
            | no n ↦ absurd (fresh k (omega arith) (old-IsRegistered k n c))
          ]
        ]

-- A process that registers under a prefix that no valid slot has, with a prefix of at most 32
-- bytes and a path of at most 107, both without NUL, is found under it when the registry had room:
-- the lookup answers the path of its socket, and changes nothing.
pub lookup_socket-register :
    (prefix path : List ℕ) (pid start_time max_processes so : ℕ) (m m' : Memory)
    → length prefix ≤ 32
    → HasNoNul prefix
    → length path ≤ 107
    → HasNoNul path
    → ((k : ℕ) → k < max_processes → ¬ IsRegistered (m.word 0 hdr_wakeup_registry_off) prefix k m)
    → exec (registry_register prefix path pid start_time max_processes) m ≡ some (so, m')
    → so ≢ 0
    → exec (registry_lookup_socket prefix max_processes) m' ≡ some (some path, m')
unfolding registry_register registry_lookup_socket exec
lookup_socket-register prefix path pid start_time max_processes so m m' short z fits z' fresh ran
      nz =
    elim (register-First (m.word 0 hdr_wakeup_registry_off) prefix path pid start_time max_processes
      0 m) [
        | nowhere d ran' ↦ absurd (nz (cc (ran, ran')))
        | at j a b c d ran' ↦
            let same : registered (reg_slot_off (m.word 0 hdr_wakeup_registry_off) j) prefix path
                  pid start_time m
                ≡ m' =
              cc (ran, ran') in
            subst
              (λ w.
                exec (socket_from prefix (w.word 0 hdr_wakeup_registry_off) max_processes 0) w
                ≡ some (some path, w))
              same
              (socket-new (m.word 0 hdr_wakeup_registry_off) prefix path pid start_time short z j m
                max_processes fits z' (omega arith) fresh)
      ]
