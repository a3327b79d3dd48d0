-- ===== src/Registry/MarkDead.antt =====
-- A process that is marked dead is no longer found.
use django_channels_shm.Prelude.{
  ℕ, ◌<◌, ◌≡◌, ◌≢◌, List, none, some, ne→==, eq→==, ℕ_discrete, arith, at, nowhere,
}
use mathlib.Core.Path.{subst}
use django_channels_shm.Shm.{Memory, set_word, exec}
use django_channels_shm.Layout.{hdr_wakeup_registry_off, reg_valid}
use django_channels_shm.Registry.{
  reg_slot_off, registry_mark_dead, registry_lookup_socket, socket_from,
}
use django_channels_shm.Registry.Register.{IsRegistered, socket-First}

-- After the only slot that is registered under a prefix was marked dead, a lookup of the prefix
-- answers that there is none.
pub lookup_socket-mark_dead :
    (prefix : List ℕ) (max_processes j : ℕ) (m m' : Memory)
    → ((k : ℕ)
        → k < max_processes
        → j ≢ k
        → ¬ IsRegistered (m.word 0 hdr_wakeup_registry_off) prefix k m)
    → exec (registry_mark_dead (reg_slot_off (m.word 0 hdr_wakeup_registry_off) j)) m
      ≡ some (tt, m')
    → exec (registry_lookup_socket prefix max_processes) m' ≡ some (none, m')
unfolding registry_mark_dead registry_lookup_socket exec
lookup_socket-mark_dead prefix max_processes j m m' only ran =
    let same : after ≡ m' = cc ran in
    subst
      (λ w.
        exec (socket_from prefix (w.word 0 hdr_wakeup_registry_off) max_processes 0) w
        ≡ some (none, w))
      same
      (elim (socket-First off prefix max_processes 0 after) [
        | nowhere d found ↦ found
        | at k a b c d found ↦ elim (ℕ_discrete j k) [
          | yes q ↦ absurd (c.0 (rw (eq→== so (reg_slot_off off k) (omega arith))))
          | no n ↦ absurd (only k (omega arith) n (older k n c))
        ]
      ])
  where
    off : ℕ
    off = m.word 0 hdr_wakeup_registry_off

    so : ℕ
    so = reg_slot_off off j

    after : Memory
    after = set_word so reg_valid 0 m

    older : (k : ℕ) → j ≢ k → IsRegistered off prefix k after → IsRegistered off prefix k m
    older k n e = ((rw (ne→== so (reg_slot_off off k) (λ q. n (omega arith))) at e.0), e.1)
