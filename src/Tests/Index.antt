-- ===== src/Tests/Index.antt =====
-- An index of two channels at offset 512, and a registry of two processes at offset 2048.
use django_channels_shm.Prelude.{
  none, ne→==, ◌+◌, ◌*◌, ℕ, ◌<◌, ◌≡◌, ◌⊎◌, refl, ◌&&◌, true, false, some, List, [], ◌∷◌, ◌==◌,
  if◌then◌else◌, arith, HasNoNul,
}
use django_channels_shm.Shm.{Memory, exec, set_word}
use django_channels_shm.Layout.{hdr_channel_index_off, hdr_wakeup_registry_off, reg_valid}
use django_channels_shm.Index.{
  not_found, channel_index_lookup, channel_index_create, find_channel, place_channel,
}
use django_channels_shm.Index.Entry.{IsEntry, entry_at}
use django_channels_shm.Index.Create.{written}
use django_channels_shm.Index.Lookup.{channel_index_lookup_lem}
use django_channels_shm.Index.RoundTrip.{lookup-create}
use django_channels_shm.Registry.{
  registry_register, registry_lookup_socket, register_from, registry_mark_dead,
}
use django_channels_shm.Registry.MarkDead.{lookup_socket-mark_dead}
use django_channels_shm.Registry.Register.{registered, lookup_socket-register}

abbrev pub memory : Memory
memory = record {
  word = λ o f.
      if (f == hdr_channel_index_off) && (o == 0)
      then 512
      else if (f == hdr_wakeup_registry_off) && (o == 0)
      then 2048
      else 0;
  bytes = λ _ _. [];
}

abbrev pub name : List ℕ
name = 97 ∷ 98 ∷ []

channel_index_lookup_example :
    ((j : ℕ) × (exec (channel_index_lookup name 2) memory ≡ some (entry_at 512 j memory, memory))
      × (j < 2)
      × IsEntry 512 name j memory
      × (1 < j → ¬ IsEntry 512 name 1 memory))
    ⊎ ((exec (channel_index_lookup name 2) memory ≡ some (not_found, memory))
        × (¬ IsEntry 512 name 1 memory))
channel_index_lookup_example = channel_index_lookup_lem name 2 1 memory (omega arith) (omega arith)

create_run :
    exec (channel_index_create name 9000 16 true 2) memory
    ≡ some ((512, false), written 512 name 9000 16 true memory)
unfolding channel_index_create find_channel place_channel exec
create_run = refl

lookup-create_example :
    exec (channel_index_lookup name 2) (written 512 name 9000 16 true memory)
    ≡ some ((true, 512, 9000, 16, true), written 512 name 9000 16 true memory)
lookup-create_example =
    lookup-create name 9000 16 true 2 512 memory (written 512 name 9000 16 true memory)
      (omega arith) (omega arith) create_run (λ e. absurd (omega arith))

register_run :
    exec (registry_register name (47 ∷ []) 7 77 2) memory
    ≡ some (2048, registered 2048 name (47 ∷ []) 7 77 memory)
unfolding registry_register register_from exec
register_run = refl

name-HasNoNul : HasNoNul name
name-HasNoNul = ((λ e. absurd (omega arith)), ((λ e. absurd (omega arith)), tt))

lookup_socket-register_example :
    exec (registry_lookup_socket name 2) (registered 2048 name (47 ∷ []) 7 77 memory)
    ≡ some (some (47 ∷ []), registered 2048 name (47 ∷ []) 7 77 memory)
lookup_socket-register_example =
    lookup_socket-register name (47 ∷ []) 7 77 2 2048 memory
      (registered 2048 name (47 ∷ []) 7 77 memory) (omega arith) name-HasNoNul (omega arith)
      ((λ e. absurd (omega arith)), tt) (λ k l e. e.0 refl) register_run (λ e. absurd (omega arith))

-- The first slot of the registry is in use.
abbrev with_process : Memory
with_process = set_word 2048 reg_valid 1 memory

mark_run :
    exec (registry_mark_dead 2048) with_process ≡ some (tt, set_word 2048 reg_valid 0 with_process)
unfolding registry_mark_dead exec
mark_run = refl

lookup_socket-mark_dead_example :
    exec (registry_lookup_socket [] 2) (set_word 2048 reg_valid 0 with_process)
    ≡ some (none, set_word 2048 reg_valid 0 with_process)
lookup_socket-mark_dead_example =
    lookup_socket-mark_dead [] 2 0 with_process (set_word 2048 reg_valid 0 with_process)
      (λ k l n e. e.0 (rw (ne→== 2048 (2048 + k * 168) (λ q. n (omega arith))))) mark_run
