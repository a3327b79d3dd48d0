-- ===== src/Tests/Layout.antt =====
-- layout.rs at concrete inputs.
use django_channels_shm.Prelude.{
  ◌+◌, ◌*◌, ◌%◌, ℕ, zero, ◌^◌, ◌<◌, ◌≤◌, ◌≡◌, ◌≢◌, ◌⊎◌, refl, true, false, none, some, List, [],
  ◌∷◌, All, ◌==◌, if◌then◌else◌, arith,
}
use django_channels_shm.Layout.{size_classes}
use django_channels_shm.Layout.SizeClass.{
  size_class_for, size_class_idx, class_size, size_class_for_lem, size_class_idx-least,
}
use django_channels_shm.Layout.{
  hdr_size, ch_slot_size, grp_slot_size, reg_slot_size, metrics_counter_count,
}
use django_channels_shm.Layout.Regions.{compute_offsets, compute_offsets_lem}
use django_channels_shm.Layout.Hash.{fnv1a_hash}
use django_channels_shm.Layout.Process.{
  delivered, no_such_process, Env, read_stat_starttime, pid_dead, pid_dead_sound,
}

-- "1 (a b) S 0 … 0 77": the start time is the twentieth field after the name.
abbrev stat_text : List ℕ
stat_text =
    49 ∷ 32 ∷ 40 ∷ 97 ∷ 32 ∷ 98 ∷ 41 ∷ 32 ∷ 83 ∷ 32 ∷ 48 ∷ 32 ∷ 48 ∷ 32 ∷ 48 ∷ 32 ∷ 48 ∷ 32 ∷ 48
    ∷ 32 ∷ 48 ∷ 32 ∷ 48 ∷ 32 ∷ 48 ∷ 32 ∷ 48 ∷ 32 ∷ 48 ∷ 32 ∷ 48 ∷ 32 ∷ 48 ∷ 32 ∷ 48 ∷ 32 ∷ 48 ∷ 32
    ∷ 48 ∷ 32 ∷ 48 ∷ 32 ∷ 48 ∷ 32 ∷ 48 ∷ 32 ∷ 55 ∷ 55 ∷ []

-- Process 7 runs, no other does.
abbrev pub env : Env
env = record {
  kill = λ pid. if pid == 7 then delivered else no_such_process;
  stat = λ pid. if pid == 7 then some stat_text else none;
  later = λ a b. false;
  rounds = 8;
}

stat_of_7 : read_stat_starttime env 7 ≡ some 77
unfolding read_stat_starttime
stat_of_7 = refl

stat_of_9 : read_stat_starttime env 9 ≡ some 0
unfolding read_stat_starttime
stat_of_9 = refl

dead_9 : pid_dead env 9 5 ≡ some true
unfolding pid_dead
dead_9 = refl

hash_of_empty : fnv1a_hash [] ≡ 0xcbf29ce484222325
unfolding fnv1a_hash
hash_of_empty = refl

idx_600 : size_class_idx 600 ≡ some 1
unfolding size_class_idx
idx_600 = refl

pid_dead_sound_example :
    (0 < 9) × (9 < 2 ^ 31) × ((env.kill 9 ≡ no_such_process) ⊎ (zero ≡ 0) ⊎ (zero ≢ 5))
pid_dead_sound_example = pid_dead_sound env 9 5 stat_of_9 dead_9

size_class_for_example :
    ((c : ℕ) × (size_class_for 600 ≡ some c)
      × ((600 ≤ c) × All (λ x. 600 ≤ x → c ≤ x) size_classes))
    ⊎ ((size_class_for 600 ≡ none) × All (λ x. x < 600) size_classes)
size_class_for_example = size_class_for_lem 600

size_class_idx-least_example :
    ((k : ℕ) × (size_class_idx 600 ≡ some k)
      × (k < 12)
      × (600 ≤ class_size k)
      × ((j : ℕ) → j < k → class_size j < 600))
    ⊎ ((size_class_idx 600 ≡ none) × (16777216 < 600))
size_class_idx-least_example = size_class_idx-least 600

compute_offsets_example :
    let o = compute_offsets 2 2 4 2 in
    (hdr_size ≤ o.channel_index)
    × (o.channel_index + 1 * ch_slot_size + ch_slot_size ≤ o.group_index)
    × (o.group_index + 1 * grp_slot_size + grp_slot_size ≤ o.wakeup_registry)
    × (o.wakeup_registry + 1 * reg_slot_size + reg_slot_size ≤ o.metrics_counters)
    × (o.metrics_counters + metrics_counter_count * 8 ≡ o.dynamic_pool)
    × (o.channel_index % 8 ≡ 0)
    × (o.group_index % 8 ≡ 0)
    × (o.wakeup_registry % 8 ≡ 0)
    × (o.metrics_counters % 8 ≡ 0)
    × (o.dynamic_pool % 8 ≡ 0)
compute_offsets_example =
    compute_offsets_lem 2 2 4 2 1 1 1 (omega arith) (omega arith) (omega arith)
