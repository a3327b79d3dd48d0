-- ===== src/Tests/Bindings.antt =====
-- Calls from Python: a new ring of two slots at offset 8192, a channel and a member, and names of
-- 129 bytes.
use django_channels_shm.Prelude.{
  ℕ, zero, suc, ◌<◌, ◌≡◌, ◌⊎◌, ◌≤◌, ◌≢◌, refl, true, Option, none, some, List, [], ◌∷◌, ◌==◌, ◌&&◌,
  if◌then◌else◌, length, arith,
}
use mathlib.Core.List.{Memᴰ}
use django_channels_shm.Shm.{Memory, zeroed, exec}
use django_channels_shm.Layout.{hdr_inline_size}
use django_channels_shm.Ring
use django_channels_shm.Ring.{init_slots}
use django_channels_shm.Ring.Enqueue
use django_channels_shm.Ring.Enqueue.{
  claim, record_owner, overflow_page, write_payload, publish, admit,
}
use django_channels_shm.Bindings.{returned, raised, channel_name_too_long, group_name_too_long}
use django_channels_shm.Bindings.PySlabAllocator.{PySlabAllocator}
use django_channels_shm.Bindings.PyRing.{PyRing, init, try_enqueue, try_dequeue}
use django_channels_shm.Bindings.Functions.{
  channel_index_create, group_index_create_or_find, group_member_add, group_members_read_all,
}
use django_channels_shm.Bindings.Checked.{dequeue-enqueue-init, refused, read_all-add-checked}
use django_channels_shm.Tests.Layout.{env}
use django_channels_shm.Tests.Slab.{pool}
use django_channels_shm.Tests.Member.{joined, renewed}
use django_channels_shm.Member
use django_channels_shm.Member.{add_scan, add_finish}
use django_channels_shm.Member.Utf8.{is_utf8}
use django_channels_shm.Prelude.{until_nul, bytes_eq}
use django_channels_shm.Index

abbrev ring : PyRing
ring = record { inner = 8192 }

abbrev slab : PySlabAllocator
slab = record { inner = pool }

abbrev memory_of : {A : Type 0} → Option (A × Memory) → Memory
memory_of none = zeroed
memory_of (some (a, m)) = m

abbrev start : Memory
start = record {
  word = λ o f. if (f == hdr_inline_size) && (o == 0) then 512 else 0;
  bytes = λ _ _. [];
}

abbrev made : Memory
made = memory_of (exec (init ring 2) start)

abbrev put : Memory
put = memory_of (exec (try_enqueue ring env slab (97 ∷ []) (some (1 ∷ 2 ∷ [])) 60 7 77) made)

made_run : exec (init ring 2) start ≡ some (returned tt, made)
unfolding init Ring.init init_slots exec
made_run = refl

made_inline : made.word 0 hdr_inline_size ≡ 512
unfolding init Ring.init init_slots exec
made_inline = refl

put_run :
    exec (try_enqueue ring env slab (97 ∷ []) (some (1 ∷ 2 ∷ [])) 60 7 77) made
    ≡ some (returned true, put)
unfolding try_enqueue Enqueue.try_enqueue claim admit record_owner overflow_page write_payload
    publish init Ring.init init_slots exec
put_run = refl

dequeue-enqueue-init_example :
    (m₃ : Memory) × (true ≡ true)
    × (exec (try_dequeue ring env slab 55 8 88) put ≡ some (some (97 ∷ [], 1 ∷ 2 ∷ []), m₃))
dequeue-enqueue-init_example =
    dequeue-enqueue-init env slab ring (97 ∷ []) (1 ∷ 2 ∷ []) 2 60 55 7 8 77 88 start made put true
      (omega arith) made_run put_run (omega arith) (omega (arith, made_inline)) (omega arith) refl

-- A name of 129 bytes.
abbrev letters : ℕ → List ℕ
letters zero = []
letters (suc n) = 97 ∷ letters n

refused_example :
    ((128 < length (letters 129))
      × (exec (channel_index_create (letters 129) 9000 16 true 2) start
          ≡ some (raised (channel_name_too_long (length (letters 129))), start))
      × (exec (group_index_create_or_find (letters 129) slab 2 2) start
          ≡ some (raised (group_name_too_long (length (letters 129))), start))
      × (exec (group_member_add 512 8192 (letters 129) 100 2 50) start
          ≡ some (raised (channel_name_too_long (length (letters 129))), start))
      × (exec (try_enqueue ring env slab (letters 129) none 50 7 77) start
          ≡ some (raised (channel_name_too_long (length (letters 129))), start)))
    ⊎ ((length (letters 129) ≤ 128)
        × (exec (channel_index_create (letters 129) 9000 16 true 2) start
            ≢ some (raised (channel_name_too_long 129), start))
        × (exec (group_index_create_or_find (letters 129) slab 2 2) start
            ≢ some (raised (channel_name_too_long 129), start))
        × (exec (group_member_add 512 8192 (letters 129) 100 2 50) start
            ≢ some (raised (channel_name_too_long 129), start))
        × (exec (try_enqueue ring env slab (letters 129) none 50 7 77) start
            ≢ some (raised (channel_name_too_long 129), start)))
refused_example =
    refused env slab ring (letters 129) none 8192 512 9000 16 100 2 2 50 7 77 true
      (channel_name_too_long 129) start start

add_run :
    exec (group_member_add 512 8192 (97 ∷ []) 100 2 500) joined ≡ some (returned true, renewed)
unfolding group_member_add Member.group_member_add add_scan add_finish exec until_nul bytes_eq
add_run = refl

read_all-add-checked_example :
    (out : List (List ℕ)) × (exec (group_members_read_all 8192 2 100 500) renewed
      ≡ some (out, renewed))
    × Memᴰ (97 ∷ []) out
read_all-add-checked_example =
    read_all-add-checked 8192 512 100 2 500 (97 ∷ []) joined renewed
      ((λ e. absurd (omega arith)), tt) text (omega arith) (omega arith) add_run
  where
    text : is_utf8 (97 ∷ []) ≡ true
    text = unfold is_utf8 in refl
