-- ===== src/Tests/Lookup.antt =====
-- A channel is created in the index of the tests while another process looks it up.
use django_channels_shm.Prelude.{◌≡◌, refl, true, [], ◌∷◌, ◌==◌, if◌then◌else◌, bytes_eq, arith}
use django_channels_shm.Shm.{ret}
use django_channels_shm.Shm.Interleave.{System, access, run, run-Reach}
use django_channels_shm.Layout.Hash.{fnv1a_hash, fnv1a_from}
use django_channels_shm.Index.{
  Found, channel_index_lookup, channel_lookup_from, read_channel, write_channel,
}
use django_channels_shm.Index.Create.{written}
use django_channels_shm.Index.Progress.{creation}
use django_channels_shm.Index.Concurrent.{IsAnswer, lookup-concurrent}
use django_channels_shm.Tests.Index.{memory, name}

-- The writer has filled in the length when the lookup reads it, and has ended when the lookup reads
-- the version.
abbrev overtaken : System Found
overtaken = run (0 ∷ 0 ∷ 1 ∷ 1 ∷ 0 ∷ 1 ∷ 0 ∷ 0 ∷ 0 ∷ 0 ∷ 0 ∷ 1 ∷ 1 ∷ 1 ∷ 1 ∷ 1 ∷ 1 ∷ []) (record {
  memory = memory;
  procs = λ i. if i == 0 then creation 512 512 name 9000 16 true else channel_index_lookup name 2;
})

overtaken_answer : overtaken.procs 1 ≡ ret (true, 512, 9000, 16, true)
unfolding run access channel_index_lookup channel_lookup_from read_channel write_channel fnv1a_hash
    fnv1a_from bytes_eq
overtaken_answer = refl

lookup-concurrent_example :
    IsAnswer 512 name (written 512 name 9000 16 true memory) (true, 512, 9000, 16, true)
lookup-concurrent_example =
    lookup-concurrent 512 0 name 9000 16 2 true memory (λ _. name) overtaken 1
      (true, 512, 9000, 16, true) (omega arith) (omega arith) refl (omega arith) refl
      (run-Reach _ (0 ∷ 0 ∷ 1 ∷ 1 ∷ 0 ∷ 1 ∷ 0 ∷ 0 ∷ 0 ∷ 0 ∷ 0 ∷ 1 ∷ 1 ∷ 1 ∷ 1 ∷ 1 ∷ 1 ∷ []))
      (λ q. omega (arith, q)) overtaken_answer
