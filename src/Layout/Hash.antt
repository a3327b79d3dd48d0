-- ===== src/Layout/Hash.antt =====
-- `fnv1a_hash` of layout.rs.
use django_channels_shm.Prelude.{ℕ, ◌*◌, ◌%◌, ◌<◌, List, [], ◌∷◌, bit_xor, arith}
use django_channels_shm.Shm.{u64_mod}

-- The loop, with the hash so far.
unfoldable pub fnv1a_from : ℕ → List ℕ → ℕ
fnv1a_from hash [] = hash
fnv1a_from hash (b ∷ name) = fnv1a_from (bit_xor hash b * 0x100000001b3 % u64_mod) name

unfoldable pub fnv1a_hash : List ℕ → ℕ
unfolding fnv1a_from
fnv1a_hash name = fnv1a_from 0xcbf29ce484222325 name

fnv1a_from-lt : (h : ℕ) (name : List ℕ) → h < u64_mod → fnv1a_from h name < u64_mod
unfolding fnv1a_from
fnv1a_from-lt h [] p = p
fnv1a_from-lt h (b ∷ name) p =
    fnv1a_from-lt (bit_xor h b * 0x100000001b3 % u64_mod) name (omega arith)

pub fnv1a_hash-lt : (name : List ℕ) → fnv1a_hash name < u64_mod
unfolding fnv1a_hash
fnv1a_hash-lt name = fnv1a_from-lt 0xcbf29ce484222325 name (omega arith)
