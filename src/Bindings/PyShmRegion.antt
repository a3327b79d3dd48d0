-- ===== src/Bindings/PyShmRegion.antt =====
-- `PyShmRegion`: the accesses to the region, by the offset of a field.
use django_channels_shm.Prelude.{ℕ, Bool, List, ◌==◌, if◌then◌else◌}
use django_channels_shm.Shm
use django_channels_shm.Shm.{Prog, ret, ◌>>=◌}
use django_channels_shm.Bindings.{PyResult, returned, raised, null_pointer}

-- `ShmRegion`: where the region is mapped, and how long it is.
pub record ShmRegion : Type 0 where
  pub ptr : ℕ
  pub len : ℕ

-- The address may not be null.
unfoldable pub new : ℕ → ℕ → PyResult ShmRegion
new ptr length =
    if ptr == 0 then raised null_pointer else returned (record { ptr = ptr; len = length })

unfoldable pub len : ShmRegion → ℕ
len region = region.len

-- Python gives the sum of the offsets of an object and of a field in it; `locate` takes it apart.
module _ (locate : ℕ → ℕ × ℕ) (offset : ℕ) where
  unfoldable pub load_u64 : Prog ℕ
  load_u64 = Shm.load_u64 (locate offset).0 (locate offset).1

  unfoldable pub store_u64 : ℕ → Prog (Unit {0})
  store_u64 value = Shm.store_u64 (locate offset).0 (locate offset).1 value

  -- Whether the comparison succeeded, and the value that was there.
  unfoldable pub cas_u64 : ℕ → ℕ → Prog (Bool × ℕ)
  cas_u64 expected desired =
      Shm.cas (locate offset).0 (locate offset).1 expected desired (λ v. ret (v == expected, v))

  unfoldable pub fetch_add_u64 : ℕ → Prog ℕ
  fetch_add_u64 delta = Shm.fetch_add_u64 (locate offset).0 (locate offset).1 delta

  unfoldable pub copy_in : List ℕ → Prog (Unit {0})
  copy_in data' = Shm.copy_in (locate offset).0 (locate offset).1 data'

  unfoldable pub copy_out : ℕ → Prog (List ℕ)
  copy_out length = Shm.copy_out (locate offset).0 (locate offset).1 length

  unfoldable pub read_u32 : Prog ℕ
  read_u32 = Shm.read_u32 (locate offset).0 (locate offset).1

  unfoldable pub write_u32 : ℕ → Prog (Unit {0})
  write_u32 value = Shm.write_u32 (locate offset).0 (locate offset).1 value

  unfoldable pub read_u16 : Prog ℕ
  read_u16 = Shm.read_u16 (locate offset).0 (locate offset).1

  unfoldable pub write_u16 : ℕ → Prog (Unit {0})
  write_u16 value = Shm.write_u16 (locate offset).0 (locate offset).1 value

  unfoldable pub read_u8 : Prog ℕ
  read_u8 = Shm.read_u8 (locate offset).0 (locate offset).1

  unfoldable pub write_u8 : ℕ → Prog (Unit {0})
  write_u8 value = Shm.write_u8 (locate offset).0 (locate offset).1 value

  unfoldable pub read_bytes : ℕ → Prog (List ℕ)
  read_bytes length = Shm.read_bytes (locate offset).0 (locate offset).1 length
