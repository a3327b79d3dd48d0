-- ===== src/Bindings.antt =====
-- crates/_channels_shm_native/src/py_bindings.rs and the exported functions of lib.rs: what Python
-- code sees of the operations, with the checks on its arguments.
pub mod PyShmRegion
pub mod PyRing
pub mod PySlabAllocator
pub mod Functions
pub mod Checked
use django_channels_shm.Prelude.{ℕ, List, length, ltb, if◌then◌else◌}
use django_channels_shm.Shm.{Prog, ret, ◌>>=◌}

-- The `PyValueError`s, with the number that a message is formatted with.
pub data ValueError : Type 0 where
  null_pointer : ValueError
  capacity_below_two : ValueError
  channel_name_too_long : ℕ → ValueError
  group_name_too_long : ℕ → ValueError

-- `PyResult`
pub data PyResult (A : Type 0) : Type 0 where
  returned : A → PyResult A
  raised : ValueError → PyResult A

-- The width of the name fields in the region.
abbrev pub name_width : ℕ
name_width = 128

-- `Ok(…)` around the result of an operation.
abbrev pub ok_of : {A : Type 0} → Prog A → Prog (PyResult A)
ok_of p = do a ← p; ret (returned a)
