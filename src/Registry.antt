-- ===== src/Registry.antt =====
-- crates/_channels_shm_native/src/lib.rs: the registry of processes that wait for messages.
pub mod Register
pub mod MarkDead
use django_channels_shm.Prelude.{
  ℕ, zero, suc, ◌+◌, ◌*◌, min, Bool, not, ◌&&◌, Option, none, some, List, [], ◌∷◌, length, take,
  padded, until_nul, bytes_eq, ◌==◌, if◌then◌else◌,
}
use django_channels_shm.Shm.{
  Prog, ret, ◌>>=◌, ◌>>◌, load_u64, store_u64, write_u32, read_u8, write_u8, read_bytes, copy_in,
}
use django_channels_shm.Layout.{
  hdr_wakeup_registry_off, reg_client_prefix, reg_socket_path, reg_pid, reg_start_time, reg_valid,
  reg_version, reg_slot_size,
}

abbrev pub reg_slot_off : ℕ → ℕ → ℕ
reg_slot_off reg_off i = reg_off + i * reg_slot_size

-- A field that ends at its first NUL, or is full.
abbrev pub read_text : ℕ → ℕ → ℕ → Prog (List ℕ)
read_text slot_off field width = do buf ← read_bytes slot_off field width; ret (until_nul buf)

module _ (client_prefix socket_path : List ℕ) (pid start_time : ℕ) where
  unfoldable pub write_process : ℕ → Prog (Unit {0})
  write_process slot_off = do
    store_u64 slot_off reg_version 1
    copy_in slot_off reg_client_prefix
        (padded 32 (take (min (length client_prefix) 32) client_prefix))
    copy_in slot_off reg_socket_path (padded 108 (take (min (length socket_path) 107) socket_path))
    write_u32 slot_off reg_pid pid
    store_u64 slot_off reg_start_time start_time
    write_u8 slot_off reg_valid 1
    store_u64 slot_off reg_version 2

  -- The loop from slot `i` on, `n` of them left.
  unfoldable pub register_from : ℕ → ℕ → ℕ → Prog ℕ
  unfolding write_process
  register_from reg_off zero i = ret 0
  register_from reg_off (suc n) i = do
    valid ← read_u8 (reg_slot_off reg_off i) reg_valid
    if valid == 0
        then (write_process (reg_slot_off reg_off i) >> ret (reg_slot_off reg_off i))
        else register_from reg_off n (i + 1)

  -- The offset of the slot, or 0 if the registry is full.
  unfoldable pub registry_register : ℕ → Prog ℕ
  registry_register max_processes = do
    reg_off ← load_u64 0 hdr_wakeup_registry_off
    register_from reg_off max_processes 0

unfoldable pub registry_mark_dead : ℕ → Prog (Unit {0})
registry_mark_dead slot_offset = write_u8 slot_offset reg_valid 0

unfoldable pub valid_from : ℕ → ℕ → ℕ → Prog (List (ℕ × List ℕ))
valid_from reg_off zero i = ret []
valid_from reg_off (suc n) i = do
  valid ← read_u8 (reg_slot_off reg_off i) reg_valid
  if valid == 0 then valid_from reg_off n (i + 1) else (do
    path ← read_text (reg_slot_off reg_off i) reg_socket_path 108
    result ← valid_from reg_off n (i + 1)
    ret ((reg_slot_off reg_off i, path) ∷ result))

unfoldable pub registry_get_valid : ℕ → Prog (List (ℕ × List ℕ))
unfolding valid_from
registry_get_valid max_processes = do
  reg_off ← load_u64 0 hdr_wakeup_registry_off
  valid_from reg_off max_processes 0

-- `plen == prefix_bytes.len() && prefix_buf[..plen] == prefix_bytes[..plen]`
abbrev pub same_prefix : List ℕ → List ℕ → Bool
same_prefix existing target_prefix =
    length existing == length target_prefix && bytes_eq existing target_prefix

unfoldable pub socket_from : List ℕ → ℕ → ℕ → ℕ → Prog (Option (List ℕ))
socket_from target_prefix reg_off zero i = ret none
socket_from target_prefix reg_off (suc n) i = do
  let next = socket_from target_prefix reg_off n (i + 1)
  valid ← read_u8 (reg_slot_off reg_off i) reg_valid
  if valid == 0 then next else (do
    existing ← read_text (reg_slot_off reg_off i) reg_client_prefix 32
    if same_prefix existing target_prefix
        then (do path ← read_text (reg_slot_off reg_off i) reg_socket_path 108; ret (some path))
        else next)

unfoldable pub registry_lookup_socket : List ℕ → ℕ → Prog (Option (List ℕ))
registry_lookup_socket target_prefix max_processes = do
  reg_off ← load_u64 0 hdr_wakeup_registry_off
  socket_from target_prefix reg_off max_processes 0
