-- ===== src/Shm.antt =====
-- crates/_channels_shm_native/src/region.rs: the shared region and the programs over it.
-- A field is addressed by the offset of its object and the offset of the field in it,
-- which the source adds.
pub mod Exec
pub mod Interleave
pub mod Critical
pub mod Writer
use django_channels_shm.Prelude.{
  ℕ, ◌+◌, ◌%◌, ◌^◌, Bool, ◌&&◌, List, [], Option, some, none, ◌==◌, if◌then◌else◌, padded, overlay,
  ltb, length,
}

-- The numbers (u64, u32, u16, u8 fields) and the byte arrays of the region.
pub record Memory : Type 0 where
  pub word : ℕ → ℕ → ℕ
  pub bytes : ℕ → ℕ → List ℕ

-- The contents after `ftruncate`: zeros.
abbrev pub zeroed : Memory
zeroed = record { word = λ _ _. 0; bytes = λ _ _. [] }

abbrev pub set_word : ℕ → ℕ → ℕ → Memory → Memory
set_word o f v m = record m { word = λ o' f'. if (f == f') && (o == o') then v else m.word o' f' }

abbrev pub set_bytes : ℕ → ℕ → List ℕ → Memory → Memory
set_bytes o f d m = record m {
  bytes = λ o' f'. if (f == f') && (o == o') then overlay d (m.bytes o f) else m.bytes o' f';
}

-- A program over the region: one constructor for each access, so that every access is a step of
-- its own when programs of several processes are interleaved. `diverge` is a loop that has used up
-- the rounds that the run allows it, or a copy that does not fit its field.
pub data Prog (A : Type 0) : Type 0 where
  ret : A → Prog A
  diverge : Prog A
  load : ℕ → ℕ → (ℕ → Prog A) → Prog A
  store : ℕ → ℕ → ℕ → Prog A → Prog A
  cas : ℕ → ℕ → ℕ → ℕ → (ℕ → Prog A) → Prog A
  fetch_add : ℕ → ℕ → ℕ → (ℕ → Prog A) → Prog A
  read : ℕ → ℕ → ℕ → (List ℕ → Prog A) → Prog A
  write : ℕ → ℕ → List ℕ → Prog A → Prog A

infixl 5 ◌>>=◌ ◌>>◌
abbrev pub ◌>>=◌ : {A B : Type 0} → Prog A → (A → Prog B) → Prog B
ret a >>= k = k a
diverge >>= k = diverge
load o f c >>= k = load o f (λ v. c v >>= k)
store o f v c >>= k = store o f v (c >>= k)
cas o f e d c >>= k = cas o f e d (λ b. c b >>= k)
fetch_add o f d c >>= k = fetch_add o f d (λ v. c v >>= k)
read o f n c >>= k = read o f n (λ d. c d >>= k)
write o f d c >>= k = write o f d (c >>= k)

abbrev pub ◌>>◌ : {B : Type 0} → Prog (Unit {0}) → Prog B → Prog B
p >> q = p >>= λ _. q

abbrev pub u64_mod : ℕ
u64_mod = 2 ^ 64

-- `u64` addition wraps.
abbrev pub add64 : ℕ → ℕ → ℕ
add64 a b = (a + b) % u64_mod

-- The accesses of `ShmRegion`. A field of any width is one number.
abbrev pub load_u64 : ℕ → ℕ → Prog ℕ
load_u64 o f = load o f ret

abbrev pub store_u64 : ℕ → ℕ → ℕ → Prog (Unit {0})
store_u64 o f v = store o f v (ret tt)

-- Whether the comparison succeeded; the code never uses the value that `Err` carries.
abbrev pub cas_u64 : ℕ → ℕ → ℕ → ℕ → Prog Bool
cas_u64 o f e d = cas o f e d (λ v. ret (v == e))

abbrev pub fetch_add_u64 : ℕ → ℕ → ℕ → Prog ℕ
fetch_add_u64 o f d = fetch_add o f d ret

abbrev pub copy_in : ℕ → ℕ → List ℕ → Prog (Unit {0})
copy_in o f d = write o f d (ret tt)

-- `copy_in` to a field of `width` bytes. A longer copy overwrites what follows the field, which this
-- memory cannot show: such a run has no result here.
abbrev pub copy_field : ℕ → ℕ → ℕ → List ℕ → Prog (Unit {0})
copy_field width o f d = if ltb width (length d) then diverge else copy_in o f d

abbrev pub copy_out : ℕ → ℕ → ℕ → Prog (List ℕ)
copy_out o f n = read o f n ret

abbrev pub read_u32 : ℕ → ℕ → Prog ℕ
read_u32 o f = load o f ret

abbrev pub write_u32 : ℕ → ℕ → ℕ → Prog (Unit {0})
write_u32 o f v = store o f v (ret tt)

abbrev pub store_u32 : ℕ → ℕ → ℕ → Prog (Unit {0})
store_u32 o f v = store o f v (ret tt)

abbrev pub load_u32 : ℕ → ℕ → Prog ℕ
load_u32 o f = load o f ret

abbrev pub read_u16 : ℕ → ℕ → Prog ℕ
read_u16 o f = load o f ret

abbrev pub write_u16 : ℕ → ℕ → ℕ → Prog (Unit {0})
write_u16 o f v = store o f v (ret tt)

abbrev pub read_u8 : ℕ → ℕ → Prog ℕ
read_u8 o f = load o f ret

abbrev pub write_u8 : ℕ → ℕ → ℕ → Prog (Unit {0})
write_u8 o f v = store o f v (ret tt)

abbrev pub read_bytes : ℕ → ℕ → ℕ → Prog (List ℕ)
read_bytes o f n = read o f n ret

-- A run with no other process at work. The recursive call stands outside every test.
unfoldable pub exec : {A : Type 0} → Prog A → Memory → Option (A × Memory)
exec (ret a) m = some (a, m)
exec diverge m = none
exec (load o f k) m = exec (k (m.word o f)) m
exec (store o f v k) m = exec k (set_word o f v m)
exec (cas o f e d k) m = exec (k (m.word o f)) (if m.word o f == e then set_word o f d m else m)
exec (fetch_add o f d k) m = exec (k (m.word o f)) (set_word o f (add64 (m.word o f) d) m)
exec (read o f n k) m = exec (k (padded n (m.bytes o f))) m
exec (write o f d k) m = exec k (set_bytes o f d m)
