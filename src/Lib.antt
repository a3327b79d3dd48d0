-- ===== src/Lib.antt =====
-- A channel layer in shared memory: the native part of django-channels-shm
-- (crates/_channels_shm_native), which processes share through one mapped region.
--
-- A process enqueues messages into the ring of a channel and dequeues them from it; a message too long
-- for its slot goes to a page of the slab allocator; groups are arrays of member names. A process that
-- dies in the middle of an operation leaves its identity in the slot, and the others repair the slot
-- when they find the process dead.
--
-- Parts of the program, in crates/_channels_shm_native/src, and the modules that model them:
--
--   region.rs   Shm              the region and the programs over it
--   layout.rs   Layout           constants, size classes, hash, offsets, process identity
--   slab.rs     Slab             the size-class allocator of the dynamic pool
--   ring.rs     Ring             the bounded ring of a channel
--   member.rs   Member           the member array of a group
--   index.rs    Index            the index of channels and of groups, flush and compaction
--   lib.rs      Setup, Registry  setting a region up and joining it; the registry of processes
--   py_bindings.rs, lib.rs  Bindings  what Python calls, with the checks on the arguments
--
-- A function of the source has the definition of the same
-- name; a long one is the composition of a definition for each of its steps, in their order. Tests
-- has the theorems at concrete inputs.
--
-- The region is a record of numbers and byte arrays, each at the offset of its object and the
-- offset of the field in it; the source adds the two. A field of any width is one number, so the
-- model cannot show two fields that overlap, and the link of a free block and the data of a live
-- one are kept apart. A copy of bytes into a field of fixed width has a result only if it fits
-- (copy_field): the source does not check the length there, and a longer copy overwrites the fields
-- behind. Additions of u64 wrap. A program is a tree of accesses, one for each access of the
-- source, and `exec` runs one with no other process at work; memory orderings, yields and debug
-- assertions have no effect on such a run. An owner pid is compared and swapped alone, where the
-- source swaps the 8 bytes that hold the pid and 4 bytes of padding.
--
-- Shm/Interleave runs several programs at once: a step is one access of one process, and a state is
-- reached by any order of steps. Memory is sequentially consistent there; reading or writing a byte
-- array is one access. Shm/Critical says what a critical section is, and Shm/Writer what readers may
-- see of one writer. Slab/Locked and the modules after it treat calls of the allocator that way, and
-- Index/Concurrent a lookup next to a creation. Ring/Concurrent has senders and receivers at one ring, and a
-- history that says which process got which ticket; no flush runs there, no process is reported dead,
-- and messages are inline.
--
-- Loops over slots, entries and classes are recursions on their number. The unbounded loops (spinlocks,
-- tickets, dequeues) get a number of rounds: a run that needs more diverges, and the theorems give a
-- number that is enough. The clock's `f64` times are known by their bits, and their comparison, the
-- answers of `kill` and the texts of /proc are the parameters `Env` of the model. A panic in the
-- parsing of /proc gives no result.
--
-- A ring at rest (Ring/Contents) is one with no operation in progress: each ticket between the two
-- counters holds a published message or a round that was given up. A pool (Slab/Invariant) assigns every
-- offset a status, and its free lists are chains of free blocks.
--
-- Prelude has the helpers that all share. A lookup or registration stops at the first slot with a property (Prelude/Search).
--
-- Tests/Expired is a run in which a message in a page is lost to a consumer of the message before it, and
-- Tests/Torn one in which the repair after a death makes a slot count as published.
--
-- Not modelled: what pyo3 does to convert arguments and results, a buffer being the slice that pyo3
-- gives, if there is one; the Python layer; read_self_starttime, which reads the text of
-- /proc/self/stat as read_stat_starttime does that of another process; the mapping of the region and
-- the bounds of its accesses; the metrics counters, which nothing reads; benchmarks.
pub mod Prelude
pub mod Shm
pub mod Layout
pub mod Slab
pub mod Ring
pub mod Member
pub mod Index
pub mod Registry
pub mod Setup
pub mod Bindings
pub mod Tests
