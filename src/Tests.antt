-- ===== src/Tests.antt =====
-- The theorems at concrete inputs, and runs of the model.
pub mod Layout
pub mod Slab
pub mod Concurrent
pub mod Traffic
pub mod Expired
pub mod Torn
pub mod Bindings
pub mod Ring
pub mod Member
pub mod Index
pub mod Lookup
pub mod Setup
