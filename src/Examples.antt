-- ===== src/Examples.antt =====
-- The theorems at concrete inputs, and tests of the definitions.
pub mod Fixtures
mod Breakers
mod Caches
mod Clients
mod Handlers
mod Http
mod Wrappers
mod Queue
mod Services
mod Sweeps
