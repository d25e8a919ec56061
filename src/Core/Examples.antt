-- ===== src/Core/Examples.antt =====
-- Tests of the core, by part.
pub mod Addresses
pub mod Links
pub mod Requests
pub mod Peers
pub mod Transports
