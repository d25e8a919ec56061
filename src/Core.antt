-- ===== src/Core.antt =====
-- src/core: addresses, the link handshake, the in-band protocol and the node itself.
pub mod Address
pub mod Version
pub mod Proto
pub mod NodeInfo
pub mod Net
pub mod Dial
pub mod Reports
pub mod Peers
pub mod Start
pub mod Link
pub mod Examples
