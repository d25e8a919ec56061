-- ===== src/Core/Address.antt =====
-- src/core/address.go: node addresses and /64 subnets derived from public keys, and the partial
-- keys read back from them. Byte arrays are lists of numbers below 256; the one-byte prefix is
-- the argument `p`, the value that GetPrefix returns.
mod Defs
pub mod Bits
pub mod Scan
pub mod Recover
pub mod Pad
pub mod RoundTrip
pub mod Lookup
pub mod Prefix
unfoldable pub use Defs.*
