-- ===== src/Cmd.antt =====
-- cmd: the command line programs, the node itself and the key search.
pub mod GenKeys
pub mod Mesh
pub mod Examples
