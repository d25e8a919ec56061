-- ===== src/Core/Version.antt =====
-- src/core/version.go: the metadata that two nodes exchange at the start of a link.
pub mod Wire
use v6space.Base.{
  ℕ, zero, suc, ◌+◌, Bool, ◌&&◌, Option, none, some, List, [], ◌∷◌, ◌++◌, length, get_or, drop,
  replicate, ◌==◌, if◌then◌else◌, bytes_eq,
}
use v6space.Core.Address.{key_size, copy_into}

pub record Metadata : Type 0 where
  pub meta : List ℕ
  pub ver : ℕ
  pub minor_ver : ℕ
  pub key : List ℕ

-- version_getBaseMetadata: the bytes of "meta", version 0.4, no key.
abbrev pub base_metadata : Metadata
base_metadata = record { meta = b'm' ∷ b'e' ∷ b't' ∷ b'a' ∷ []; ver = 0; minor_ver = 4; key = [] }

-- version_getMetaLength.
abbrev pub meta_length : ℕ
meta_length = 4 + 1 + 1 + key_size

-- encode; `none` is the panic on a length that is wrong.
unfoldable pub encode : Metadata → Option (List ℕ)
encode m =
    let bs = m.meta ++ (m.ver ∷ m.minor_ver ∷ m.key) in
    if length bs == meta_length then some bs else none

-- decode into a metadata that is all zero; `none` is the result false.
unfoldable pub decode : List ℕ → Option Metadata
decode bs =
    if length bs == meta_length
    then some (record {
      meta = copy_into (replicate 4 0) bs;
      ver = get_or bs 4 0;
      minor_ver = get_or bs 5 0;
      key = drop 6 bs;
    })
    else none

unfoldable pub check : Metadata → Bool
check m =
    bytes_eq base_metadata.meta m.meta
    && base_metadata.ver == m.ver
    && base_metadata.minor_ver == m.minor_ver
