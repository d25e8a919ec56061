-- ===== src/Core/Version/Wire.antt =====
-- The wire format of the metadata, both ways, and what the version check accepts.
use v6space.Base.{
  ℕ, ◌≡◌, ◌≢◌, ◌↔◌, inl, inr, true, none, some, List, [], ◌∷◌, length, ◌==◌, ==_iff, arith,
  Bool-cases, bytes_eq_iff,
}
use v6space.Core.Address.{key_size}
use v6space.Core.Version.{Metadata, base_metadata, meta_length, encode, decode, check}

-- Metadata with four bytes of magic and a key of 32 bytes is encoded, and decoded to itself.
pub decode-encode :
    (m : Metadata)
    → length m.meta ≡ 4
    → length m.key ≡ key_size
    → (bs : List ℕ) × (encode m ≡ some bs) × (decode bs ≡ some m)
unfolding encode decode
decode-encode m hm hk = go m.meta hm
  where
    go :
        (magic : List ℕ)
        → length magic ≡ 4
        → (bs : List ℕ) × (encode (record m { meta = magic }) ≡ some bs)
          × (decode bs ≡ some (record m { meta = magic }))
    go [] h = absurd (omega arith)
    go (a ∷ []) h = absurd (omega arith)
    go (a ∷ b ∷ []) h = absurd (omega arith)
    go (a ∷ b ∷ c ∷ []) h = absurd (omega arith)
    go (a ∷ b ∷ c ∷ d ∷ []) h =
        let size : length (a ∷ b ∷ c ∷ d ∷ m.ver ∷ m.minor_ver ∷ m.key) ≡ meta_length =
          omega arith in
        (
          a ∷ b ∷ c ∷ d ∷ m.ver ∷ m.minor_ver ∷ m.key,
          rw ((==_iff _ _).1 size),
          rw ((==_iff _ _).1 size),
        )
    go (a ∷ b ∷ c ∷ d ∷ e ∷ magic) h = absurd (omega arith)

-- Whatever decodes was the encoding of the result: decoding refuses every other length, and loses
-- nothing.
pub encode-decode : (bs : List ℕ) (m : Metadata) → decode bs ≡ some m → encode m ≡ some bs
unfolding encode decode
encode-decode [] m h = absurd (cc h)
encode-decode (a ∷ []) m h = absurd (cc h)
encode-decode (a ∷ b ∷ []) m h = absurd (cc h)
encode-decode (a ∷ b ∷ c ∷ []) m h = absurd (cc h)
encode-decode (a ∷ b ∷ c ∷ d ∷ []) m h = absurd (cc h)
encode-decode (a ∷ b ∷ c ∷ d ∷ e ∷ []) m h = absurd (cc h)
encode-decode (a ∷ b ∷ c ∷ d ∷ e ∷ f ∷ bs) m h =
    elim (Bool-cases (length (a ∷ b ∷ c ∷ d ∷ e ∷ f ∷ bs) == meta_length)) [
      | inl size ↦
          let same : record { meta = a ∷ b ∷ c ∷ d ∷ []; ver = e; minor_ver = f; key = bs } ≡ m =
            cc (rw size at h) in
          rw (← same, size)
      | inr size ↦ absurd (cc (rw size at h))
    ]

-- Encoding panics exactly on metadata of another total length; of the local node's metadata, that
-- is a key that does not have 32 bytes.
pub encode-none_iff :
    (key : List ℕ) → (encode (record base_metadata { key = key }) ≡ none) ↔ (length key ≢ key_size)
unfolding encode
encode-none_iff key = ground arith

-- The check accepts exactly the magic bytes with version 0.4, whatever the key.
pub check_iff :
    (m : Metadata)
    → (check m ≡ true) ↔ ((m.meta ≡ base_metadata.meta) × (m.ver ≡ 0) × (m.minor_ver ≡ 4))
unfolding check
check_iff m = ground (arith, bytes_eq_iff base_metadata.meta m.meta)
