-- ===== src/Ipv6rwc/Icmpv6.antt =====
-- src/ipv6rwc/icmpv6.go. The marshalling of the ICMPv6 message itself is golang.org/x/net/icmp:
-- a parameter, `none` for an error.
pub mod Layout
use v6space.Base.{
  ℕ, ◌+◌, ◌*◌, ◌/◌, ◌%◌, ◌^◌, bit_or, Option, none, some, List, [], ◌∷◌, ◌++◌, length, replicate,
  modify,
}
use v6space.Core.Address.{copy_into, copy_at}

-- ipv6.Header, the fields that are written out.
pub record Header : Type 0 where
  pub version : ℕ
  pub traffic_class : ℕ
  pub flow_label : ℕ
  pub payload_len : ℕ
  pub next_header : ℕ
  pub hop_limit : ℕ
  pub src : List ℕ
  pub dst : List ℕ

abbrev pub byte : ℕ → ℕ
byte n = n % 2 ^ 8

-- ipv6Header_Marshal.
unfoldable pub header_marshal : Header → List ℕ
header_marshal h =
    let b0 = bit_or (byte (byte h.version * 2 ^ 4)) (byte h.traffic_class / 2 ^ 4) in
    let b1 = bit_or (byte (byte h.traffic_class * 2 ^ 4)) (byte (h.flow_label / 2 ^ 16)) in
    let len = h.payload_len % 2 ^ 16 in
    let first =
      b0
      ∷ b1
      ∷ byte (h.flow_label / 2 ^ 8)
      ∷ byte h.flow_label
      ∷ byte (len / 2 ^ 8)
      ∷ byte len
      ∷ byte h.next_header
      ∷ byte h.hop_limit
      ∷ replicate 32 0 in
    -- b[8:24] and b[24:40] bound what is copied.
    copy_at 24 (copy_at 8 first (copy_into (replicate 16 0) h.src))
      (copy_into (replicate 16 0) h.dst)

-- An ICMPv6 message: type, code and body; the body is ipv6.PacketTooBig's here.
pub record Message : Type 0 where
  pub mtype : ℕ
  pub code : ℕ
  pub mtu : ℕ
  pub body : List ℕ

-- CreateICMPv6.
unfoldable pub create_icmpv6 :
    (List ℕ → List ℕ → Message → Option (List ℕ)) → List ℕ → List ℕ → Message → Option (List ℕ)
create_icmpv6 marshal dst src m = elim (marshal src dst m) [
  | none ↦ none
  | some payload ↦ some (
      copy_into (replicate 40 0) (
        header_marshal (record {
          version = 6;
          traffic_class = 0;
          flow_label = 0;
          payload_len = length payload;
          next_header = 58;
          hop_limit = 255;
          src = src;
          dst = dst;
        }))
      ++ payload)
]
