-- ===== src/Ipv6rwc/Icmpv6/Layout.antt =====
-- The layout of the packets that CreateICMPv6 makes.
use v6space.Base.{
  ℕ, ◌+◌, ◌-◌, ◌*◌, ◌/◌, ◌%◌, ◌^◌, ◌<◌, ◌≡◌, refl, sym, ap, ◌∙◌, Option, some, List, [], ◌∷◌, ◌++◌,
  append-nil, append_assoc, length, length-append, arith,
}
use v6space.Core.Address.{copy_into, copy_at}
use v6space.Core.Address.Pad.{zeros, copy_into_pad}
use v6space.Ipv6rwc.Icmpv6.{byte, header_marshal, Message, create_icmpv6}

copy_at-append : (xs ys zs : List ℕ) → copy_at (length xs) (xs ++ ys) zs ≡ xs ++ copy_into ys zs
copy_at-append [] ys zs = refl
copy_at-append (x ∷ xs) ys zs = ap (◌∷◌ x) (copy_at-append xs ys zs)

copy_sixteen :
    (n : ℕ) (xs : List ℕ) → length xs ≡ 16 → copy_into (zeros (16 + n)) xs ≡ xs ++ zeros n
copy_sixteen n xs h =
    let e : 16 + n - length xs ≡ n = omega arith in
    ap (copy_into (zeros (16 + n))) (sym (append-nil xs))
    ∙ copy_into_pad xs (16 + n) 0 (omega arith)
    ∙ ap (λ k. xs ++ zeros k) e

-- A marshalled header, for addresses of 16 bytes, is 40 bytes long: eight bytes of fields, the
-- source and the destination.
header_shape :
    (src dst : List ℕ) (len : ℕ)
    → length src ≡ 16
    → length dst ≡ 16
    → header_marshal (record {
      version = 6;
      traffic_class = 0;
      flow_label = 0;
      payload_len = len;
      next_header = 58;
      hop_limit = 255;
      src = src;
      dst = dst;
    })
      ≡ 0x60
        ∷ 0
        ∷ 0
        ∷ 0
        ∷ byte (len % 2 ^ 16 / 2 ^ 8)
        ∷ byte (len % 2 ^ 16)
        ∷ 58
        ∷ 255
        ∷ (src ++ dst)
unfolding header_marshal
header_shape src dst len hs hd =
    let s : copy_into (zeros 16) src ≡ src = copy_sixteen 0 src hs ∙ append-nil src in
    let d : copy_into (zeros 16) dst ≡ dst = copy_sixteen 0 dst hd ∙ append-nil dst in
    let tail : copy_at 16 (src ++ zeros 16) dst ≡ src ++ dst =
      ap (λ n. copy_at n (src ++ zeros 16) dst) (sym hs)
      ∙ copy_at-append src (zeros 16) dst
      ∙ ap (λ l. src ++ l) d in
    rw (s, d, copy_sixteen 16 src hs, tail) refl

-- For addresses of 16 bytes and a message that is marshalled to fewer than 65536 bytes,
-- CreateICMPv6 makes an IPv6 packet: version 6, the message's length in two bytes, next header
-- ICMPv6 (58), hop limit 255, the source, the destination and the message.
pub create_icmpv6_cases :
    (marshal : List ℕ → List ℕ → Message → Option (List ℕ)) (dst src : List ℕ) (m : Message)
    (payload : List ℕ)
    → length src ≡ 16
    → length dst ≡ 16
    → length payload < 65536
    → marshal src dst m ≡ some payload
    → (hi : ℕ) × (lo : ℕ) × (hi * 256 + lo ≡ length payload)
      × (hi < 256)
      × (lo < 256)
      × (create_icmpv6 marshal dst src m
          ≡ some (0x60 ∷ 0 ∷ 0 ∷ 0 ∷ hi ∷ lo ∷ 58 ∷ 255 ∷ (src ++ (dst ++ payload))))
unfolding create_icmpv6
create_icmpv6_cases marshal dst src m payload hs hd small e =
    let len = length payload in
    let both : copy_into (zeros 32) (src ++ dst) ≡ src ++ dst =
      ap (copy_into (zeros 32)) (sym (append-nil (src ++ dst)))
      ∙ copy_into_pad (src ++ dst) 32 0 (omega (arith, length-append src dst))
      ∙ (let e : 32 - length (src ++ dst) ≡ 0 = omega (arith, length-append src dst) in
          rw e (append-nil (src ++ dst))) in
    (
      byte (len % 2 ^ 16 / 2 ^ 8),
      byte (len % 2 ^ 16),
      omega arith,
      omega arith,
      omega arith,
      rw (create_icmpv6, e, header_shape src dst len hs hd, both)
          (ap
            (λ l.
              some (
                0x60
                ∷ 0
                ∷ 0
                ∷ 0
                ∷ byte (len % 2 ^ 16 / 2 ^ 8)
                ∷ byte (len % 2 ^ 16)
                ∷ 58
                ∷ 255
                ∷ l))
            (append_assoc src dst payload)),
    )
