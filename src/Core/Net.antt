-- ===== src/Core/Net.antt =====
-- What the node takes from Go's net and strconv: classes of IP addresses, decimal numbers,
-- and the splitting of a host from its port.
pub mod Decimal
pub mod HostPort
use v6space.Base.{
  ℕ, bit_and, Bool, true, false, not, ◌&&◌, ◌||◌, Option, none, some, List, [], ◌∷◌, ◌++◌, length,
  get_or, take, drop, replicate, ◌==◌, ltb, leb, if◌then◌else◌, bytes_eq,
}

-- IP.To4.
unfoldable pub to4 : List ℕ → Option (List ℕ)
to4 ip =
    if length ip == 4
    then some ip
    else if length ip == 16 && bytes_eq (take 12 ip) (replicate 10 0 ++ 255 ∷ 255 ∷ [])
    then some (drop 12 ip)
    else none

abbrev pub is_some {ℓ} : {A : Type ℓ} → Option A → Bool
is_some none = false
is_some (some a) = true

-- IP.Equal.
unfoldable pub ip_equal : List ℕ → List ℕ → Bool
ip_equal a b = if length a == length b then bytes_eq a b else elim (to4 a) [
  | none ↦ false
  | some x ↦ elim (to4 b) [ none ↦ false | some y ↦ bytes_eq x y ]
]

-- IP.IsLinkLocalUnicast.
unfoldable pub is_link_local : List ℕ → Bool
is_link_local ip = elim (to4 ip) [
  | some v4 ↦ get_or v4 0 0 == 169 && get_or v4 1 0 == 254
  | none ↦ length ip == 16 && get_or ip 0 0 == 0xfe && bit_and (get_or ip 1 0) 0xc0 == 0x80
]

-- IP.IsMulticast.
unfoldable pub is_multicast : List ℕ → Bool
is_multicast ip = elim (to4 ip) [
  | some v4 ↦ bit_and (get_or v4 0 0) 0xf0 == 0xe0
  | none ↦ length ip == 16 && get_or ip 0 0 == 0xff
]

-- IP.IsLinkLocalMulticast.
unfoldable pub is_link_local_multicast : List ℕ → Bool
is_link_local_multicast ip = elim (to4 ip) [
  | some v4 ↦ get_or v4 0 0 == 224 && get_or v4 1 0 == 0 && get_or v4 2 0 == 0
  | none ↦ length ip == 16 && get_or ip 0 0 == 0xff && bit_and (get_or ip 1 0) 0x0f == 0x02
]

-- IP.IsLoopback.
unfoldable pub is_loopback : List ℕ → Bool
is_loopback ip = elim (to4 ip) [
  | some v4 ↦ get_or v4 0 0 == 127
  | none ↦ ip_equal ip (replicate 15 0 ++ 1 ∷ [])
]

-- IP.IsGlobalUnicast.
unfoldable pub is_global : List ℕ → Bool
is_global ip =
    (length ip == 4 || length ip == 16)
    && not (ip_equal ip (replicate 4 255))
    && not (ip_equal ip (replicate 4 0) || ip_equal ip (replicate 16 0))
    && not (is_loopback ip)
    && not (is_multicast ip)
    && not (is_link_local ip)
