-- ===== src/Multicast/Beacon.antt =====
-- Beacons: their bytes, and the call that one leads to.
use v6space.Base.{
  ℕ, suc, ◌+◌, ◌-◌, ◌*◌, ◌/◌, ◌%◌, ◌≤◌, ◌<◌, ◌≡◌, refl, sym, ap, ◌∙◌, ◌⊎◌, ◌↔◌, inl, inr, true,
  false, Option, none, some, List, [], ◌∷◌, ◌++◌, append_assoc, length, length-append, length-take,
  get_or, take, drop, take-append, drop-append, replicate, All, All-take, arith, ltb, leb, bytes_eq,
  Bool-cases,
}
use mathlib.Core.Path.{subst}
use v6space.Core.Net.{ip_equal}
use v6space.Core.Address.{key_size, copy_into}
use v6space.Core.Address.Bits.{IsByte}
use v6space.Core.Address.Prefix.{hex_encode, hex_decode-hex_encode}
use v6space.Core.Proto.Exchange.{copy_key}
use v6space.Core.Link.{Link, Wire, handshake, accepted}
use v6space.Core.Net.Decimal.{print_uint8}
use v6space.Core.Dial.{Url, LinkInfo, tls_name, Names, Dial, dialling, call}
use v6space.Core.Dial.Transport.{TcpAddr}
use v6space.Core.Dial.Call.{IsPinned, handshake-call}
use v6space.Multicast.{InterfaceInfo, put_uint16, make_beacon}
use v6space.Multicast.Receive.{
  parse_beacon, Receiver, beacon_url, call_on, resolved_call, parsed_call, for_group, receive,
  interface_named,
}

get_or-append : (xs ys : List ℕ) (k : ℕ) → get_or (xs ++ ys) (length xs + k) 0 ≡ get_or ys k 0
get_or-append [] ys k = ap (λ n. get_or ys n 0) (omega arith)
get_or-append (x ∷ xs) ys k =
    let next : length (x ∷ xs) + k ≡ suc (length xs + k) = omega arith in
    ap (λ n. get_or (x ∷ (xs ++ ys)) n 0) next ∙ get_or-append xs ys k

-- The result of the checks where they all pass.
parse_beacon-some :
    (self bs : List ℕ)
    → 34 < length bs
    → bytes_eq (take 32 bs) self ≡ false
    → parse_beacon self bs
      ≡ some (
        take 32 bs,
        (
          drop 32 (take (length bs - 2) bs),
          get_or bs (length bs - 2) 0 * 256 + get_or bs (length bs - 2 + 1) 0,
        ),
      )
unfolding parse_beacon
parse_beacon-some self bs long other =
    let a : ltb (length bs) 32 ≡ false = ground (arith, long) in
    let b : leb (length bs - 2) 32 ≡ false = ground (arith, long) in rw (a, other, b) refl

-- The bytes of a beacon of another node, with an address of at least one byte and a port below
-- 65536, are read back as the key, the address and the port.
pub parse_beacon-make_beacon :
    (self key : List ℕ) (a : TcpAddr)
    → length key ≡ 32
    → 1 ≤ length a.ip
    → a.port < 65536
    → bytes_eq key self ≡ false
    → parse_beacon self (make_beacon key a) ≡ some (key, (a.ip, a.port))
unfolding make_beacon
parse_beacon-make_beacon self key a size some_ip port other =
    let p = put_uint16 (a.port % 65536) in
    let bs = key ++ (a.ip ++ p) in
    let total : length bs ≡ 34 + length a.ip =
      omega (arith, length-append key (a.ip ++ p), length-append a.ip p, size) in
    let front : take 32 bs ≡ key = take-append 32 key (a.ip ++ p) (sym size) in
    let split : (key ++ a.ip) ++ p ≡ bs = append_assoc key a.ip p in
    let end : length (key ++ a.ip) ≡ length bs - 2 =
      omega (arith, length-append key a.ip, total, size) in
    let body : take (length bs - 2) bs ≡ key ++ a.ip =
      ap (take (length bs - 2)) (sym split)
      ∙ take-append (length bs - 2) (key ++ a.ip) p (sym end) in
    let hi : get_or bs (length bs - 2) 0 ≡ a.port % 65536 / 256 % 256 =
      ap (λ n. get_or bs n 0) (omega (arith, end))
      ∙ ap (λ t. get_or t (length (key ++ a.ip) + 0) 0) (sym split)
      ∙ get_or-append (key ++ a.ip) p 0 in
    let lo : get_or bs (length bs - 2 + 1) 0 ≡ a.port % 65536 % 256 =
      ap (λ n. get_or bs n 0) (omega (arith, end))
      ∙ ap (λ t. get_or t (length (key ++ a.ip) + 1) 0) (sym split)
      ∙ get_or-append (key ++ a.ip) p 1 in
    let whole : get_or bs (length bs - 2) 0 * 256 + get_or bs (length bs - 2 + 1) 0 ≡ a.port =
      omega (arith, hi, lo, port) in
    let rest : drop 32 (take (length bs - 2) bs) ≡ a.ip =
      ap (drop 32) body ∙ drop-append 32 key a.ip (sym size) in
    parse_beacon-some self bs (omega (arith, total, some_ip))
      (ap (λ t. bytes_eq t self) front ∙ other)
    ∙ ap
        (λ t. some (
          t,
          (
            drop 32 (take (length bs - 2) bs),
            get_or bs (length bs - 2) 0 * 256 + get_or bs (length bs - 2 + 1) 0,
          ),
        ))
        front
    ∙ ap (λ t. some (key, (t, get_or bs (length bs - 2) 0 * 256 + get_or bs (length bs - 2 + 1) 0)))
        rest
    ∙ ap (λ n. some (key, (a.ip, n))) whole

-- What does not have room for a key, an address and a port, or has the node's own key, is dropped.
parse_beacon_cases :
    (self bs : List ℕ)
    → ((34 < length bs) × (bytes_eq (take 32 bs) self ≡ false)) ⊎ (parse_beacon self bs ≡ none)
unfolding parse_beacon
parse_beacon_cases self bs = elim (Bool-cases (ltb (length bs) 32)) [
  | inl short ↦ inr (rw (parse_beacon, short) refl)
  | inr long ↦ elim (Bool-cases (bytes_eq (take 32 bs) self)) [
    | inl own ↦ inr (rw (parse_beacon, long, own) refl)
    | inr other ↦ elim (Bool-cases (leb (length bs - 2) 32)) [
      | inl none_left ↦ inr (rw (parse_beacon, long, other, none_left) refl)
      | inr left ↦ inl (ground (arith, left), other)
    ]
  ]
]

-- The address and the port of a beacon.
abbrev pub beacon_ip : List ℕ → List ℕ
beacon_ip bs = drop 32 (take (length bs - 2) bs)

abbrev pub beacon_port : List ℕ → ℕ
beacon_port bs = get_or bs (length bs - 2) 0 * 256 + get_or bs (length bs - 2 + 1) 0

-- What listen has found where it calls: a resolved address, and an interface with its configuration.
abbrev pub IsFound :
    Receiver
    → List (ℕ × InterfaceInfo)
    → TcpAddr
    → List ℕ
    → Option TcpAddr
    → Url
    → List ℕ
    → TcpAddr
    → InterfaceInfo
    → Type 0
IsFound r interfaces source key resolved u name a info =
    (resolved ≡ some a)
    × (ip_equal source.ip a.ip ≡ true)
    × (interface_named source.zone interfaces none ≡ some info)
    × (info.listen ≡ true)
    × (u ≡ record {
      scheme = tls_name;
      host = r.text.addr_string (record a { zone = [] });
      path = b'/' ∷ [];
      keys = hex_encode key ∷ [];
      priority = print_uint8 info.priority;
      sni = [];
    })
    × (name ≡ info.iface.name)

-- The packet `bs` from `source` makes listen call `u` through the interface `name`.
abbrev pub IsCall :
    Receiver → List (ℕ × InterfaceInfo) → Option (List ℕ) → TcpAddr → List ℕ → Url → List ℕ → Type 0
IsCall r interfaces dst source bs u name =
    (for_group r.group dst ≡ true)
    × (34 < length bs)
    × (bytes_eq (take 32 bs) r.own_key ≡ false)
    × ((a : TcpAddr) × (info : InterfaceInfo) × IsFound r interfaces source (take 32 bs)
          (r.resolve (beacon_ip bs) (beacon_port bs)) u name a info)

call_on-some :
    (r : Receiver) (o : Option InterfaceInfo) (key : List ℕ) (a : TcpAddr) (u : Url) (name : List ℕ)
    → call_on r o key a ≡ some (u, name)
    → (info : InterfaceInfo) × (o ≡ some info)
      × (info.listen ≡ true)
      × (u ≡ beacon_url r.text a key info.priority)
      × (name ≡ info.iface.name)
unfolding call_on
call_on-some r none key a u name h = absurd (cc h)
call_on-some r (some info) key a u name h = elim (Bool-cases info.listen) [
  | inl e ↦
      let made : some (beacon_url r.text a key info.priority, info.iface.name) ≡ some (u, name) =
        rw (call_on, e) at h in
      (info, refl, e, cc made, cc made)
  | inr e ↦ absurd (cc (rw (call_on, e) at h))
]

resolved_call-some :
    (r : Receiver) (interfaces : List (ℕ × InterfaceInfo)) (source : TcpAddr) (key : List ℕ)
    (o : Option TcpAddr) (u : Url) (name : List ℕ)
    → resolved_call r interfaces source key o ≡ some (u, name)
    → (a : TcpAddr) × (info : InterfaceInfo) × IsFound r interfaces source key o u name a info
unfolding resolved_call
resolved_call-some r interfaces source key none u name h = absurd (cc h)
resolved_call-some r interfaces source key (some a) u name h =
    elim (Bool-cases (ip_equal source.ip a.ip)) [
      | inr e ↦ absurd (cc (rw (resolved_call, e) at h))
      | inl e ↦
          let (info, found, listens, url, named) =
            call_on-some r (interface_named source.zone interfaces none) key a u name
              (rw (resolved_call, e) at h) in
          (a, info, (refl, e, found, listens, url, named))
    ]

resolved_call-found :
    (r : Receiver) (interfaces : List (ℕ × InterfaceInfo)) (source : TcpAddr) (key : List ℕ)
    (o : Option TcpAddr) (u : Url) (name : List ℕ) (a : TcpAddr) (info : InterfaceInfo)
    → IsFound r interfaces source key o u name a info
    → resolved_call r interfaces source key o ≡ some (u, name)
unfolding resolved_call call_on
resolved_call-found r interfaces source key o u name a info
      (resolved, near, here, listens, url, named) =
    rw (resolved, resolved_call, near, here, call_on, listens, url, named) refl

-- For a packet that listen parses, it comes to the resolved address.
receive-parsed :
    (r : Receiver) (interfaces : List (ℕ × InterfaceInfo)) (dst : Option (List ℕ))
    (source : TcpAddr) (bs : List ℕ)
    → for_group r.group dst ≡ true
    → 34 < length bs
    → bytes_eq (take 32 bs) r.own_key ≡ false
    → receive r interfaces dst source bs
      ≡ resolved_call r interfaces source (take 32 bs) (r.resolve (beacon_ip bs) (beacon_port bs))
unfolding receive parsed_call
receive-parsed r interfaces dst source bs grouped long other =
    rw (receive, grouped)
      (ap (parsed_call r interfaces source) (parse_beacon-some r.own_key bs long other))

receive-some :
    (r : Receiver) (interfaces : List (ℕ × InterfaceInfo)) (dst : Option (List ℕ))
    (source : TcpAddr) (bs : List ℕ) (u : Url) (name : List ℕ)
    → receive r interfaces dst source bs ≡ some (u, name)
    → (for_group r.group dst ≡ true) × (34 < length bs) × (bytes_eq (take 32 bs) r.own_key ≡ false)
unfolding receive parsed_call
receive-some r interfaces dst source bs u name h = elim (Bool-cases (for_group r.group dst)) [
  | inr e ↦ absurd (cc (rw (receive, e) at h))
  | inl e ↦ elim (parse_beacon_cases r.own_key bs) [
    | inl (long, other) ↦ (e, long, other)
    | inr dropped ↦
        let parsed : parsed_call r interfaces source (parse_beacon r.own_key bs) ≡ some (u, name) =
          rw (receive, e) at h in
        absurd (cc (sym (ap (parsed_call r interfaces source) dropped) ∙ parsed))
  ]
]

-- listen answers a packet with a call exactly if: it is for the group, where the system tells its
-- destination; it has more than 34 bytes, of which the first 32 are a key that is not the node's
-- own; the address between the key and the last two bytes resolves, with the port in those, to the
-- address that the packet came from; and the interface that it came in on listens. The call is by
-- TLS to that address without its zone, pins that key alone, has that interface's priority and goes
-- out through that interface.
pub receive-IsCall :
    (r : Receiver) (interfaces : List (ℕ × InterfaceInfo)) (dst : Option (List ℕ))
    (source : TcpAddr) (bs : List ℕ) (u : Url) (name : List ℕ)
    → (receive r interfaces dst source bs ≡ some (u, name))
      ↔ IsCall r interfaces dst source bs u name
receive-IsCall r interfaces dst source bs u name = (
  λ h.
      let (grouped, long, other) = receive-some r interfaces dst source bs u name h in
      (
        grouped,
        long,
        other,
        resolved_call-some r interfaces source (take 32 bs)
            (r.resolve (beacon_ip bs) (beacon_port bs)) u name
            (sym (receive-parsed r interfaces dst source bs grouped long other) ∙ h),
      ),
  λ (grouped, long, other, (a, info, found)).
      receive-parsed r interfaces dst source bs grouped long other
      ∙ resolved_call-found r interfaces source (take 32 bs)
          (r.resolve (beacon_ip bs) (beacon_port bs)) u name a info found,
)

pinned_once :
    (key bs : List ℕ)
    → All IsByte bs
    → length bs ≡ 32
    → IsPinned key (hex_encode bs ∷ [])
    → key ≡ bs
pinned_once key bs bytes size (inr none_left) = absurd none_left
pinned_once key bs bytes size (inl (raw, read, padded)) =
    let same : bs ≡ raw = cc (hex_decode-hex_encode bs bytes, read) in
    sym padded
    ∙ ap (copy_into (replicate key_size 0)) (sym same)
    ∙ copy_key (replicate 32 0) bs (sym size)

-- Where a packet of bytes makes the node call, and the call dials, and the handshake on that link
-- lets a node in, then that node has the key that the packet starts with, and is not the node
-- itself.
pub beacon_peer :
    (r : Receiver) (interfaces : List (ℕ × InterfaceInfo)) (dst : Option (List ℕ))
    (source : TcpAddr) (bs : List ℕ) (u : Url) (name : List ℕ) (names : Names)
    (links : List (LinkInfo × Option ℕ)) (d : Dial) (allowed : List (List ℕ)) (l : Link) (w : Wire)
    (key : List ℕ)
    → All IsByte bs
    → receive r interfaces dst source bs ≡ some (u, name)
    → (call names links u name).1 ≡ dialling d
    → l.options ≡ d.options
    → handshake allowed l w ≡ accepted key
    → (key ≡ take 32 bs) × (bytes_eq key r.own_key ≡ false)
beacon_peer r interfaces dst source bs u name names links d allowed l w key bytes h c o s =
    let (grouped, long, other, (a, info, (resolved, near, here, listens, url, zone))) =
      (receive-IsCall r interfaces dst source bs u name).0 h in
    let keys : u.keys ≡ hex_encode (take 32 bs) ∷ [] = ap (λ x. x.keys) url in
    let named : key ≡ take 32 bs =
      elim (handshake-call names links u name d allowed l w key c o s) [
        | inl empty ↦ absurd (cc (empty, keys))
        | inr member ↦
            pinned_once key (take 32 bs) (All-take IsByte 32 bs bytes)
              (omega (arith, length-take 32 bs, long)) (subst (IsPinned key) keys member)
      ] in
    (named, ap (λ k. bytes_eq k r.own_key) named ∙ other)
