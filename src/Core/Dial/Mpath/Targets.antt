-- ===== src/Core/Dial/Mpath/Targets.antt =====
-- What is dialled for a multipath URL.
use v6space.Base.{
  ℕ, ◌≡◌, ◌≢◌, refl, ◌⊎◌, inl, inr, false, Option, none, some, List, [], ◌∷◌, All, All-append,
  Bool-cases, Option-cases, lookup,
}
use mathlib.Core.Path.{subst}
use v6space.Core.Net.{is_link_local, is_some}
use v6space.Core.Dial.{LinkInfo, info_Eq, link_info_for, tcp_name}
use v6space.Core.Dial.Transport.{TcpAddr, Interface, suits}
use v6space.Core.Dial.Source.{IsSource, pick_source-IsSource, suits-IsSource}
use v6space.Core.Dial.Mpath.{
  hosts_of, System, zoned, add_target, resolved_target, remote_targets, Dialer, source_on,
  dialers_to, dialers_on, star, star_dialers, names_of, dialers_for, dials, some_dialers,
  some_targets, conn_for,
}
use v6space.Core.Dial.Mpath.Android.{if_suits, android_targets, conn_for_android}

-- A target is not link-local, or has the source interfaces, of which there are some, as its zone.
abbrev pub IsTarget : List ℕ → TcpAddr → Type 0
IsTarget sintf dst = (is_link_local dst.ip ≡ false) ⊎ ((dst.zone ≡ sintf) × (sintf ≢ []))

-- A dialer for such a target: without source interfaces from any address, and else from an address
-- that suits the target.
abbrev pub IsDialer : List ℕ → Dialer → Type 0
IsDialer sintf d =
    IsTarget sintf d.1 × (((sintf ≡ []) × (d.0 ≡ star)) ⊎ ((sintf ≢ []) × IsSource d.1.ip d.0))

zoned-IsTarget :
    (sintf : List ℕ) (dst : TcpAddr) (dsts : List TcpAddr)
    → All (IsTarget sintf) dsts
    → All (IsTarget sintf) (add_target (zoned sintf dst) dsts)
zoned-IsTarget [] dst dsts h = elim (Bool-cases (is_link_local dst.ip)) [
  | inl e ↦ rw e h
  | inr e ↦ rw e (inl e, h)
]
zoned-IsTarget (c ∷ cs) dst dsts h = elim (Bool-cases (is_link_local dst.ip)) [
  | inl e ↦ rw e (inr (refl, λ n. absurd (cc n)), h)
  | inr e ↦ rw e (inl e, h)
]

resolved_target-IsTarget :
    (sintf : List ℕ) (o : Option TcpAddr) (dsts : List TcpAddr)
    → All (IsTarget sintf) dsts
    → All (IsTarget sintf) (resolved_target sintf o dsts)
resolved_target-IsTarget sintf none dsts h = h
resolved_target-IsTarget sintf (some dst) dsts h = zoned-IsTarget sintf dst dsts h

remote_targets-IsTarget :
    (sys : System) (links : List (LinkInfo × Option ℕ)) (sintf : List ℕ) (hosts : List (List ℕ))
    → All (IsTarget sintf) (remote_targets sys links sintf hosts)
unfolding remote_targets
remote_targets-IsTarget sys links sintf [] = tt
remote_targets-IsTarget sys links sintf (host ∷ hosts) =
    let rest = remote_targets-IsTarget sys links sintf hosts in
    elim (Bool-cases (
      is_some (lookup (link_info_for tcp_name sintf (sys.target_text (sys.resolve host))) links))) [
        | inl e ↦ rw (remote_targets, e) rest
        | inr e ↦
            rw (remote_targets, e)
              (resolved_target-IsTarget sintf (sys.resolve host)
                (remote_targets sys links sintf hosts) rest)
      ]

android_targets-IsTarget :
    (sys : System) (sintf : List ℕ) (hosts : List (List ℕ))
    → All (IsTarget sintf) (android_targets sys sintf hosts)
unfolding android_targets
android_targets-IsTarget sys sintf [] = tt
android_targets-IsTarget sys sintf (host ∷ hosts) =
    resolved_target-IsTarget sintf (sys.resolve host) (android_targets sys sintf hosts)
      (android_targets-IsTarget sys sintf hosts)

star_dialers-IsDialer :
    (dsts : List TcpAddr) → All (IsTarget []) dsts → All (IsDialer []) (star_dialers dsts)
unfolding star_dialers
star_dialers-IsDialer [] h = tt
star_dialers-IsDialer (dst ∷ dsts) h = ((h.0, inl (refl, refl)), star_dialers-IsDialer dsts h.1)

-- The search for a source gives only addresses that suit.
abbrev Finds : (List ℕ → TcpAddr → Option (List ℕ)) → Type 0
Finds source =
    (name : List ℕ) (dst : TcpAddr) (src : List ℕ)
    → source name dst ≡ some src
    → IsSource dst.ip src

module _ (source : List ℕ → TcpAddr → Option (List ℕ)) (finds : Finds source) (sintf : List ℕ)
    (named : sintf ≢ []) where
  dialers_to-IsDialer :
      (dst : TcpAddr) (names : List (List ℕ))
      → IsTarget sintf dst
      → All (IsDialer sintf) (dialers_to source dst names)
  unfolding dialers_to
  dialers_to-IsDialer dst [] h = tt
  dialers_to-IsDialer dst (name ∷ names) h = elim (Option-cases (source name dst)) [
    | inl e ↦ rw (dialers_to, e) (dialers_to-IsDialer dst names h)
    | inr (src, e) ↦
        rw (dialers_to, e) ((h, inr (named, finds name dst src e)), dialers_to-IsDialer dst names h)
  ]

  dialers_on-IsDialer :
      (names : List (List ℕ)) (dsts : List TcpAddr)
      → All (IsTarget sintf) dsts
      → All (IsDialer sintf) (dialers_on source names dsts)
  unfolding dialers_on
  dialers_on-IsDialer names [] h = tt
  dialers_on-IsDialer names (dst ∷ dsts) h =
      All-append (IsDialer sintf) (dialers_to source dst names) (dialers_on source names dsts)
        (dialers_to-IsDialer dst names h.0) (dialers_on-IsDialer names dsts h.1)

dialers_for-IsDialer :
    (source : List ℕ → TcpAddr → Option (List ℕ)) (sintf : List ℕ) (dsts : List TcpAddr)
    → Finds source
    → All (IsTarget sintf) dsts
    → All (IsDialer sintf) (dialers_for source sintf dsts)
unfolding dialers_for
dialers_for-IsDialer source [] dsts finds h = star_dialers-IsDialer dsts h
dialers_for-IsDialer source (c ∷ cs) dsts finds h =
    dialers_on-IsDialer source finds (c ∷ cs) (λ n. absurd (cc n)) (names_of (c ∷ cs)) dsts h

some_targets-IsDialer :
    (source : List ℕ → TcpAddr → Option (List ℕ)) (sintf : List ℕ) (dsts : List TcpAddr)
    (ds : List Dialer)
    → Finds source
    → All (IsTarget sintf) dsts
    → some_targets source sintf dsts ≡ dials ds
    → All (IsDialer sintf) ds
some_targets-IsDialer source sintf [] ds finds t h = absurd (cc h)
some_targets-IsDialer source sintf (dst ∷ dsts) ds finds t h =
    go (dialers_for source sintf (dst ∷ dsts))
      (dialers_for-IsDialer source sintf (dst ∷ dsts) finds t) h
  where
    go :
        (es : List Dialer)
        → All (IsDialer sintf) es
        → some_dialers es ≡ dials ds
        → All (IsDialer sintf) ds
    go [] a e = absurd (cc e)
    go (d ∷ es) a e = subst (λ x. All (IsDialer sintf) x) {x = d ∷ es} (cc e) a

source_on-IsSource :
    (dst : TcpAddr) (o : Option Interface) (src : List ℕ)
    → source_on dst o ≡ some src
    → IsSource dst.ip src
source_on-IsSource dst none src h = absurd (cc h)
source_on-IsSource dst (some i) src h = elim (Bool-cases i.up) [
  | inr e ↦ absurd (cc (rw e at h))
  | inl e ↦ elim (Option-cases i.addrs) [
    | inl f ↦ absurd (cc (rw (e, f) at h))
    | inr (addrs, f) ↦ pick_source-IsSource dst.ip addrs src (rw (e, f) at h)
  ]
]

if_suits-IsSource :
    (dst : TcpAddr) (o : Option (List ℕ)) (src : List ℕ)
    → if_suits dst o ≡ some src
    → IsSource dst.ip src
if_suits-IsSource dst none src h = absurd (cc h)
if_suits-IsSource dst (some s) src h = elim (Bool-cases (suits dst.ip s)) [
  | inr e ↦ absurd (cc (rw e at h))
  | inl e ↦
      let found : s ≡ src = cc (rw e at h) in
      subst (IsSource dst.ip) found (suits-IsSource dst.ip s e)
]

-- Whatever connFor dials for a multipath URL, on Android and elsewhere: a target that is link-local
-- has a zone, which is the text of the source interfaces; without source interfaces the dialling is
-- from any address; with them, it is from an address that suits the target by family and scope.
pub conn_for-IsDialer :
    (sys : System) (parse_addr : List ℕ → Option (List ℕ)) (links : List (LinkInfo × Option ℕ))
    (url sintf : List ℕ) (ds : List Dialer)
    → (conn_for sys links url sintf ≡ dials ds)
      ⊎ (conn_for_android sys parse_addr url sintf ≡ dials ds)
    → All (IsDialer sintf) ds
unfolding conn_for conn_for_android
conn_for-IsDialer sys parse_addr links url sintf ds h = elim (Option-cases (hosts_of url)) [
  | inl e ↦ elim h [
    | inl a ↦ absurd (cc (rw (conn_for, e) at a))
    | inr b ↦ absurd (cc (rw (conn_for_android, e) at b))
  ]
  | inr (hosts, e) ↦ elim h [
    | inl a ↦
        some_targets-IsDialer (λ name dst. source_on dst (sys.interface_by_name name)) sintf
          (remote_targets sys links sintf hosts) ds
          (λ name dst src f. source_on-IsSource dst (sys.interface_by_name name) src f)
          (remote_targets-IsTarget sys links sintf hosts) (rw (conn_for, e) at a)
    | inr b ↦
        some_targets-IsDialer (λ name dst. if_suits dst (parse_addr name)) sintf
          (android_targets sys sintf hosts) ds
          (λ name dst src f. if_suits-IsSource dst (parse_addr name) src f)
          (android_targets-IsTarget sys sintf hosts) (rw (conn_for_android, e) at b)
  ]
]
