-- ===== src/Core/Dial/Source.antt =====
-- The source address and the zone that dialerFor chooses.
use v6space.Base.{
  ℕ, ◌≡◌, ◌≢◌, refl, sym, ap, ◌∙◌, ◌⊎◌, inl, inr, true, false, Option, none, some, List, [], ◌∷◌,
  arith, Bool-cases, Option-cases,
}
use v6space.Core.Net.{to4, is_some, is_link_local, is_global}
use v6space.Core.Dial.Transport.{
  TcpAddr, Interface, dialer, find_interface, suits, pick_source, is_empty_text, from_addrs,
  from_interface, dialer_on, dialer_for,
}

-- A source address of the destination's family, link-local where the destination is, and global
-- where that is.
pub record IsSource (dst src : List ℕ) : Type 0 where
  pub family : is_some (to4 src) ≡ is_some (to4 dst)
  pub scope :
      (is_link_local src ≡ is_link_local dst)
      ⊎ ((is_link_local dst ≡ false) × (is_global dst ≡ false))
  pub usable : (is_global src ≡ true) ⊎ (is_link_local src ≡ true)

global-link_local : (ip : List ℕ) → (is_global ip ≡ false) ⊎ (is_link_local ip ≡ false)
unfolding is_global
global-link_local ip = ground arith

pub suits-IsSource : (dst src : List ℕ) → suits dst src ≡ true → IsSource dst src
unfolding suits
suits-IsSource dst src h = record {
  family = ground (arith, h);
  scope = ground (arith, h, global-link_local dst, global-link_local src);
  usable = ground (arith, h);
}

pub pick_source-IsSource :
    (dst : List ℕ) (addrs : List (Option (List ℕ))) (src : List ℕ)
    → pick_source dst addrs ≡ some src
    → IsSource dst src
unfolding pick_source
pick_source-IsSource dst [] src h = absurd (cc h)
pick_source-IsSource dst (none ∷ addrs) src h = pick_source-IsSource dst addrs src h
pick_source-IsSource dst (some s ∷ addrs) src h = elim (Bool-cases (suits dst s)) [
  | inl e ↦ let found : s ≡ src = cc (rw e at h) in rw (← found) (suits-IsSource dst s e)
  | inr e ↦ pick_source-IsSource dst addrs src (rw e at h)
]

abbrev Sourced : TcpAddr → TcpAddr → Option (List ℕ) → Type 0
Sourced dst dst' src = (dst' ≡ dst) × ((s : List ℕ) × (src ≡ some s) × IsSource dst.ip s)

from_addrs-IsSource :
    (dst dst' : TcpAddr) (addrs : Option (List (Option (List ℕ)))) (src : Option (List ℕ))
    → from_addrs dst addrs ≡ dialer dst' src
    → Sourced dst dst' src
unfolding from_addrs
from_addrs-IsSource dst dst' none src h = absurd (cc h)
from_addrs-IsSource dst dst' (some addrs) src h = elim (Option-cases (pick_source dst.ip addrs)) [
  | inl e ↦ absurd (cc (rw e at h))
  | inr (s, e) ↦
      let found : dialer dst (some s) ≡ dialer dst' src = rw e at h in
      (cc found, (s, cc found, pick_source-IsSource dst.ip addrs s e))
]

dialer_on-IsSource :
    (interfaces : Option (List Interface)) (sintf : List ℕ) (dst dst' : TcpAddr)
    (src : Option (List ℕ))
    → dialer_on interfaces sintf dst ≡ dialer dst' src
    → Sourced dst dst' src
unfolding dialer_on from_interface
dialer_on-IsSource none sintf dst dst' src h = absurd (cc h)
dialer_on-IsSource (some is) sintf dst dst' src h = elim (Option-cases (find_interface sintf is)) [
  | inl e ↦ absurd (cc (rw e at h))
  | inr (i, e) ↦ elim (Bool-cases i.up) [
    | inl up ↦ from_addrs-IsSource dst dst' i.addrs src (rw (e, up) at h)
    | inr down ↦ absurd (cc (rw (e, down) at h))
  ]
]

nonempty : (z : List ℕ) → is_empty_text z ≡ false → z ≢ []
nonempty [] e n = absurd (cc e)
nonempty (c ∷ cs) e n = absurd (cc n)

-- Where dialerFor gives a dialer: the destination's address and port are kept; a link-local
-- destination has a zone, which is the source interface where one is given; without a source
-- interface no source address is set; and with one, the source address has the destination's
-- family, is link-local exactly as the destination is, or else the destination is neither
-- link-local nor global, and is itself link-local or global.
pub dialer_for-IsSource :
    (interfaces : Option (List Interface)) (dst dst' : TcpAddr) (sintf : List ℕ)
    (src : Option (List ℕ))
    → dialer_for interfaces dst sintf ≡ dialer dst' src
    → (dst'.ip ≡ dst.ip)
      × (dst'.port ≡ dst.port)
      × ((is_link_local dst.ip ≡ false) ⊎ (dst'.zone ≢ []))
      × ((is_link_local dst.ip ≡ false) ⊎ (sintf ≡ []) ⊎ (dst'.zone ≡ sintf))
      × (((sintf ≡ []) × (src ≡ none))
          ⊎ ((s : List ℕ) × (sintf ≢ []) × (src ≡ some s) × IsSource dst.ip s))
unfolding dialer_for
dialer_for-IsSource is dst dst' [] src h = elim (Bool-cases (is_link_local dst.ip)) [
  | inl e ↦ elim (Bool-cases (is_empty_text dst.zone)) [
    | inl z ↦ absurd (cc (rw (e, z) at h))
    | inr z ↦
        let found : dialer dst none ≡ dialer dst' src = rw (e, z) at h in
        let kept : dst'.zone ≡ dst.zone = cc found in
        (
          cc found,
          cc found,
          inr (λ n. nonempty dst.zone z (sym kept ∙ n)),
          inr (inl refl),
          inl (refl, cc found),
        )
  ]
  | inr e ↦
      let found : dialer dst none ≡ dialer dst' src = rw e at h in
      (cc found, cc found, inl e, inl e, inl (refl, cc found))
]
dialer_for-IsSource is dst dst' (c ∷ cs) src h = elim (Bool-cases (is_link_local dst.ip)) [
  | inl e ↦
      let (kept, (s, found, good)) =
        dialer_on-IsSource is (c ∷ cs) (record dst { zone = c ∷ cs }) dst' src (rw e at h) in
      (
        ap (λ t. t.ip) kept,
        ap (λ t. t.port) kept,
        inr (λ n. absurd (cc (ap (λ t. t.zone) kept, n))),
        inr (inr (ap (λ t. t.zone) kept)),
        inr (s, (λ n. absurd (cc n)), found, good),
      )
  | inr e ↦
      let (kept, (s, found, good)) = dialer_on-IsSource is (c ∷ cs) dst dst' src (rw e at h) in
      (
        ap (λ t. t.ip) kept,
        ap (λ t. t.port) kept,
        inl e,
        inl e,
        inr (s, (λ n. absurd (cc n)), found, good),
      )
]
