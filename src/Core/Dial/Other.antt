-- ===== src/Core/Dial/Other.antt =====
-- src/core/link_other.go: links.call of the systems besides Linux, which have no sctp links.
use v6space.Base.{
  ℕ, ◌≡◌, ◌⊎◌, inl, inr, refl, ap, Option, none, some, List, bytes_eq, bytes_eq_iff, if◌then◌else◌,
  lookup, Bool-cases, Option-cases,
}
use v6space.Core.Link.{LinkOptions}
use v6space.Core.Dial.{
  Url, LinkInfo, info_Eq, link_info_for, Dial, Scheme, tcp, socks, tls, unix, sctp, mpath, tcp_name,
  socks_name, tls_name, unix_name, sctp_name, mpath_name, Names, sni_for, scheme_of, pinned,
  priority_of, Called, connected, invalid_key, invalid_priority, unknown_scheme, dialling, call,
  call_with, call_scheme,
}

-- The switch on the link's type.
unfoldable pub other_scheme_of : List ℕ → Option Scheme
other_scheme_of name =
    if bytes_eq name tcp_name
    then some tcp
    else if bytes_eq name socks_name
    then some socks
    else if bytes_eq name tls_name
    then some tls
    else if bytes_eq name unix_name
    then some unix
    else if bytes_eq name mpath_name
    then some mpath
    else none

abbrev pub dial_for : Names → Url → List ℕ → LinkOptions → Scheme → Dial
dial_for names u sintf options kind = record {
  kind = kind;
  url = u;
  options = options;
  sintf = sintf;
  sni = sni_for kind names u;
}

unfoldable pub other_call_scheme : Names → Url → List ℕ → LinkOptions → Called
other_call_scheme names u sintf options = elim (other_scheme_of u.scheme) [
  | none ↦ unknown_scheme
  | some kind ↦ dialling (dial_for names u sintf options kind)
]

abbrev pub other_call_with : Names → Url → List ℕ → Option (List (List ℕ)) → Option ℕ → Called
other_call_with names u sintf none priority = invalid_key
other_call_with names u sintf (some keys) none = invalid_priority
other_call_with names u sintf (some keys) (some priority) =
    other_call_scheme names u sintf (record { pinned_keys = keys; priority = priority })

-- links.call.
abbrev pub unless_linked : LinkInfo → Called → Option (Option ℕ) → LinkInfo × Called
unless_linked info called (some v) = (info, connected)
unless_linked info called none = (info, called)

unfoldable pub other_call : Names → List (LinkInfo × Option ℕ) → Url → List ℕ → LinkInfo × Called
other_call names links u sintf =
    let info = link_info_for u.scheme sintf u.host in
    unless_linked info (other_call_with names u sintf (pinned u.keys) (priority_of u))
      (lookup info links)

-- The two switches differ on "sctp" alone.
other_scheme_of_cases :
    (name : List ℕ)
    → (other_scheme_of name ≡ scheme_of name)
      ⊎ ((scheme_of name ≡ some sctp) × (other_scheme_of name ≡ none))
unfolding other_scheme_of scheme_of bytes_eq
other_scheme_of_cases name = elim (Bool-cases (bytes_eq name sctp_name)) [
  | inl e ↦
      let same = (bytes_eq_iff name sctp_name).0 e in
      inr (ap scheme_of same, ap other_scheme_of same)
  | inr e ↦ inl (rw (other_scheme_of, scheme_of, e) refl)
]

-- Equal, but for sctp.
abbrev Agrees : Called → Called → Type 0
Agrees other linux =
    (other ≡ linux)
    ⊎ ((d : Dial) × (d.kind ≡ sctp) × (linux ≡ dialling d) × (other ≡ unknown_scheme))

scheme-Agrees :
    (names : Names) (u : Url) (sintf : List ℕ) (options : LinkOptions)
    → Agrees (other_call_scheme names u sintf options) (call_scheme names u sintf options)
unfolding other_call_scheme call_scheme
scheme-Agrees names u sintf options = elim (other_scheme_of_cases u.scheme) [
  | inl e ↦ inl (rw (other_call_scheme, call_scheme, e) refl)
  | inr (s, o) ↦ inr (
    dial_for names u sintf options sctp,
    refl,
    rw (call_scheme, s) refl,
    rw (other_call_scheme, o) refl,
  )
]

with-Agrees :
    (names : Names) (u : Url) (sintf : List ℕ) (keys : Option (List (List ℕ))) (priority : Option ℕ)
    → Agrees (other_call_with names u sintf keys priority) (call_with names u sintf keys priority)
unfolding call_with
with-Agrees names u sintf none priority = inl refl
with-Agrees names u sintf (some keys) none = inl refl
with-Agrees names u sintf (some keys) (some priority) =
    scheme-Agrees names u sintf (record { pinned_keys = keys; priority = priority })

-- links.call comes to the same on Linux and elsewhere, for every URL, but that an sctp link, which
-- is dialled on Linux, is an unknown scheme elsewhere.
pub other_call-call :
    (names : Names) (links : List (LinkInfo × Option ℕ)) (u : Url) (sintf : List ℕ)
    → ((other_call names links u sintf).0 ≡ (call names links u sintf).0)
      × (((other_call names links u sintf).1 ≡ (call names links u sintf).1)
          ⊎ ((d : Dial) × (d.kind ≡ sctp)
              × ((call names links u sintf).1 ≡ dialling d)
              × ((other_call names links u sintf).1 ≡ unknown_scheme)))
unfolding other_call call
other_call-call names links u sintf =
    elim (Option-cases (lookup (link_info_for u.scheme sintf u.host) links)) [
      | inl e ↦
          rw (other_call, call, e) (refl, with-Agrees names u sintf (pinned u.keys) (priority_of u))
      | inr (v, e) ↦ rw (other_call, call, e) (refl, inl refl)
    ]
