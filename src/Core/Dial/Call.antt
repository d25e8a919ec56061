-- ===== src/Core/Dial/Call.antt =====
-- What links.call makes of a URL, and what its options then ask of the other node.
use v6space.Base.{
  ℕ, ◌≡◌, refl, sym, ap, ◌∙◌, ◌⊎◌, inl, inr, Option, none, some, List, [], ◌∷◌, replicate, lookup,
  Option-cases,
}
use mathlib.Core.Path.{subst}
use v6space.Core.Address.{copy_into, key_size, hex_decode}
use v6space.Core.Link.{LinkOptions, Link, Wire, handshake, accepted}
use v6space.Core.Link.Handshake.{HasMember, handshake_iff}
use v6space.Core.Dial.{
  Url, LinkInfo, info_Eq, link_info_for, scheme_of, Names, cons_key, pinned, priority_of, Dial,
  dialling, call_scheme, call_with, call, sni_for,
}

-- The key is the one that a text of the list gives: the bytes of its hexadecimal form, padded with
-- zeros or cut to 32 bytes.
abbrev pub IsPinned : List ℕ → List (List ℕ) → Type 0
IsPinned key [] = ⊥
IsPinned key (text ∷ texts) =
    ((raw : List ℕ) × (hex_decode text ≡ some raw) × (copy_into (replicate key_size 0) raw ≡ key))
    ⊎ IsPinned key texts

cons_key-some :
    (raw : List ℕ) (o : Option (List (List ℕ))) (keys : List (List ℕ))
    → cons_key raw o ≡ some keys
    → (rest : List (List ℕ)) × (o ≡ some rest)
      × (keys ≡ copy_into (replicate key_size 0) raw ∷ rest)
cons_key-some raw none keys h = absurd (cc h)
cons_key-some raw (some rest) keys h = (rest, refl, cc h)

pinned-IsPinned :
    (texts keys : List (List ℕ)) (key : List ℕ)
    → pinned texts ≡ some keys
    → HasMember key keys
    → IsPinned key texts
unfolding pinned
pinned-IsPinned [] [] key h m = m
pinned-IsPinned [] (k ∷ keys) key h m = absurd (cc h)
pinned-IsPinned (text ∷ texts) keys key h m = elim (Option-cases (hex_decode text)) [
  | inl e ↦ absurd (cc (rw (pinned, e) at h))
  | inr (raw, e) ↦
      let (rest, more, shape) = cons_key-some raw (pinned texts) keys (rw (pinned, e) at h) in
      elim (subst (HasMember key) shape m) [
        | inl here ↦ inl (raw, e, here)
        | inr later ↦ inr (pinned-IsPinned texts rest key more later)
      ]
]

pinned-nil : (texts : List (List ℕ)) → pinned texts ≡ some [] → texts ≡ []
unfolding pinned
pinned-nil [] h = refl
pinned-nil (text ∷ texts) h = elim (Option-cases (hex_decode text)) [
  | inl e ↦ absurd (cc (rw (pinned, e) at h))
  | inr (raw, e) ↦
      let (rest, more, shape) = cons_key-some raw (pinned texts) [] (rw (pinned, e) at h) in
      absurd (cc shape)
]

call_scheme-dialling :
    (names : Names) (u : Url) (sintf : List ℕ) (options : LinkOptions) (d : Dial)
    → call_scheme names u sintf options ≡ dialling d
    → (options ≡ d.options) × (scheme_of u.scheme ≡ some d.kind) × (d.url ≡ u)
unfolding call_scheme
call_scheme-dialling names u sintf options d h = elim (Option-cases (scheme_of u.scheme)) [
  | inl e ↦ absurd (cc (rw (call_scheme, e) at h))
  | inr (k, e) ↦
      let made : record {
        kind = k;
        url = u;
        options = options;
        sintf = sintf;
        sni = sni_for k names u;
      }
          ≡ d =
        cc (rw (call_scheme, e) at h) in
      (ap (λ x. x.options) made, e ∙ ap (λ x. some x.kind) made, sym (ap (λ x. x.url) made))
]

call_with-dialling :
    (names : Names) (u : Url) (sintf : List ℕ) (keys : Option (List (List ℕ))) (priority : Option ℕ)
    (d : Dial)
    → call_with names u sintf keys priority ≡ dialling d
    → (keys ≡ some d.options.pinned_keys)
      × (priority ≡ some d.options.priority)
      × (scheme_of u.scheme ≡ some d.kind)
      × (d.url ≡ u)
unfolding call_with
call_with-dialling names u sintf none priority d h = absurd (cc h)
call_with-dialling names u sintf (some keys) none d h = absurd (cc h)
call_with-dialling names u sintf (some keys) (some p) d h =
    let (o, k, same) = call_scheme-dialling names u sintf _ d h in
    (ap (λ x. some x.pinned_keys) o, ap (λ x. some x.priority) o, k, same)

-- What a call that starts to dial has found and chosen.
pub call-dialling :
    (names : Names) (links : List (LinkInfo × Option ℕ)) (u : Url) (sintf : List ℕ) (d : Dial)
    → (call names links u sintf).1 ≡ dialling d
    → (lookup (link_info_for u.scheme sintf u.host) links ≡ none)
      × (pinned u.keys ≡ some d.options.pinned_keys)
      × (priority_of u ≡ some d.options.priority)
      × (scheme_of u.scheme ≡ some d.kind)
      × (d.url ≡ u)
unfolding call
call-dialling names links u sintf d h =
    elim (Option-cases (lookup (link_info_for u.scheme sintf u.host) links)) [
      | inr (v, e) ↦ absurd (cc (rw (call, e) at h))
      | inl e ↦
          let (keys, priority, kind, same) =
            call_with-dialling names u sintf (pinned u.keys) (priority_of u) d
              (rw (call, e) at h) in
          (e, keys, priority, kind, same)
    ]

-- A call with a URL that names keys, the link that it dials, and the handshake on it with the call's
-- options: the node that is let in has a key that the URL names, if it names any. The key is
-- compared after padding with zeros or cutting it to 32 bytes.
pub handshake-call :
    (names : Names) (links : List (LinkInfo × Option ℕ)) (u : Url) (sintf : List ℕ) (d : Dial)
    (allowed : List (List ℕ)) (l : Link) (w : Wire) (key : List ℕ)
    → (call names links u sintf).1 ≡ dialling d
    → l.options ≡ d.options
    → handshake allowed l w ≡ accepted key
    → (u.keys ≡ []) ⊎ IsPinned key u.keys
handshake-call names links u sintf d allowed l w key c o h =
    let (fresh, keys, priority, kind, url) = call-dialling names links u sintf d c in
    let same : d.options.pinned_keys ≡ l.options.pinned_keys = sym (ap (λ x. x.pinned_keys) o) in
    let ours : pinned u.keys ≡ some l.options.pinned_keys = keys ∙ ap some same in
    elim ((handshake_iff allowed l w key).0 h).1.0 [
      | inl empty ↦ inl (pinned-nil u.keys (ours ∙ ap some empty))
      | inr member ↦ inr (pinned-IsPinned u.keys l.options.pinned_keys key ours member)
    ]
