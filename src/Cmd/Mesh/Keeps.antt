-- ===== src/Cmd/Mesh/Keeps.antt =====
-- Options that leave a part of the core's configuration as it is.
use v6space.Base.{ℕ, ◌≡◌, refl, sym, ap, ◌∙◌, some, List, [], ◌∷◌, ◌++◌, Option-cases, inl, inr}
use v6space.Core.Address.{hex_decode}
use v6space.Core.Peers.{
  Peer, SetupOption, peer_option, listen_address, allowed_public_key, Config, apply_option,
  apply_options,
}
use v6space.Rest.Peers.{interface_options, map_options}
use v6space.Cmd.Mesh.{listen_options, allowed_options}
use v6space.Cmd.Mesh.Options.{apply_options-append}

module _ {A : Type 0} (part : Config → A) where
  -- The options leave the part as it is.
  abbrev pub Keeps : List SetupOption → Type 0
  Keeps os = (c : Config) → part (apply_options os c) ≡ part c

  pub Keeps-append : (os ps : List SetupOption) → Keeps os → Keeps ps → Keeps (os ++ ps)
  Keeps-append os ps h k c = ap part (apply_options-append os ps c) ∙ k (apply_options os c) ∙ h c

  -- One option leaves it so.
  abbrev pub Kept : SetupOption → Type 0
  Kept o = (c : Config) → part (apply_option o c) ≡ part c

  cons-Keeps : (o : SetupOption) (os : List SetupOption) → Kept o → Keeps os → Keeps (o ∷ os)
  unfolding apply_options
  cons-Keeps o os h k c = k (apply_option o c) ∙ h c

  nil-Keeps : Keeps []
  unfolding apply_options
  nil-Keeps c = refl

  pub listen_options-Keeps :
      (addrs : List (List ℕ))
      → ((a : List ℕ) → Kept (listen_address a))
      → Keeps (listen_options addrs)
  unfolding listen_options
  listen_options-Keeps [] h = nil-Keeps
  listen_options-Keeps (a ∷ addrs) h =
      cons-Keeps (listen_address a) (listen_options addrs) (h a) (listen_options-Keeps addrs h)

  interface_options-Keeps :
      (intf : List ℕ) (us : List (List ℕ))
      → ((q : Peer) → Kept (peer_option q))
      → Keeps (interface_options intf us)
  unfolding interface_options
  interface_options-Keeps intf [] h = nil-Keeps
  interface_options-Keeps intf (u ∷ us) h =
      let q : Peer = record { uri = u; source_interface = intf } in
      cons-Keeps (peer_option q) (interface_options intf us) (h q)
        (interface_options-Keeps intf us h)

  map_options-Keeps :
      (m : List (List ℕ × List (List ℕ)))
      → ((q : Peer) → Kept (peer_option q))
      → Keeps (map_options m)
  unfolding map_options
  map_options-Keeps [] h = nil-Keeps
  map_options-Keeps ((intf, us) ∷ m) h =
      Keeps-append (interface_options intf us) (map_options m) (interface_options-Keeps intf us h)
        (map_options-Keeps m h)

  -- The options of the configured peers.
  pub peer_options-Keeps :
      (us : List (List ℕ)) (m : List (List ℕ × List (List ℕ)))
      → ((q : Peer) → Kept (peer_option q))
      → Keeps (interface_options [] us ++ map_options m)
  peer_options-Keeps us m h =
      Keeps-append (interface_options [] us) (map_options m) (interface_options-Keeps [] us h)
        (map_options-Keeps m h)

  pub allowed_options-Keeps :
      (texts : List (List ℕ)) (os : List SetupOption)
      → allowed_options texts ≡ some os
      → ((k : List ℕ) → Kept (allowed_public_key k))
      → Keeps os
  unfolding allowed_options
  allowed_options-Keeps [] os e h c =
      let found : [] ≡ os = cc e in ap (λ t. part (apply_options t c)) (sym found) ∙ nil-Keeps c
  allowed_options-Keeps (text ∷ texts) os e h c = elim (Option-cases (hex_decode text)) [
    | inl d ↦ absurd (cc (rw (allowed_options, d) at e))
    | inr (k, d) ↦ elim (Option-cases (allowed_options texts)) [
      | inl f ↦ absurd (cc (rw (allowed_options, d, f) at e))
      | inr (ps, f) ↦
          let found : allowed_public_key k ∷ ps ≡ os = cc (rw (allowed_options, d, f) at e) in
          ap (λ t. part (apply_options t c)) (sym found)
          ∙ cons-Keeps (allowed_public_key k) ps (h k) (allowed_options-Keeps texts ps f h) c
    ]
  ]
