-- ===== src/Rest/Peers/Options.antt =====
-- Which peers a saved configuration holds.
use v6space.Base.{
  ℕ, ◌≡◌, refl, sym, ap, ◌∙◌, inl, inr, Bool, true, false, ◌||◌, List, [], ◌∷◌, ◌++◌, map, bytes_eq,
  bytes_eq_iff, bytes_Eq, lookup, insert, Bool-cases,
}
use v6space.Core.Dial.Transport.{is_empty_text}
use v6space.Core.Peers.{
  Peer, peer_eq, SetupOption, peer_option, listen_address, node_info, node_info_privacy,
  network_domain, allowed_public_key,
}
use v6space.Rest.Peers.{
  Entry, peer_of, Saved, urls_or_empty, add_entry, add_entries, set_peers, interface_options,
  map_options, saved_options,
}

-- Whether the list has the peer.
abbrev pub is_listed : Peer → List Peer → Bool
is_listed q [] = false
is_listed q (p ∷ ps) = peer_eq p q || is_listed q ps

abbrev pub is_option : Peer → List SetupOption → Bool
is_option q [] = false
is_option q (peer_option p ∷ os) = peer_eq p q || is_option q os
is_option q (listen_address a ∷ os) = is_option q os
is_option q (node_info n ∷ os) = is_option q os
is_option q (node_info_privacy b ∷ os) = is_option q os
is_option q (network_domain d ∷ os) = is_option q os
is_option q (allowed_public_key k ∷ os) = is_option q os

pub or_assoc : (a b c : Bool) → ((a || b) || c) ≡ (a || (b || c))
or_assoc true b c = refl
or_assoc false b c = refl

pub or_swap : (a b c : Bool) → (a || (b || c)) ≡ (b || (a || c))
or_swap true true c = refl
or_swap true false c = refl
or_swap false b c = refl

pub is_option-append :
    (q : Peer) (os ps : List SetupOption)
    → is_option q (os ++ ps) ≡ (is_option q os || is_option q ps)
is_option-append q [] ps = refl
is_option-append q (peer_option p ∷ os) ps =
    rw (is_option-append q os ps) (sym (or_assoc (peer_eq p q) (is_option q os) (is_option q ps)))
is_option-append q (listen_address a ∷ os) ps = is_option-append q os ps
is_option-append q (node_info n ∷ os) ps = is_option-append q os ps
is_option-append q (node_info_privacy b ∷ os) ps = is_option-append q os ps
is_option-append q (network_domain d ∷ os) ps = is_option-append q os ps
is_option-append q (allowed_public_key k ∷ os) ps = is_option-append q os ps

abbrev peer_at : List ℕ → List ℕ → Peer
peer_at u intf = record { uri = u; source_interface = intf }

interface_options-append :
    (q : Peer) (intf u : List ℕ) (us : List (List ℕ))
    → is_option q (interface_options intf (us ++ u ∷ []))
      ≡ (peer_eq (peer_at u intf) q || is_option q (interface_options intf us))
unfolding interface_options
interface_options-append q intf u [] = refl
interface_options-append q intf u (x ∷ us) = rw (interface_options-append q intf u us) (
    or_swap (peer_eq (peer_at x intf) q) (peer_eq (peer_at u intf) q)
      (is_option q (interface_options intf us)))

map_options-insert :
    (q : Peer) (intf u : List ℕ) (m : List (List ℕ × List (List ℕ)))
    → is_option q (map_options (insert intf (urls_or_empty (lookup intf m) ++ u ∷ []) m))
      ≡ (peer_eq (peer_at u intf) q || is_option q (map_options m))
unfolding map_options insert lookup interface_options
map_options-insert q intf u [] = refl
map_options-insert q intf u ((j, us) ∷ m) = elim (Bool-cases (bytes_eq j intf)) [
  | inl e ↦
      let same : intf ≡ j = sym ((bytes_eq_iff j intf).0 e) in
      rw (map_options, insert, lookup, e)
        (is_option-append q (interface_options intf (us ++ u ∷ [])) (map_options m)
          ∙ ap (λ b. b || is_option q (map_options m)) (interface_options-append q intf u us)
          ∙ or_assoc (peer_eq (peer_at u intf) q) (is_option q (interface_options intf us))
              (is_option q (map_options m))
          ∙ ap (λ b. peer_eq (peer_at u intf) q || b)
              (sym (is_option-append q (interface_options intf us) (map_options m))
                ∙ ap (λ k. is_option q (interface_options k us ++ map_options m)) same))
  | inr e ↦
      let urls = urls_or_empty (lookup intf m) ++ u ∷ [] in
      let look : lookup intf ((j, us) ∷ m) ≡ lookup intf m = rw (lookup, e) refl in
      let put : insert intf urls ((j, us) ∷ m) ≡ (j, us) ∷ insert intf urls m =
        rw (insert, e) refl in
      ap (λ o. is_option q (map_options (insert intf (urls_or_empty o ++ u ∷ []) ((j, us) ∷ m))))
        look
      ∙ ap (λ t. is_option q (map_options t)) put
      ∙ (is_option-append q (interface_options j us) (map_options (insert intf urls m))
          ∙ ap (λ b. is_option q (interface_options j us) || b) (map_options-insert q intf u m)
          ∙ or_swap (is_option q (interface_options j us)) (peer_eq (peer_at u intf) q)
              (is_option q (map_options m))
          ∙ ap (λ b. peer_eq (peer_at u intf) q || b)
              (sym (is_option-append q (interface_options j us) (map_options m))))
]

empty_text : (t : List ℕ) → is_empty_text t ≡ true → [] ≡ t
empty_text [] e = refl
empty_text (c ∷ cs) e = absurd (cc e)

saved_options-add_entry :
    (q p : Peer) (cfg : Saved)
    → is_option q (saved_options (add_entry p cfg))
      ≡ (peer_eq p q || is_option q (saved_options cfg))
unfolding add_entry
saved_options-add_entry q p cfg = elim (Bool-cases (is_empty_text p.source_interface)) [
  | inl e ↦
      rw (add_entry, e)
        (is_option-append q (interface_options [] (cfg.peers ++ p.uri ∷ []))
            (map_options cfg.interface_peers)
          ∙ ap (λ b. b || is_option q (map_options cfg.interface_peers))
              (interface_options-append q [] p.uri cfg.peers)
          ∙ ap
              (λ t.
                (peer_eq (peer_at p.uri t) q || is_option q (interface_options [] cfg.peers))
                || is_option q (map_options cfg.interface_peers))
              (empty_text p.source_interface e)
          ∙ or_assoc (peer_eq p q) (is_option q (interface_options [] cfg.peers))
              (is_option q (map_options cfg.interface_peers))
          ∙ ap (λ b. peer_eq p q || b)
              (sym (
                is_option-append q (interface_options [] cfg.peers)
                  (map_options cfg.interface_peers))))
  | inr e ↦
      let m = cfg.interface_peers in
      let added =
        insert p.source_interface (urls_or_empty (lookup p.source_interface m) ++ p.uri ∷ []) m in
      rw (add_entry, e)
        (is_option-append q (interface_options [] cfg.peers) (map_options added)
          ∙ ap (λ b. is_option q (interface_options [] cfg.peers) || b)
              (map_options-insert q p.source_interface p.uri m)
          ∙ or_swap (is_option q (interface_options [] cfg.peers)) (peer_eq p q)
              (is_option q (map_options m))
          ∙ ap (λ b. peer_eq p q || b)
              (sym (is_option-append q (interface_options [] cfg.peers) (map_options m))))
]

saved_options-add_entries :
    (q : Peer) (ps : List Peer) (cfg : Saved)
    → is_option q (saved_options (add_entries ps cfg))
      ≡ (is_listed q ps || is_option q (saved_options cfg))
unfolding add_entries
saved_options-add_entries q [] cfg = refl
saved_options-add_entries q (p ∷ ps) cfg =
    saved_options-add_entries q ps (add_entry p cfg)
    ∙ ap (λ b. is_listed q ps || b) (saved_options-add_entry q p cfg)
    ∙ or_swap (is_listed q ps) (peer_eq p q) (is_option q (saved_options cfg))
    ∙ sym (or_assoc (peer_eq p q) (is_listed q ps) (is_option q (saved_options cfg)))

pub or_false : (b : Bool) → (b || false) ≡ b
or_false true = refl
or_false false = refl

-- The options that the start of the program makes of a saved configuration have exactly the peers
-- of the request that was saved, whatever the file held before.
pub saved_options-set_peers :
    (q : Peer) (es : List Entry) (cfg : Saved)
    → is_option q (saved_options (set_peers es cfg)) ≡ is_listed q (map peer_of es)
unfolding set_peers interface_options map_options
saved_options-set_peers q es cfg =
    saved_options-add_entries q (map peer_of es) (record cfg { peers = []; interface_peers = [] })
    ∙ or_false (is_listed q (map peer_of es))
