-- ===== src/Rest/Peers/Restart.antt =====
-- The requests that change the peers, against the node's peers now and after a restart.
use v6space.Base.{
  ℕ, ◌≡◌, refl, sym, ap, ◌∙◌, ◌⊎◌, inl, inr, Bool, true, false, ◌||◌, Option, none, some, List, [],
  ◌∷◌, ◌&&◌, map, lookup, insert, arith, Bool-cases,
}
use v6space.Core.Net.{is_some}
use v6space.Core.Dial.{Names}
use v6space.Core.Peers.{
  Peer, peer_eq, peer_Eq, SetupOption, peer_option, listen_address, node_info, node_info_privacy,
  network_domain, allowed_public_key, Config, apply_option, apply_options, no_config, Node, Parse,
  remove_peers,
}
use v6space.Core.Peers.Known.{is_known, is_known_after, is_known-insert, peers_refine}
use v6space.Rest.Peers.{
  Entry, Body, Control, put_rest, Saved, Saver, says_true, set_peers, save_peers, peer_of,
  saved_options, do_post_peers, put_peers,
}
use v6space.Rest.Peers.Options.{
  is_listed, is_option, or_assoc, or_swap, or_false, saved_options-set_peers,
}
use v6space.Rest.Peers.Posting.{do_post_peers-is_known, IsSaved, save_peers-IsSaved}

abbrev pub is_configured : Config → Peer → Bool
is_configured c q = is_some (lookup q c.peers)

pub apply_options-peers :
    (q : Peer) (os : List SetupOption) (c : Config)
    → is_configured (apply_options os c) q ≡ (is_option q os || is_configured c q)
unfolding apply_options apply_option
apply_options-peers q [] c = refl
apply_options-peers q (peer_option p ∷ os) c =
    apply_options-peers q os (record c { peers = insert p none c.peers })
    ∙ ap (λ b. is_option q os || b) (is_known-insert p q none c.peers)
    ∙ or_swap (is_option q os) (peer_eq p q) (is_configured c q)
    ∙ sym (or_assoc (peer_eq p q) (is_option q os) (is_configured c q))
apply_options-peers q (listen_address a ∷ os) c =
    apply_options-peers q os (apply_option (listen_address a) c)
apply_options-peers q (node_info n ∷ os) c = apply_options-peers q os (apply_option (node_info n) c)
apply_options-peers q (node_info_privacy b ∷ os) c =
    apply_options-peers q os (apply_option (node_info_privacy b) c)
apply_options-peers q (network_domain d ∷ os) c =
    apply_options-peers q os (apply_option (network_domain d) c)
apply_options-peers q (allowed_public_key k ∷ os) c =
    apply_options-peers q os (apply_option (allowed_public_key k) c)

abbrev number : Option ℕ → ℕ
number none = 0
number (some n) = n

some_inj {ℓ} : {A : Type ℓ} {a b : A} → some a ≡ some b → a ≡ b
some_inj h = cc h

put_rest-ok :
    (names : Names) (parse : Parse) (s : Saver) (body : Body) (file : Option Saved)
    (o : Option Node) (q : Peer) (c : Control)
    → is_known_after o q ≡ false
    → put_rest names parse s body file o ≡ some c
    → c.status ≡ some 204
    → (is_known c.node q ≡ is_listed q (map peer_of body.entries))
      × (c.file ≡ save_peers s body.entries file)
put_rest-ok names parse s body file none q c gone h ok = absurd (cc h)
put_rest-ok names parse s body file (some node) q c gone h ok =
    elim (Bool-cases (do_post_peers names parse body node).failed) [
      | inl e ↦
          let odd : some 400 ≡ c.status = ap (λ x. x.status) (some_inj (rw e at h)) in
          absurd (omega (arith, ap number (odd ∙ ok)))
      | inr e ↦
          let made = some_inj (rw e at h) in
          (
            sym (ap (λ x. is_known x.node q) made)
                ∙ do_post_peers-is_known names parse q body node e
                ∙ ap (λ b. is_listed q (map peer_of body.entries) || b) gone
                ∙ or_false (is_listed q (map peer_of body.entries)),
            sym (ap (λ x. x.file) made),
          )
    ]

-- A node that starts with the saved file has the peers of the request.
saved-is_configured :
    (es : List Entry) (cfg : Saved) (q : Peer)
    → is_configured (apply_options (saved_options (set_peers es cfg)) no_config) q
      ≡ is_listed q (map peer_of es)
unfolding lookup
saved-is_configured es cfg q =
    apply_options-peers q (saved_options (set_peers es cfg)) no_config
    ∙ or_false (is_option q (saved_options (set_peers es cfg)))
    ∙ saved_options-set_peers q es cfg

-- After a PUT of peers that the program survives and that ends with status 204, where no other call
-- comes in between, the node's peers are exactly those of the request, whenever the closures of
-- RemovePeers run. Moreover either the header does not ask for saving, no file is named or it cannot
-- be written, and the file is as it was; or the file does not read; or it is saved, and a node that
-- starts with it has exactly the node's peers.
pub put_peers-restart :
    (names : Names) (parse : Parse) (s : Saver) (body : Body) (delay : Peer → ℕ) (node : Node)
    (file : Option Saved) (q : Peer) (c : Control)
    → put_peers names parse s body delay node file ≡ some c
    → c.status ≡ some 204
    → (is_known c.node q ≡ is_listed q (map peer_of body.entries))
      × ((((s.has_file && says_true s.headers && s.writable) ≡ false) × (c.file ≡ file))
          ⊎ ((file ≡ none) × (c.file ≡ none))
          ⊎ (((s.has_file && says_true s.headers && s.writable) ≡ true)
              × ((saved : Saved) × (c.file ≡ some saved)
                  × (is_configured (apply_options (saved_options saved) no_config) q
                      ≡ is_known c.node q))))
unfolding put_peers
put_peers-restart names parse s body delay node file q c h ok =
    let gone = (peers_refine names parse q q delay node node node).3 in
    let (now, written) =
      put_rest-ok names parse s body file (remove_peers delay node) q c gone h ok in
    (now, kept file (save_peers-IsSaved s body.entries file) now written)
  where
    kept :
        (old : Option Saved)
        → IsSaved s body.entries old (save_peers s body.entries old)
        → is_known c.node q ≡ is_listed q (map peer_of body.entries)
        → c.file ≡ save_peers s body.entries old
        → (((s.has_file && says_true s.headers && s.writable) ≡ false) × (c.file ≡ old))
          ⊎ ((old ≡ none) × (c.file ≡ none))
          ⊎ (((s.has_file && says_true s.headers && s.writable) ≡ true)
              × ((saved : Saved) × (c.file ≡ some saved)
                  × (is_configured (apply_options (saved_options saved) no_config) q
                      ≡ is_known c.node q)))
    kept old (inr (off, same)) now written = inl (off, written ∙ same)
    kept none (inl (on, same)) now written = inr (inl (refl, written ∙ same))
    kept (some cfg) (inl (on, same)) now written = inr (
        inr (
          on,
          (
            set_peers body.entries cfg,
            written ∙ same,
            saved-is_configured body.entries cfg q ∙ sym now,
          ),
        ))
