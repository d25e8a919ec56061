-- ===== src/Rest/Peers/Posting.antt =====
-- A request that adds peers, on every outcome.
use v6space.Base.{
  ◌≡◌, refl, sym, ap, ◌∙◌, ◌⊎◌, inl, inr, Bool, true, false, ◌||◌, Option, none, some, List, [],
  ◌∷◌, ◌++◌, ◌&&◌, Option-cases, map, if◌then◌else◌, lookup, Bool-cases,
}
use mathlib.Core.Path.{subst}
use v6space.Core.Dial.{
  LinkInfo, Names, Called, connected, invalid_key, invalid_priority, unknown_scheme, dialling, Dial,
  call,
}
use v6space.Core.Peers.{
  Peer, peer_eq, peer_Eq, Node, Parse, PeerError, remember, add_peer_in, add_peer,
}
use v6space.Core.Peers.Known.{is_known, succeeds, add_peer-is_known}
use v6space.Rest.Peers.{
  Entry, Body, Control, change, Saved, Saver, says_true, save_config, set_peers, save_peers,
  peer_of, Posted, post_next, post_loop, do_post_peers, post_peers,
}
use v6space.Rest.Peers.Options.{is_listed, or_assoc, or_swap}

post_next-ok :
    (again : Node → Posted) (node : Node) (ds : List Dial) (e : Option PeerError)
    → (post_next again node ds e).failed ≡ false
    → (succeeds e ≡ true)
      × ((again node).failed ≡ false)
      × ((post_next again node ds e).node ≡ (again node).node)
unfolding post_next
post_next-ok again node ds none h = (refl, h, refl)
post_next-ok again node ds (some e) h = absurd (cc h)

post_loop-is_known :
    (names : Names) (parse : Parse) (q : Peer) (ps : List Peer) (node : Node)
    → (post_loop names parse ps node).failed ≡ false
    → is_known (post_loop names parse ps node).node q ≡ (is_listed q ps || is_known node q)
unfolding post_loop
post_loop-is_known names parse q [] node h = refl
post_loop-is_known names parse q (p ∷ ps) node h =
    let r = add_peer names parse p node in
    let (good, more, same) = post_next-ok (post_loop names parse ps) r.node r.dials r.error h in
    ap (λ n. is_known n q) same
    ∙ post_loop-is_known names parse q ps r.node more
    ∙ ap (λ b. is_listed q ps || b)
        (add_peer-is_known names parse p q node
          ∙ ap (λ b. if b then peer_eq p q || is_known node q else is_known node q) good)
    ∙ or_swap (is_listed q ps) (peer_eq p q) (is_known node q)
    ∙ sym (or_assoc (peer_eq p q) (is_listed q ps) (is_known node q))

pub do_post_peers-is_known :
    (names : Names) (parse : Parse) (q : Peer) (body : Body) (node : Node)
    → (do_post_peers names parse body node).failed ≡ false
    → is_known (do_post_peers names parse body node).node q
      ≡ (is_listed q (map peer_of body.entries) || is_known node q)
unfolding do_post_peers
do_post_peers-is_known names parse q body node h = elim (Bool-cases body.well_formed) [
  | inr e ↦ absurd (cc (rw (do_post_peers, e) at h))
  | inl e ↦
      let loop : do_post_peers names parse body node
          ≡ post_loop names parse (map peer_of body.entries) node =
        rw (do_post_peers, e) refl in
      ap (λ p. is_known p.node q) loop
      ∙ post_loop-is_known names parse q (map peer_of body.entries) node
          (sym (ap (λ p. p.failed) loop) ∙ h)
]

-- The peers are added one after the other, each without an error, from the one node to the other.
abbrev pub Adds : Names → Parse → List Peer → Node → Node → Type 0
Adds names parse [] node after = node ≡ after
Adds names parse (p ∷ ps) node after =
    (succeeds (add_peer names parse p node).error ≡ true)
    × Adds names parse ps (add_peer names parse p node).node after

-- The first peers are added, and the next one is refused, which leaves the node as it is.
abbrev pub AddsUntil : Names → Parse → List Peer → Node → Node → Type 0
AddsUntil names parse ps node after =
    (done : List Peer) × (p : Peer) × (rest : List Peer) × (ps ≡ done ++ p ∷ rest)
    × Adds names parse done node after
    × (succeeds (add_peer names parse p after).error ≡ false)

abbrev EndsWith : Names → Parse → List Peer → Node → Posted → Type 0
EndsWith names parse ps node r =
    ((r.failed ≡ false) × Adds names parse ps node r.node)
    ⊎ ((r.failed ≡ true) × AddsUntil names parse ps node r.node)

remember-refused :
    (p : Peer) (r : LinkInfo × Called) (node : Node)
    → succeeds (remember p r node).error ≡ false
    → (remember p r node).node ≡ node
unfolding remember
remember-refused p (info, dialling d) node h = absurd (cc h)
remember-refused p (info, connected) node h = absurd (cc h)
remember-refused p (info, invalid_key) node h = refl
remember-refused p (info, invalid_priority) node h = refl
remember-refused p (info, unknown_scheme) node h = refl

add_peer-refused :
    (names : Names) (parse : Parse) (p : Peer) (node : Node)
    → succeeds (add_peer names parse p node).error ≡ false
    → (add_peer names parse p node).node ≡ node
unfolding add_peer v6space.Core.Peers.add_peer_in
add_peer-refused names parse p node h = elim (Option-cases (lookup p node.config.peers)) [
  | inr (v, e) ↦ rw (add_peer, add_peer_in, e) refl
  | inl e ↦ elim (Option-cases (parse p.uri)) [
    | inl f ↦ rw (add_peer, add_peer_in, e, f) refl
    | inr (u, f) ↦
        let made : add_peer names parse p node
            ≡ remember p (call names node.links u p.source_interface) node =
          rw (add_peer, add_peer_in, e, f) refl in
        ap (λ r. r.node) made
        ∙ remember-refused p (call names node.links u p.source_interface) node
            (sym (ap (λ r. succeeds r.error) made) ∙ h)
  ]
]

post_loop_cases :
    (names : Names) (parse : Parse) (ps : List Peer) (node : Node)
    → EndsWith names parse ps node (post_loop names parse ps node)
unfolding post_loop post_next
post_loop_cases names parse [] node = inl (refl, refl)
post_loop_cases names parse (p ∷ ps) node =
    go (add_peer names parse p node).error refl
      (post_loop_cases names parse ps (add_peer names parse p node).node)
  where
    after : Node
    after = (add_peer names parse p node).node

    go :
        (e : Option PeerError)
        → (add_peer names parse p node).error ≡ e
        → EndsWith names parse ps
            (add_peer names parse p node).node
            (post_loop names parse ps (add_peer names parse p node).node)
        → EndsWith names parse (p ∷ ps) node (
            post_next
              (post_loop names parse ps)
              (add_peer names parse p node).node
              (add_peer names parse p node).dials
              e)
    go none e (inl (fine, adds)) = inl (fine, (ap succeeds e, adds))
    go none e (inr (failed, (done, q, rest, split, adds, refused))) =
        inr (failed, (p ∷ done, q, rest, ap (◌∷◌ p) split, (ap succeeds e, adds), refused))
    go (some x) e more =
        let refused : succeeds (add_peer names parse p node).error ≡ false = ap succeeds e in
        let same = add_peer-refused names parse p node refused in
        inr (
          refl,
          (
            [],
            p,
            ps,
            refl,
            sym same,
            ap (λ n. succeeds (add_peer names parse p n).error) same ∙ refused,
          ),
        )

-- The file after a request: saved with the entries as all of its peers, where the request and the
-- system let it be, and else as it was.
abbrev pub IsSaved : Saver → List Entry → Option Saved → Option Saved → Type 0
IsSaved s es file after =
    (((s.has_file && says_true s.headers && s.writable) ≡ true)
      × (after ≡ change (set_peers es) file))
    ⊎ (((s.has_file && says_true s.headers && s.writable) ≡ false) × (after ≡ file))

pub save_peers-IsSaved :
    (s : Saver) (es : List Entry) (file : Option Saved) → IsSaved s es file (save_peers s es file)
unfolding save_config
save_peers-IsSaved s es file = elim (Bool-cases (s.has_file && says_true s.headers && s.writable)) [
  | inl e ↦ inl (e, rw (save_config, e) refl)
  | inr e ↦ inr (e, rw (save_config, e) refl)
]

-- A POST that adds all peers of the request.
abbrev pub IsPosted : Names → Parse → Body → Node → Option Saved → Peer → Control → Type 0
IsPosted names parse body node file q r =
    (body.well_formed ≡ true)
    × Adds names parse (map peer_of body.entries) node r.node
    × (is_known r.node q ≡ (is_listed q (map peer_of body.entries) || is_known node q))
    × (r.status ≡ none)
    × (r.file ≡ file)

-- A POST that fails.
abbrev pub IsRefused : Names → Parse → Saver → Body → Node → Option Saved → Control → Type 0
IsRefused names parse s body node file r =
    (((body.well_formed ≡ false) × (r.node ≡ node))
      ⊎ ((body.well_formed ≡ true) × AddsUntil names parse (map peer_of body.entries) node r.node))
    × (r.status ≡ some 400)
    × IsSaved s body.entries file r.file

-- A POST of peers, where no other call comes in between. Either its body decodes and all of its
-- peers are added one after the other: then there is no status of its own, the node's peers are
-- those it had and those of the request, and the file is as it was, whatever the header says. Or
-- the body does not decode, and the node is as it was, or a first peer is refused, and only the ones
-- before it are added: then the status is 400, and the file is saved with all entries that were
-- decoded, if the header asks for it and the file is there and can be written, and else as it was.
pub post_peers_cases :
    (names : Names) (parse : Parse) (s : Saver) (body : Body) (node : Node) (file : Option Saved)
    (q : Peer)
    → IsPosted names parse body node file q (post_peers names parse s body node file)
      ⊎ IsRefused names parse s body node file (post_peers names parse s body node file)
unfolding post_peers do_post_peers
post_peers_cases names parse s body node file q =
    go body.well_formed refl (post_loop names parse (map peer_of body.entries) node).failed refl
      (post_loop_cases names parse (map peer_of body.entries) node)
  where
    Result : Control → Type 0
    Result r = IsPosted names parse body node file q r ⊎ IsRefused names parse s body node file r

    go :
        (w : Bool)
        → body.well_formed ≡ w
        → (f : Bool) → (post_loop names parse (map peer_of body.entries) node).failed ≡ f
        → EndsWith names parse
            (map peer_of body.entries)
            node
            (post_loop names parse (map peer_of body.entries) node)
        → Result (post_peers names parse s body node file)
    go false bad f e ends =
        let made : post_peers names parse s body node file
            ≡ record { node = node; file = save_peers s body.entries file; status = some 400 } =
          rw (post_peers, do_post_peers, bad) refl in
        subst Result (sym made)
          (inr (inl (bad, refl), refl, save_peers-IsSaved s body.entries file))
    go true well false e (inl (fine, adds)) =
        let made : post_peers names parse s body node file ≡ record {
          node = (post_loop names parse (map peer_of body.entries) node).node;
          file = file;
          status = none;
        } =
          rw (post_peers, do_post_peers, well, e) refl in
        subst Result (sym made) (
          inl (
            well,
            adds,
            post_loop-is_known names parse q (map peer_of body.entries) node e,
            refl,
            refl,
          ))
    go true well false e (inr (failed, until)) = absurd (cc (sym e ∙ failed))
    go true well true e (inl (fine, adds)) = absurd (cc (sym e ∙ fine))
    go true well true e (inr (failed, until)) =
        let made : post_peers names parse s body node file ≡ record {
          node = (post_loop names parse (map peer_of body.entries) node).node;
          file = save_peers s body.entries file;
          status = some 400;
        } =
          rw (post_peers, do_post_peers, well, e) refl in
        subst Result (sym made)
          (inr (inr (well, until), refl, save_peers-IsSaved s body.entries file))
