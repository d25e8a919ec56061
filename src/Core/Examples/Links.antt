-- ===== src/Core/Examples/Links.antt =====
-- Tests of the link handshake and the handlers of links.
use v6space.Base.{
  ℕ, ◌≡◌, ◌≢◌, refl, ◌↔◌, ◌⊎◌, inl, inr, true, false, none, some, List, [], ◌∷◌, ◌++◌, replicate,
  length, lookup, nat_Eq, Eq, arith,
}
use v6space.Core.Version.{Metadata, base_metadata, encode, decode}
use v6space.Core.Version.Wire.{encode-decode}
use v6space.Core.Link.{
  Link, Wire, Links, handshake, accepted, member, is_empty, admit, read_meta, opened, closed,
  linked, init, look, mark, is_connected_to,
}
use v6space.Core.Link.Handshake.{Exchanged, IsAllowed, handshake_iff}
use v6space.Core.Link.Handlers.{Reach, start, next, looks, marks, IsHeld, entry-IsHeld, double_link}

abbrev peer_key : List ℕ
peer_key = replicate 32 7

abbrev meta : Metadata
meta = record base_metadata { key = peer_key }

abbrev meta_bytes : List ℕ
meta_bytes = b'm' ∷ b'e' ∷ b't' ∷ b'a' ∷ 0 ∷ 4 ∷ peer_key

abbrev link : Link
link = record {
  options = record { pinned_keys = []; priority = 0 };
  info = 3;
  incoming = true;
  force = false;
}

abbrev wire : Wire
wire = record {
  deadline_set = true;
  written = some 38;
  received = some meta_bytes;
  deadline_cleared = true;
}

decoded : decode meta_bytes ≡ some meta
unfolding decode
decoded = refl

encode-decode_example : encode meta ≡ some meta_bytes
encode-decode_example = encode-decode meta_bytes meta decoded

handshake_iff_example : (handshake [] link wire ≡ accepted peer_key) ↔ (
    Exchanged wire.deadline_set wire.written wire.received wire.deadline_cleared peer_key
    × IsAllowed [] link peer_key)
handshake_iff_example = handshake_iff [] link wire peer_key

let_in : handshake [] link wire ≡ accepted peer_key
let_in = (handshake_iff [] link wire peer_key).1 (
  (refl, refl, refl, (meta_bytes, refl, encode-decode meta_bytes meta decoded)),
  (inl refl, inr (inr (inl refl))),
)

abbrev all_links : ℕ → Link
all_links i = link

abbrev marked : Links
marked = mark all_links 0 (look all_links 0 init)

looked : (look all_links 0 init).phase 0 ≡ v6space.Core.Link.unmarked
unfolding look is_connected_to lookup
looked = refl

reached : Reach all_links [] marked
reached =
    next (look all_links 0 init) marked
      (next init (look all_links 0 init) start (looks 0 init refl))
      (marks 0 (look all_links 0 init) looked)

holds : lookup 3 marked.entries ≡ some none
unfolding mark look lookup v6space.Base.insert
holds = refl

entry-IsHeld_example : IsHeld all_links [] marked 3 none
entry-IsHeld_example = entry-IsHeld all_links [] marked 3 none reached holds

idle : (i : ℕ) → (init.phase i ≡ opened) ⊎ (init.phase i ≡ closed)
idle i = inl refl

double_link_example :
    (s : Links) × Reach all_links [] s × (s.phase 0 ≡ linked) × (s.phase 1 ≡ linked)
double_link_example =
    double_link all_links [] 0 1 wire wire peer_key peer_key (λ e. absurd (cc e)) refl let_in let_in
