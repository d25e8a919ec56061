-- ===== src/Rest/Peers.antt =====
-- The handlers of /api/peers that change the peers, with the saving of the configuration, and what
-- cmd/mesh/main.go makes of the saved peers when the node starts. JSON and the configuration file
-- are parameters.
pub mod Options
pub mod Posting
pub mod Restart
use v6space.Base.{
  ℕ, Bool, true, false, not, ◌&&◌, Option, none, some, List, [], ◌∷◌, ◌++◌, map, ◌==◌,
  if◌then◌else◌, bytes_eq, bytes_Eq, lookup, insert,
}
use v6space.Core.Dial.{Names, Dial}
use v6space.Core.Dial.Transport.{is_empty_text}
use v6space.Core.Peers.{
  Peer, SetupOption, peer_option, Node, Parse, PeerError, Added, add_peer, remove_peers,
}

-- map[string]string.
abbrev pub Entry : Type 0
Entry = List (List ℕ × List ℕ)

abbrev pub text_or_empty : Option (List ℕ) → List ℕ
text_or_empty none = []
text_or_empty (some t) = t

abbrev pub url_name : List ℕ
url_name = b'u' ∷ b'r' ∷ b'l' ∷ []

abbrev pub interface_name : List ℕ
interface_name = b'i' ∷ b'n' ∷ b't' ∷ b'e' ∷ b'r' ∷ b'f' ∷ b'a' ∷ b'c' ∷ b'e' ∷ []

abbrev pub field : List ℕ → Entry → List ℕ
field name e = text_or_empty (lookup name e)

abbrev pub peer_of : Entry → Peer
peer_of e = record { uri = field url_name e; source_interface = field interface_name e }

-- A request's body: what the decoder leaves in `peers`, and whether it reports no error.
pub record Body : Type 0 where
  pub entries : List Entry
  pub well_formed : Bool

-- The peers of config.NodeConfig; the other fields are a number.
pub record Saved : Type 0 where
  pub peers : List (List ℕ)
  pub interface_peers : List (List ℕ × List (List ℕ))
  pub rest : ℕ

-- What saveConfig goes by: whether a file is named, the header's values, and whether the file can
-- be written.
pub record Saver : Type 0 where
  pub has_file : Bool
  pub headers : List (List ℕ)
  pub writable : Bool

unfoldable pub says_true : List (List ℕ) → Bool
says_true [] = false
says_true (v ∷ vs) = bytes_eq v (b't' ∷ b'r' ∷ b'u' ∷ b'e' ∷ [])

abbrev pub change : {A : Type 0} → (A → A) → Option A → Option A
change set none = none
change set (some cfg) = some (set cfg)

-- saveConfig on the file, `none` where it does not read.
unfoldable pub save_config : {A : Type 0} → Saver → (A → A) → Option A → Option A
save_config s set file =
    if s.has_file && says_true s.headers && s.writable then change set file else file

abbrev pub urls_or_empty : Option (List (List ℕ)) → List (List ℕ)
urls_or_empty none = []
urls_or_empty (some us) = us

unfoldable pub add_entry : Peer → Saved → Saved
add_entry p cfg =
    if is_empty_text p.source_interface
    then record cfg { peers = cfg.peers ++ p.uri ∷ [] }
    else record cfg {
      interface_peers =
          insert p.source_interface
            (urls_or_empty (lookup p.source_interface cfg.interface_peers) ++ p.uri ∷ [])
            cfg.interface_peers;
    }

unfoldable pub add_entries : List Peer → Saved → Saved
add_entries [] cfg = cfg
add_entries (p ∷ ps) cfg = add_entries ps (add_entry p cfg)

-- The function that savePeers gives saveConfig.
unfoldable pub set_peers : List Entry → Saved → Saved
set_peers es cfg = add_entries (map peer_of es) (record cfg { peers = []; interface_peers = [] })

abbrev pub save_peers : Saver → List Entry → Option Saved → Option Saved
save_peers s es file = save_config s (set_peers es) file

pub record Posted : Type 0 where
  pub node : Node
  pub dials : List Dial
  pub failed : Bool

abbrev pub dial_first : List Dial → Posted → Posted
dial_first ds p = record p { dials = ds ++ p.dials }

-- The loop of doPostPeers, which ends at the first error.
unfoldable pub post_next : (Node → Posted) → Node → List Dial → Option PeerError → Posted
post_next again node ds none = dial_first ds (again node)
post_next again node ds (some e) = record { node = node; dials = ds; failed = true }

unfoldable pub post_loop : Names → Parse → List Peer → Node → Posted
post_loop names parse [] node = record { node = node; dials = []; failed = false }
post_loop names parse (p ∷ ps) node =
    let r = add_peer names parse p node in
    post_next (post_loop names parse ps) r.node r.dials r.error

-- doPostPeers.
unfoldable pub do_post_peers : Names → Parse → Body → Node → Posted
do_post_peers names parse body node =
    if body.well_formed
    then post_loop names parse (map peer_of body.entries) node
    else record { node = node; dials = []; failed = true }

-- The node and the file after a request, and the status that is written, if one is.
pub record Control : Type 0 where
  pub node : Node
  pub file : Option Saved
  pub status : Option ℕ

-- postApiPeersHandler.
unfoldable pub post_peers : Names → Parse → Saver → Body → Node → Option Saved → Control
post_peers names parse s body node file =
    let p = do_post_peers names parse body node in
    if p.failed
    then record { node = p.node; file = save_peers s body.entries file; status = some 400 }
    else record { node = p.node; file = file; status = none }

abbrev pub put_rest : Names → Parse → Saver → Body → Option Saved → Option Node → Option Control
put_rest names parse s body file none = none
put_rest names parse s body file (some node) =
    let p = do_post_peers names parse body node in
    some (
      if p.failed
      then record { node = p.node; file = file; status = some 400 }
      else record { node = p.node; file = save_peers s body.entries file; status = some 204 })

-- putApiPeersHandler; RemovePeers reports no error, and `none` is its closures' panic, which ends
-- the program.
unfoldable pub put_peers :
    Names → Parse → Saver → Body → (Peer → ℕ) → Node → Option Saved → Option Control
put_peers names parse s body delay node file =
    put_rest names parse s body file (remove_peers delay node)

abbrev pub delete_rest : Saver → Option Saved → Option Node → Option Control
delete_rest s file none = none
delete_rest s file (some node) =
    some (record { node = node; file = save_peers s [] file; status = some 204 })

-- deleteApiPeersHandler.
unfoldable pub delete_peers : Saver → (Peer → ℕ) → Node → Option Saved → Option Control
delete_peers s delay node file = delete_rest s file (remove_peers delay node)

-- The options that the start of the program makes of the saved peers.
unfoldable pub interface_options : List ℕ → List (List ℕ) → List SetupOption
interface_options intf [] = []
interface_options intf (u ∷ us) =
    peer_option (record { uri = u; source_interface = intf }) ∷ interface_options intf us

unfoldable pub map_options : List (List ℕ × List (List ℕ)) → List SetupOption
map_options [] = []
map_options ((intf, us) ∷ m) = interface_options intf us ++ map_options m

abbrev pub saved_options : Saved → List SetupOption
saved_options cfg = interface_options [] cfg.peers ++ map_options cfg.interface_peers
