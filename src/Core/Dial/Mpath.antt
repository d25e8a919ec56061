-- ===== src/Core/Dial/Mpath.antt =====
-- src/core/link_mpath.go and, where it differs, link_mpath_android.go: the targets of a multipath
-- URL, the dialers for them, dialling and the accept loop. Name resolution, the system's interfaces
-- and the multipath package are parameters.
pub mod Targets
pub mod Android
pub mod Query
use v6space.Base.{
  ℕ, Bool, true, false, not, ◌&&◌, ◌||◌, Option, none, some, List, [], ◌∷◌, ◌++◌, ◌==◌,
  if◌then◌else◌, split_by, codes, lookup, length,
}
use v6space.Core.Link.{LinkOptions}
use v6space.Core.Net.{is_link_local, is_some}
use v6space.Core.Dial.{
  Url, LinkInfo, info_Eq, link_info_for, link_options_for_listener, Dial, mpath_name, tcp_name,
}
use v6space.Core.Dial.Transport.{TcpAddr, Text, Interface, is_empty_text, pick_source, suits}

-- `strings.Split(url, "/")[2:]`; `none` is the panic on fewer than two parts.
unfoldable pub hosts_of : List ℕ → Option (List (List ℕ))
hosts_of url = elim (split_by b'/' url).1 [ [] ↦ none | p ∷ ps ↦ some ps ]

-- What connFor has of the system: the resolution of a name, the text of a target, and the interface
-- of a name.
pub record System : Type 0 where
  pub resolve : List ℕ → Option TcpAddr
  pub target_text : Option TcpAddr → List ℕ
  pub interface_by_name : List ℕ → Option Interface

-- A link-local target takes the source interfaces as its zone, and goes if there are none.
abbrev pub zoned : List ℕ → TcpAddr → Option TcpAddr
zoned sintf dst =
    if is_link_local dst.ip
    then (if is_empty_text sintf then none else some (record dst { zone = sintf }))
    else some dst

abbrev pub add_target : Option TcpAddr → List TcpAddr → List TcpAddr
add_target none dsts = dsts
add_target (some dst) dsts = dst ∷ dsts

abbrev pub resolved_target : List ℕ → Option TcpAddr → List TcpAddr → List TcpAddr
resolved_target sintf none dsts = dsts
resolved_target sintf (some dst) dsts = add_target (zoned sintf dst) dsts

-- The first loop of connFor, over the hosts.
unfoldable pub remote_targets :
    System → List (LinkInfo × Option ℕ) → List ℕ → List (List ℕ) → List TcpAddr
remote_targets sys links sintf [] = []
remote_targets sys links sintf (host ∷ hosts) =
    let dst = sys.resolve host in
    let rest = remote_targets sys links sintf hosts in
    if is_some (lookup (link_info_for tcp_name sintf (sys.target_text dst)) links)
    then rest
    else resolved_target sintf dst rest

-- A dialer: the source address and the target.
abbrev pub Dialer : Type 0
Dialer = List ℕ × TcpAddr

abbrev pub add_source : TcpAddr → Option (List ℕ) → List Dialer → List Dialer
add_source dst none ds = ds
add_source dst (some src) ds = (src, dst) ∷ ds

abbrev pub source_on : TcpAddr → Option Interface → Option (List ℕ)
source_on dst none = none
source_on dst (some i) =
    if i.up
    then elim i.addrs as (λ _. Option (List ℕ)) [
      | none ↦ none
      | some addrs ↦ pick_source dst.ip addrs
    ]
    else none

-- The loop over the interfaces for one target, and the loop over the targets.
unfoldable pub dialers_to :
    (List ℕ → TcpAddr → Option (List ℕ)) → TcpAddr → List (List ℕ) → List Dialer
dialers_to source dst [] = []
dialers_to source dst (name ∷ names) =
    add_source dst (source name dst) (dialers_to source dst names)

unfoldable pub dialers_on :
    (List ℕ → TcpAddr → Option (List ℕ)) → List (List ℕ) → List TcpAddr → List Dialer
dialers_on source names [] = []
dialers_on source names (dst ∷ dsts) = dialers_to source dst names ++ dialers_on source names dsts

-- Without source interfaces: net.ParseIP("0.0.0.0"), in the form of 16 bytes.
abbrev pub star : List ℕ
star = 0 ∷ 0 ∷ 0 ∷ 0 ∷ 0 ∷ 0 ∷ 0 ∷ 0 ∷ 0 ∷ 0 ∷ 255 ∷ 255 ∷ 0 ∷ 0 ∷ 0 ∷ 0 ∷ []

unfoldable pub star_dialers : List TcpAddr → List Dialer
star_dialers [] = []
star_dialers (dst ∷ dsts) = (star, dst) ∷ star_dialers dsts

abbrev pub names_of : List ℕ → List (List ℕ)
names_of sintf = let parts = split_by b',' sintf in parts.0 ∷ parts.1

-- The dialers for the targets, over the search for a source address on an interface.
unfoldable pub dialers_for :
    (List ℕ → TcpAddr → Option (List ℕ)) → List ℕ → List TcpAddr → List Dialer
dialers_for source sintf dsts =
    if is_empty_text sintf then star_dialers dsts else dialers_on source (names_of sintf) dsts

pub data MpathConn : Type 0 where
  crashes no_targets no_source : MpathConn
  dials : List Dialer → MpathConn

abbrev pub some_dialers : List Dialer → MpathConn
some_dialers [] = no_source
some_dialers (d ∷ ds) = dials (d ∷ ds)

abbrev pub some_targets : (List ℕ → TcpAddr → Option (List ℕ)) → List ℕ → List TcpAddr → MpathConn
some_targets source sintf [] = no_targets
some_targets source sintf (dst ∷ dsts) = some_dialers (dialers_for source sintf (dst ∷ dsts))

abbrev pub conn_to :
    System → List (LinkInfo × Option ℕ) → List ℕ → Option (List (List ℕ)) → MpathConn
conn_to sys links sintf none = crashes
conn_to sys links sintf (some hosts) =
    some_targets (λ name dst. source_on dst (sys.interface_by_name name)) sintf
      (remote_targets sys links sintf hosts)

-- connFor up to the dialling.
unfoldable pub conn_for : System → List (LinkInfo × Option ℕ) → List ℕ → List ℕ → MpathConn
conn_for sys links url sintf = conn_to sys links sintf (hosts_of url)

pub data MpathOutcome : Type 0 where
  dial_crashes duplicate : MpathOutcome
  not_dialled : MpathConn → MpathOutcome
  created : LinkInfo → LinkOptions → Bool → Bool → MpathOutcome

abbrev pub mpath_info : Dial → LinkInfo
mpath_info d = link_info_for mpath_name d.sintf (split_by b'%' d.url.host).0

-- The end of dial, over whether the multipath package connects.
abbrev pub dialled : Bool → Dial → MpathConn → MpathOutcome
dialled works d crashes = dial_crashes
dialled works d no_targets = not_dialled no_targets
dialled works d no_source = not_dialled no_source
dialled works d (dials ds) =
    if works then created (mpath_info d) d.options false false else not_dialled (dials ds)

-- linkMPATH.dial, with the URL's text.
unfoldable pub dial_mpath :
    System → Bool → List (LinkInfo × Option ℕ) → List ℕ → Dial → MpathOutcome
dial_mpath sys works links url d = dialled works d (conn_for sys links url d.sintf)

-- The targets of listenFor: the texts of the hosts that resolve.
abbrev pub add_local : List ℕ → Option TcpAddr → List (List ℕ) → List (List ℕ)
add_local host none hosts = hosts
add_local host (some dst) hosts = host ∷ hosts

abbrev pub zoned_of : List ℕ → Option TcpAddr → Option TcpAddr
zoned_of sintf none = none
zoned_of sintf (some dst) = zoned sintf dst

unfoldable pub local_targets : System → List ℕ → List (List ℕ) → List (List ℕ)
local_targets sys sintf [] = []
local_targets sys sintf (host ∷ hosts) =
    add_local host (zoned_of sintf (sys.resolve host)) (local_targets sys sintf hosts)

-- The listeners that open, by number.
abbrev pub add_listener : Option ℕ → List ℕ → List ℕ
add_listener none ls = ls
add_listener (some l) ls = l ∷ ls

unfoldable pub open_listeners : (List ℕ → Option ℕ) → List (List ℕ) → List ℕ
open_listeners opens [] = []
open_listeners opens (t ∷ ts) = add_listener (opens t) (open_listeners opens ts)

pub data MpathListen : Type 0 where
  listen_crashes no_local_targets : MpathListen
  listening : List ℕ → MpathListen

abbrev pub listen_to : System → (List ℕ → Option ℕ) → List ℕ → Option (List (List ℕ)) → MpathListen
listen_to sys opens sintf none = listen_crashes
listen_to sys opens sintf (some hosts) =
    let targets = local_targets sys sintf hosts in
    elim targets as (λ _. MpathListen) [
      | [] ↦ no_local_targets
      | t ∷ ts ↦ listening (open_listeners opens (t ∷ ts))
    ]

-- listenFor.
unfoldable pub listen_for : System → (List ℕ → Option ℕ) → List ℕ → List ℕ → MpathListen
listen_for sys opens url sintf = listen_to sys opens sintf (hosts_of url)

-- The accept loop of listen, over the remote addresses, `none` for an error.
unfoldable pub accept_mpath : Text → Url → List ℕ → List (Option TcpAddr) → List MpathOutcome
accept_mpath text u sintf [] = []
accept_mpath text u sintf (none ∷ events) = []
accept_mpath text u sintf (some remote ∷ events) =
    created (link_info_for mpath_name sintf (split_by b'%' (text.ip_string remote.ip)).0)
      (link_options_for_listener u) true (is_link_local remote.ip)
    ∷ accept_mpath text u sintf events
