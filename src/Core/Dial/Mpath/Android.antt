-- ===== src/Core/Dial/Mpath/Android.antt =====
-- src/core/link_mpath_android.go, where it differs from link_mpath.go: the source interfaces are
-- addresses, targets that are linked already are not passed over, and a linked URL is refused.
use v6space.Base.{ℕ, Option, none, some, List, [], ◌∷◌, if◌then◌else◌, Bool, lookup}
use v6space.Core.Net.{is_some}
use v6space.Core.Dial.{LinkInfo, info_Eq, Dial}
use v6space.Core.Dial.Transport.{TcpAddr, suits}
use v6space.Core.Dial.Mpath.{
  hosts_of, System, resolved_target, some_targets, MpathConn, crashes, MpathOutcome, duplicate,
  mpath_info, dialled,
}

unfoldable pub android_targets : System → List ℕ → List (List ℕ) → List TcpAddr
android_targets sys sintf [] = []
android_targets sys sintf (host ∷ hosts) =
    resolved_target sintf (sys.resolve host) (android_targets sys sintf hosts)

-- The source that a text names, over what netip.ParseAddr gives, without its zone.
abbrev pub if_suits : TcpAddr → Option (List ℕ) → Option (List ℕ)
if_suits dst none = none
if_suits dst (some src) = if suits dst.ip src then some src else none

abbrev pub android_to :
    System → (List ℕ → Option (List ℕ)) → List ℕ → Option (List (List ℕ)) → MpathConn
android_to sys parse_addr sintf none = crashes
android_to sys parse_addr sintf (some hosts) =
    some_targets (λ name dst. if_suits dst (parse_addr name)) sintf
      (android_targets sys sintf hosts)

-- connFor up to the dialling.
unfoldable pub conn_for_android : System → (List ℕ → Option (List ℕ)) → List ℕ → List ℕ → MpathConn
conn_for_android sys parse_addr url sintf = android_to sys parse_addr sintf (hosts_of url)

-- linkMPATH.dial.
unfoldable pub dial_android :
    System
    → (List ℕ → Option (List ℕ))
    → Bool
    → List (LinkInfo × Option ℕ)
    → List ℕ
    → Dial
    → MpathOutcome
dial_android sys parse_addr works links url d =
    if is_some (lookup (mpath_info d) links)
    then duplicate
    else dialled works d (conn_for_android sys parse_addr url d.sintf)
