-- ===== src/Core/Examples/Transports.antt =====
-- Tests of the transports of links.
use v6space.Base.{
  ℕ, ◌≡◌, ◌≢◌, ◌⊎◌, inl, inr, refl, Bool, true, false, Option, none, some, List, [], ◌∷◌, ◌++◌,
  codes, replicate, All, lookup, ◌==◌, has_char, Lacks,
}
use v6space.Core.Link.{LinkOptions}
use v6space.Core.Net.{is_link_local}
use v6space.Core.Net.HostPort.{split_host_port}
use v6space.Core.Dial.{
  Url, LinkInfo, info_Eq, Names, Dial, tls, sctp, tls_name, sctp_name, dialling, unknown_scheme,
  call,
}
use v6space.Core.Dial.Transport.{TcpAddr, Text, Interface}
use v6space.Core.Dial.Sctp.{
  Resolver, crashes, dial_sctp, listen_sctp, listen_crashes, dial_sctp-crashes,
}
use v6space.Core.Dial.Other.{other_call, other_call-call}
use v6space.Core.Dial.Mpath.{System, star, MpathConn, dials, no_targets, Dialer, conn_for}
use v6space.Core.Dial.Mpath.Targets.{IsDialer, conn_for-IsDialer}
use v6space.Core.Dial.Mpath.Query.{query_url, conn_for-query}

abbrev url_to : List ℕ → List ℕ → Url
url_to scheme host = record {
  scheme = scheme;
  host = host;
  path = [];
  keys = [];
  priority = [];
  sni = [];
}

abbrev options : LinkOptions
options = record { pinned_keys = []; priority = 0 }

abbrev sctp_dial : Dial
sctp_dial = record {
  kind = sctp;
  url = url_to sctp_name (codes "h:1");
  options = options;
  sintf = [];
  sni = [];
}

abbrev six : List ℕ
six = replicate 16 1

abbrev resolver : Resolver
resolver = record { resolve = λ t. some six; ip_text = λ ip. codes "1::1"; atoi = λ t. 1 }

parts : split_host_port (codes "h:1") ≡ some (codes "h", codes "1")
unfolding split_host_port v6space.Core.Net.HostPort.host_and_port
    v6space.Core.Net.HostPort.cut_last_colon has_char
parts = refl

alone : split_host_port (codes "h") ≡ none
unfolding split_host_port v6space.Core.Net.HostPort.host_and_port
    v6space.Core.Net.HostPort.cut_last_colon
alone = refl

colon : has_char b':' (codes "1::1") ≡ true
unfolding has_char
colon = refl

dial_sctp-crashes_example :
    (dial_sctp resolver true [] sctp_dial ≡ crashes)
    × (listen_sctp resolver true (url_to sctp_name (codes "h")) ≡ listen_crashes)
unfolding lookup
dial_sctp-crashes_example =
    dial_sctp-crashes resolver true [] sctp_dial (url_to sctp_name (codes "h")) (codes "h")
      (codes "1") six (codes "::1") b'1' refl parts refl refl refl colon alone

abbrev names : Names
names = record { is_ip = λ t. false; split_host = λ t. some (codes "h") }

abbrev tls_dial : Dial
tls_dial = record {
  kind = tls;
  url = url_to tls_name (codes "h:1");
  options = options;
  sintf = [];
  sni = codes "h";
}

abbrev remote : TcpAddr
remote = record { ip = 10 ∷ 0 ∷ 0 ∷ 1 ∷ []; port = 1; zone = [] }

abbrev text : Text
text = record { ip_string = λ ip. codes "i"; addr_string = λ a. codes "a" }

abbrev system : System
system = record {
  resolve = λ t. some remote;
  target_text = λ a. codes "a";
  interface_by_name = λ t. none;
}

abbrev dialers : List Dialer
dialers = (star, remote) ∷ []

abbrev no_addr : List ℕ → Option (List ℕ)
no_addr t = none

goes : conn_for system [] (codes "mpath://h") [] ≡ dials dialers
unfolding conn_for v6space.Core.Dial.Mpath.hosts_of v6space.Base.split_by
    v6space.Core.Dial.Mpath.remote_targets lookup is_link_local v6space.Core.Net.to4
    v6space.Core.Dial.Mpath.dialers_for v6space.Core.Dial.Mpath.star_dialers
goes = refl

conn_for-IsDialer_example : All (IsDialer []) dialers
conn_for-IsDialer_example =
    conn_for-IsDialer system no_addr [] (codes "mpath://h") [] dialers (inl goes)

abbrev unresolving : System
unresolving = record {
  resolve = λ t. none;
  target_text = λ a. codes "a";
  interface_by_name = λ t. none;
}

conn_for-query_example :
    conn_for unresolving [] (query_url (codes "h") (codes "key=0")) [] ≡ no_targets
conn_for-query_example =
    conn_for-query unresolving [] (codes "h") (codes "key=0") [] (refl, tt)
      (refl, (refl, (refl, (refl, (refl, tt))))) refl

other_call-call_example :
    ((other_call names [] (url_to sctp_name (codes "h:1")) []).0
      ≡ (call names [] (url_to sctp_name (codes "h:1")) []).0)
    × (((other_call names [] (url_to sctp_name (codes "h:1")) []).1
          ≡ (call names [] (url_to sctp_name (codes "h:1")) []).1)
        ⊎ ((d : Dial) × (d.kind ≡ sctp)
            × ((call names [] (url_to sctp_name (codes "h:1")) []).1 ≡ dialling d)
            × ((other_call names [] (url_to sctp_name (codes "h:1")) []).1 ≡ unknown_scheme)))
other_call-call_example = other_call-call names [] (url_to sctp_name (codes "h:1")) []
