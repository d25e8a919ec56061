-- ===== src/Lib.antt =====
-- A verification library of v6Space, an IPv6 overlay network whose addresses are derived from the
-- nodes' public keys.
--
-- The parts and how they interact. Applications read and write IPv6 packets at the TUN side. The
-- key store (src/ipv6rwc/ipv6rwc.go) takes each packet, finds the public key of the destination
-- from its address, and gives the packet to the core; where it does not know the key it keeps the
-- packet and sends a signed out-of-band lookup to the partial key that the address stands for
-- (src/core/address.go). The core (src/core/core.go) puts a session type in front of every packet
-- and hands packets of the protocol to its protocol handler (src/core/proto.go) and to the node
-- information (src/core/nodeinfo.go). Links between nodes begin with a handshake
-- (src/core/version.go, src/core/link.go). The node dials its configured peers (src/core/api.go,
-- src/core/link_linux.go) and those whose beacons it receives (src/multicast/multicast.go), and
-- the control server (src/restapi/rest_server.go) shows and changes the peers. The program
-- (cmd/mesh/main.go) sets all of them up from its flags and the configuration
-- (src/config/config.go, src/defaults), and so do the mobile bindings (contrib/mobile/mobile.go)
-- for a phone. The key search (cmd/genkeys/main.go) looks for keys with many leading zeros.
--
-- The files. Base holds what the parts share: tests on numbers and bytes, lists, maps, texts.
-- Core/Address models address.go: Defs has GetPrefix, IsValidAddress, IsValidSubnet, AddrForKey,
-- SubnetForKey, GetAddressKey and GetSubnetKey over lists of bytes, each loop on its index with a
-- number of rounds that is the loop's bound (8 times the length, or the byte of ones); Bits,
-- Scan, Recover and Pad relate the loops to the bits of a key, RoundTrip, Lookup and Prefix have
-- the results. Core/Version models version.go (encode, decode, check), with Wire; Core/Link the
-- handler of link.go: the handshake's verdict, in Handshake, and the steps on the shared table of
-- links, in Handlers, where the handlers of all connections interleave. Core/Proto models
-- proto.go and of core.go MTU, ReadFrom and WriteTo: Requests has the table of requests with
-- their timers, Chunks the lists of keys in an answer, Exchange the way of a request to another
-- node and back. Core/NodeInfo models nodeinfo.go, with Callbacks. Core/Net has what the node
-- takes from Go's net and strconv: the classes of IP addresses, decimal numbers and the splitting
-- of a host from its port. Core/Dial models links.call of link_linux.go, and in Transport
-- dialerFor and the dialling of link_tcp.go and link_unix.go with the accept loop, and in Retry
-- the retries of link.go: Call follows a URL's pinned keys to the handshake, Source the choice of
-- the source address, Other is about the call of link_other.go, Tls about link_tls.go with the
-- server name, Sctp about link_sctp_linux.go, and Mpath about link_mpath.go with its children
-- Targets and Query, and Android about link_mpath_android.go. Core/Start models New (core.go)
-- with links.listen, and Address and Subnet (api.go). Core/Peers models the options (options.go),
-- AddPeer, RemovePeer and RemovePeers (api.go) and _addPeerLoop (core.go): Known compares them
-- with a set of peers, Removal is about the closures of RemovePeers, Loop about the loop. Core/Reports models GetPeers of api.go and the
-- counters of linkConn (link.go). Multicast models multicast.go, with listen in Receive and the
-- options in Options: Interfaces the choice of interfaces, Listeners the listeners after a round,
-- Announce the rounds, Beacon the beacons and the calls that they lead to. Rest models
-- rest_server.go: Handlers the table that AddHandler fills, Dispatch the choice of a handler, Api
-- the handlers of NewRestServer, Keys and Answers the requests about other nodes, Order the list
-- of peers, Events the channel of events with its senders and readers, in Order and Steps, and Peers the requests that change the peers with the
-- saved configuration, where Posting is about the adding of peers, and Options and Restart
-- follow the saved peers to the next start (cmd/mesh/main.go); Nodeinfo has the request that sets the node's description, Health the
-- health test of peers, and Docs the documentation page. Ipv6rwc/Store models the key store of
-- ipv6rwc.go: its maps, packet buffers and running timers, sendToAddress, sendToSubnet, update,
-- resetTimeout and oobHandler; Invariant, Steps and Reach have its invariant, Delivery and
-- Exchange what its operations do. Ipv6rwc/Packet models readPC, writePC and SetMTU, with Guards,
-- Admission and Mtu; Ipv6rwc/Icmpv6 the packets of icmpv6.go, with Layout. Cmd/GenKeys models the
-- search, with Best. Config models the configuration, Config/Defaults the defaults of each system
-- and GenerateConfig, Config/Reading the reading and writing of the file. Cmd/Mesh models the
-- program: the options that it makes of the configuration, with lemmas in Options, Lookups and
-- Keeps, and in Run its run, where Ran and Running have what it comes to. Mobile models
-- the mobile bindings: Same compares their core with the program's, Stopping is about the start
-- and the stop. Tun models the TUN adapter of tun.go, its start, in Start, and the loops of
-- iface.go, in Loops; Darwin, Bsd and Windows model the set-ups of tun_darwin.go, tun_bsd.go and
-- tun_windows.go. The files named Examples hold the tests.
--
-- The conventions. Bytes are natural numbers, bytes strings lists of them; a pointer is a number
-- that is given out once; a Go map is an association list, and nil a `none`. State is passed
-- explicitly, and what an operation does to the outside is a list of effects in its order. A
-- panic is a value of its own (`none` or `crash`). An operation under one lock, or one message to
-- an actor, is one step. AddPeer takes three, which add_peer_in has apart; add_peer is
-- AddPeer where no other call comes in between, as in the requests that add peers. The closures of
-- RemovePeers run after any number of further rounds of its loop, and the steps of the requests
-- that read events interleave; timers run as steps of their own, also after they have been stopped.
--
-- Bounds and fuel. split_keys takes as fuel the number of bytes, which is enough since every
-- round takes 32 of them; retry takes as fuel a number of rounds, and three are enough;
-- try_address takes nine, the rounds of its loop. The loops of readPC, main and doKeys go over
-- the list of events that arrive; a readPC whose events are used up is waiting. A uint64 wraps in
-- Core.MTU. Shifts of a byte are taken modulo 256.
--
-- Not modelled: the packet connection, ed25519, JSON, HTTP, regular expressions, name resolution,
-- the sockets, the parsing of URLs and the marshalling of ICMPv6 messages, which are other
-- packages' and stand as parameters; the certificates of TLS, SOCKS proxies, the sctp and
-- multipath packages and the tables of listeners with their shutdown; the TUN device itself; of
-- the control server the reports that only print and the web page; HJSON and the decoding of
-- UTF-16; the control client, which prints.
pub mod Base
pub mod Cmd
pub mod Config
pub mod Core
pub mod Ipv6rwc
pub mod Mobile
pub mod Multicast
pub mod Rest
pub mod Tun
