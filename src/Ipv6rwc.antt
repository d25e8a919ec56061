-- ===== src/Ipv6rwc.antt =====
-- src/ipv6rwc: the table of known nodes behind the IPv6 side of the node, its packet buffers and
-- timers (ipv6rwc.go), and the ICMPv6 packets that it makes (icmpv6.go).
pub mod Icmpv6
pub mod Store
pub mod Packet
pub mod Examples
