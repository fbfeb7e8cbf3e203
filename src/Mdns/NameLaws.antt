-- ===== src/Mdns/NameLaws.antt =====
-- Names of DNS packets: reading ends and stays in the packet, reads back what was written, follows
-- compression pointers and refuses their cycles.
pub mod Bounds
pub mod RoundTrip
pub mod Pointers
