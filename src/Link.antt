-- ===== src/Link.antt =====
-- daemon/face: fragmentation, reassembly and reliability of the generic link service. An lp::Packet of ndn-cxx
-- is its Sequence, FragIndex, FragCount and Fragment fields and, as `headers`, all other NDNLPv2
-- fields; a default-constructed one has none of these.
pub mod Packets
pub mod Reliability
pub mod Acks
pub mod Remaining
pub mod Budget
pub mod RetxBound
pub mod Piggyback
pub mod Fragmenter
pub mod Reassembler
pub mod RoundTrip
