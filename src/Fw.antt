-- ===== src/Fw.antt =====
-- daemon/fw: the helpers of algorithm.cpp, retransmission suppression, Nack processing and the
-- best-route strategy (version 5), as functions of the PIT entry, the next hops and the time.
pub mod Algorithm
pub mod Retx
pub mod NackTraits
pub mod BestRoute
