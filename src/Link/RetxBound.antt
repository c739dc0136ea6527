-- ===== src/Link/RetxBound.antt =====
-- The retransmissions of daemon/face/lp-reliability.cpp are maxRetx times the fragments at most.
