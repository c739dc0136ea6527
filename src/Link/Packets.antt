-- ===== src/Link/Packets.antt =====
-- lp::Packet with the fields that daemon/face/lp-fragmenter.cpp and lp-reassembler.cpp use, and
-- `assignSequences` of daemon/face/generic-link-service.cpp.
use nfd_out_of_the_box.Prelude.{ℕ, ◌+◌, ◌%◌, ◌^◌, Option, none, some, List, [], ◌∷◌}

pub record Packet (H : Type 0) : Type 0 where
  pub sequence : Option ℕ
  pub frag_index : Option ℕ
  pub frag_count : Option ℕ
  pub fragment : List ℕ
  pub headers : Option H

abbrev pub empty_packet : {H : Type 0} → Packet H
empty_packet = record {
  sequence = none;
  frag_index = none;
  frag_count = none;
  fragment = [];
  headers = none;
}

module _ {H : Type 0} where
  -- `assignSequences`: the packets with their sequence numbers. `last` is `m_lastSeqNo`, which
  -- wraps as a uint64_t.
  unfoldable pub assign_sequences : ℕ → List (Packet H) → List (Packet H)
  assign_sequences last [] = []
  assign_sequences last (p ∷ ps) =
      record p { sequence = some ((last + 1) % 2 ^ 64) } ∷ assign_sequences ((last + 1) % 2 ^ 64) ps
