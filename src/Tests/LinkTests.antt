-- ===== src/Tests/LinkTests.antt =====
-- Three bytes over a link with room for two in a fragment.
use nfd_out_of_the_box.Link.Packets.{Packet, assign_sequences}
use nfd_out_of_the_box.Link.Fragmenter.{
  Element, fragment_packet, max_single_frag_overhead, max_frag_overhead, first_header_size,
}
use nfd_out_of_the_box.Link.Fragmenter.Payload.{
  AreFragments, fragment_packet_lem, first_room, other_room,
}
use nfd_out_of_the_box.Link.Reassembler.{Options, find, do_reassembly, get_or}
use nfd_out_of_the_box.Link.Reassembler.Order.{deliver, deliver_any_order}
use nfd_out_of_the_box.Link.RoundTrip.{fragment-reassemble}
use nfd_out_of_the_box.Prelude.{
  length, ℕ, ◌+◌, ◌-◌, ◌^◌, ◌≤◌, ◌≡◌, refl, ◌⊎◌, true, none, some, List, [], ◌∷◌, arith, ◌*◌, ◌<◌,
  Option, ◌++◌,
}
use nfd_out_of_the_box.Link.Reliability.{LpReliability, UnackedFrag, LpPacket}
use nfd_out_of_the_box.Link.Acks.{piggyback}
use nfd_out_of_the_box.Link.Piggyback.{piggyback_lem}

abbrev packet : Packet ℕ
packet = record {
  sequence = none;
  frag_index = none;
  frag_count = none;
  fragment = 7 ∷ 8 ∷ 9 ∷ [];
  headers = some 5;
}

abbrev wire : Packet ℕ → ℕ
wire p = length p.fragment + 40

abbrev no_elements : Packet ℕ → List Element
no_elements p = record { is_fragment = true; size = length p.fragment + 2 } ∷ []

abbrev link_options : Options
link_options = record { n_max_fragments = 400; reassembly_timeout = 500000000 }

abbrev first_part : Packet ℕ
first_part = record {
  sequence = none;
  frag_index = some 0;
  frag_count = some 2;
  fragment = 7 ∷ 8 ∷ [];
  headers = some 5;
}

abbrev second_part : Packet ℕ
second_part = record {
  sequence = none;
  frag_index = some 1;
  frag_count = some 2;
  fragment = 9 ∷ [];
  headers = none;
}

abbrev parts : List (Packet ℕ)
parts = first_part ∷ second_part ∷ []

fragments : fragment_packet wire no_elements 400 packet 52 ≡ some parts
unfolding fragment_packet
fragments = refl

fragment_packet_lem_example :
    ((parts ≡ packet ∷ []) × (max_single_frag_overhead + wire packet ≤ 52))
    ⊎ ((52 < max_single_frag_overhead + wire packet)
        × AreFragments packet 2 0
            (first_room wire no_elements 400 packet 52)
            (other_room wire no_elements 400 packet 52)
            parts
        × (2 ≤ 400)
        × (max_frag_overhead
              + first_header_size (no_elements packet)
              + first_room wire no_elements 400 packet 52
            ≤ 52)
        × (max_frag_overhead + other_room wire no_elements 400 packet 52 ≤ 52)
        × (do_reassembly parts ≡ packet.fragment))
fragment_packet_lem_example =
    fragment_packet_lem wire no_elements 400 packet 52 parts (omega arith) fragments

-- The last fragment first.
abbrev backwards : List (ℕ × ℕ)
backwards = (10, 1) ∷ (20, 0) ∷ []

fragment-reassemble_example :
    (first : Packet ℕ) × ((deliver link_options 3
        (assign_sequences (2 ^ 64 - 1) parts)
        backwards
        []).1
      ≡ some (packet.fragment, first))
    × (first.headers ≡ some 5)
fragment-reassemble_example =
    fragment-reassemble wire no_elements 400 packet 52 (2 ^ 64 - 1) 3 link_options parts backwards
      [] (omega arith) fragments (omega arith) (omega arith) (omega arith) (unfold find in refl)
      (omega arith) (omega arith) refl

abbrev sent_parts : List (Packet ℕ)
sent_parts =
    record first_part { sequence = some 100 } ∷ record second_part { sequence = some 101 } ∷ []

deliver_any_order_example :
    (deliver link_options 3 sent_parts backwards []).1
    ≡ some (do_reassembly sent_parts, get_or sent_parts 0)
deliver_any_order_example =
    deliver_any_order link_options 3 100 sent_parts (omega arith) (omega arith)
      ((refl, refl, (100, refl, refl), (refl, refl, (101, refl, refl), tt))) backwards []
      (unfold find in refl) (omega arith) (omega arith) refl

abbrev lp_packet : Option ℕ → List ℕ → LpPacket ℕ
lp_packet sequence acks = record {
  sequence = sequence;
  tx_sequence = none;
  acks = acks;
  has_fragment = true;
  body = 7;
}

-- Two fragments of one packet wait for an Ack, the first retransmitted twice already.
abbrev waiting : ℕ → UnackedFrag ℕ
waiting retx = record {
  pkt = lp_packet (some 40) [];
  rto_timer = 900;
  send_time = 100;
  retx_count = retx;
  n_greater_seq_acks = 2;
  net_pkt = 0;
}

abbrev reliability : LpReliability ℕ
reliability = record {
  options = record { max_retx = 2; idle_ack_timer_period = 5; seq_num_loss_threshold = 3 };
  unacked_frags = (3, waiting 2) ∷ (4, waiting 0) ∷ [];
  first_unacked_frag = some 3;
  net_pkts =
      record {
        unacked_frags = 3 ∷ 4 ∷ [];
        pkt = lp_packet none [];
        is_interest = true;
        did_retx = true;
      }
      ∷ [];
  ack_queue = 11 ∷ 12 ∷ 13 ∷ [];
  recent_recv_seqs = [];
  recent_recv_seqs_queue = [];
  last_tx_seq_no = 4;
  idle_ack_timer = none;
  rtt_measurements = [];
  sent = [];
  dropped_interests = [];
  n_acknowledged = 0;
  n_retransmitted = 0;
  n_retx_exhausted = 0;
}

piggyback_lem_example :
    (added : List ℕ) × ((piggyback 12 1030 2 1000 (lp_packet none []) reliability).0.acks
      ≡ [] ++ added)
    × (added ++ (piggyback 12 1030 2 1000 (lp_packet none []) reliability).1.ack_queue
        ≡ 11 ∷ 12 ∷ 13 ∷ [])
    × (length added * 12 ≤ 1030 - 2 - 1000)
    × (((piggyback 12 1030 2 1000 (lp_packet none []) reliability).1.ack_queue ≡ [])
        ⊎ (1030 - 2 - 1000 < (length added + 1) * 12))
piggyback_lem_example = piggyback_lem 12 1030 2 1000 (lp_packet none []) reliability (omega arith)
