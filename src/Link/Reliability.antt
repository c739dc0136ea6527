-- ===== src/Link/Reliability.antt =====
-- daemon/face/lp-reliability.cpp: fragments that wait for an Ack, their loss and retransmission. An iterator into
-- the map of fragments is a key of it, and `end()` is `none`; a network packet that fragments share is a
-- number, its place in `net_pkts`. `none` is a failed assertion or the exception of assignTxSequence. The
-- estimator of the round-trip time, of ndn-cxx, is a function of the measurements.

use nfd_out_of_the_box.Prelude.{
  is_empty, set, length, get_elem?, ℕ, ◌+◌, ◌%◌, ◌^◌, Bool, true, false, ◌||◌, Option, none, some,
  List, [], ◌∷◌, ◌++◌, map, ltb, leb, ◌==◌, if◌then◌else◌, not,
}

-- lp::Packet with the fields that the code reads.
pub record LpPacket (H : Type 0) : Type 0 where
  pub sequence : Option ℕ
  pub tx_sequence : Option ℕ
  pub acks : List ℕ
  pub has_fragment : Bool
  pub body : H

pub record UnackedFrag (H : Type 0) : Type 0 where
  pub pkt : LpPacket H
  pub rto_timer : ℕ
  pub send_time : ℕ
  pub retx_count : ℕ
  pub n_greater_seq_acks : ℕ
  pub net_pkt : ℕ

pub record NetPkt (H : Type 0) : Type 0 where
  pub unacked_frags : List ℕ
  pub pkt : LpPacket H
  pub is_interest : Bool
  pub did_retx : Bool

pub record ReliabilityOptions : Type 0 where
  pub max_retx : ℕ
  pub idle_ack_timer_period : ℕ
  pub seq_num_loss_threshold : ℕ

-- The last fields are what the code hands to the link service and to its listeners.
pub record LpReliability (H : Type 0) : Type 0 where
  pub options : ReliabilityOptions
  pub unacked_frags : List (ℕ × UnackedFrag H)
  pub first_unacked_frag : Option ℕ
  pub net_pkts : List (NetPkt H)
  pub ack_queue : List ℕ
  pub recent_recv_seqs : List (ℕ × ℕ)
  pub recent_recv_seqs_queue : List ℕ
  pub last_tx_seq_no : ℕ
  pub idle_ack_timer : Option ℕ
  pub rtt_measurements : List ℕ
  pub sent : List (LpPacket H)
  pub dropped_interests : List (LpPacket H)
  pub n_acknowledged : ℕ
  pub n_retransmitted : ℕ
  pub n_retx_exhausted : ℕ

module _ {A : Type 0} where
  unfoldable pub find_at : ℕ → List (ℕ × A) → Option A
  find_at k [] = none
  find_at k (x ∷ xs) = if x.0 == k then some x.1 else find_at k xs

  -- `emplace` on a map: a key that it has keeps its value.
  unfoldable pub emplace_at : ℕ → A → List (ℕ × A) → List (ℕ × A)
  emplace_at k v [] = (k, v) ∷ []
  emplace_at k v (x ∷ xs) =
      let rest = emplace_at k v xs in
      if x.0 == k then (x ∷ xs) else if ltb k x.0 then ((k, v) ∷ x ∷ xs) else (x ∷ rest)

  unfoldable pub modify_at : ℕ → (A → A) → List (ℕ × A) → List (ℕ × A)
  modify_at k u [] = []
  modify_at k u (x ∷ xs) =
      let rest = modify_at k u xs in if x.0 == k then ((x.0, u x.1) ∷ xs) else (x ∷ rest)

  unfoldable pub erase_at : ℕ → List (ℕ × A) → List (ℕ × A)
  erase_at k [] = []
  erase_at k (x ∷ xs) = let rest = erase_at k xs in if x.0 == k then xs else (x ∷ rest)

  unfoldable pub first_key : List (ℕ × A) → Option ℕ
  first_key [] = none
  first_key (x ∷ xs) = some x.0

  -- The key after a key of the map.
  unfoldable pub next_key : ℕ → List (ℕ × A) → Option ℕ
  next_key k [] = none
  next_key k (x ∷ xs) = let rest = next_key k xs in if x.0 == k then first_key xs else rest

  -- The keys from a key on, and those before it.
  unfoldable pub keys_from : ℕ → List (ℕ × A) → List ℕ
  keys_from k [] = []
  keys_from k (x ∷ xs) =
      let rest = keys_from k xs in if x.0 == k then map (λ y. y.0) (x ∷ xs) else rest

  unfoldable pub keys_before : ℕ → List (ℕ × A) → List ℕ
  keys_before k [] = []
  keys_before k (x ∷ xs) = let rest = keys_before k xs in if x.0 == k then [] else (x.0 ∷ rest)

unfoldable pub take_until : ℕ → List ℕ → List ℕ
take_until k [] = []
take_until k (x ∷ xs) = let rest = take_until k xs in if x == k then [] else (x ∷ rest)

unfoldable pub is_among : ℕ → List ℕ → Bool
is_among k [] = false
is_among k (x ∷ xs) = x == k || is_among k xs

unfoldable pub replace_in : ℕ → ℕ → List ℕ → List ℕ
replace_in k j [] = []
replace_in k j (x ∷ xs) = let rest = replace_in k j xs in if x == k then (j ∷ xs) else (x ∷ rest)

unfoldable pub last_of : ℕ → List ℕ → ℕ
last_of d [] = d
last_of d (x ∷ xs) = last_of x xs

unfoldable pub drop_last : List ℕ → List ℕ
drop_last [] = []
drop_last (x ∷ xs) = let rest = drop_last xs in if is_empty xs then [] else (x ∷ rest)

-- The last element moves to the place of the one that goes.
unfoldable pub swap_remove : ℕ → List ℕ → List ℕ
swap_remove k xs = drop_last (replace_in k (last_of k xs) xs)

abbrev pub is_window_start : ℕ → Option ℕ → Bool
is_window_start k none = false
is_window_start k (some f) = f == k

module _ {H : Type 0} where
  unfoldable pub assign_tx_sequence :
      LpPacket H → LpReliability H → Option (LpPacket H × LpReliability H)
  assign_tx_sequence p s =
      let tx_seq = (s.last_tx_seq_no + 1) % 2 ^ 64 in
      if is_window_start tx_seq s.first_unacked_frag
      then none
      else some (record p { tx_sequence = some tx_seq }, record s { last_tx_seq_no = tx_seq })

  -- An iterator past the last fragment goes on with the first.
  unfoldable pub or_first : Option ℕ → List (ℕ × UnackedFrag H) → Option ℕ
  or_first none xs = first_key xs
  or_first (some k) xs = some k

  unfoldable pub delete_unacked_frag : ℕ → LpReliability H → LpReliability H
  delete_unacked_frag k s =
      let left = erase_at k s.unacked_frags in
      let next = or_first (next_key k s.unacked_frags) left in
      record s {
        unacked_frags = left;
        first_unacked_frag = elim (first_key left) [
          | none ↦ none
          | some _ ↦ if is_window_start k s.first_unacked_frag then next else s.first_unacked_frag
        ];
      }

  abbrev pub modify_net_pkt : ℕ → (NetPkt H → NetPkt H) → LpReliability H → LpReliability H
  modify_net_pkt i u s = elim (get_elem? s.net_pkts i) [
    | none ↦ s
    | some n ↦ record s { net_pkts = set s.net_pkts i (u n) }
  ]

  abbrev pub new_unacked_frag : LpPacket H → ℕ → ℕ → ℕ → ℕ → UnackedFrag H
  new_unacked_frag p now rto retx net = record {
    pkt = p;
    rto_timer = now + rto;
    send_time = now;
    retx_count = retx;
    n_greater_seq_acks = 0;
    net_pkt = net;
  }

  -- A fragment with its TxSequence enters the map; with one fragment in it, the window starts there.
  unfoldable pub store_frag : ℕ → UnackedFrag H → LpReliability H → LpReliability H
  store_frag tx_seq frag s =
      let frags = emplace_at tx_seq frag s.unacked_frags in
      record s {
        unacked_frags = frags;
        first_unacked_frag = if length frags == 1 then first_key frags else s.first_unacked_frag;
      }

module _ {H : Type 0} (estimated_rto : List ℕ → ℕ) where
  unfoldable pub send_frags :
      ℕ → ℕ → List (LpPacket H) → LpReliability H → Option (List (LpPacket H) × LpReliability H)
  send_frags now net [] s = some ([], s)
  send_frags now net (p ∷ ps) s = elim (assign_tx_sequence p s) [
    | none ↦ none
    | some (q, s1) ↦
        let frag = new_unacked_frag q now (estimated_rto s1.rtt_measurements) 0 net in
        let s2 =
          modify_net_pkt net
            (λ n. record n { unacked_frags = n.unacked_frags ++ s1.last_tx_seq_no ∷ [] })
            (store_frag s1.last_tx_seq_no frag s1) in
        elim (send_frags now net ps s2) [ none ↦ none | some (qs, s3) ↦ some (q ∷ qs, s3) ]
  ]

  abbrev pub new_net_pkt : LpPacket H → Bool → NetPkt H
  new_net_pkt pkt is_interest = record {
    unacked_frags = [];
    pkt = pkt;
    is_interest = is_interest;
    did_retx = false;
  }

  unfoldable pub handle_outgoing :
      ℕ
      → List (LpPacket H)
      → LpPacket H
      → Bool
      → LpReliability H
      → Option (List (LpPacket H) × LpReliability H)
  handle_outgoing now frags pkt is_interest s =
      send_frags now (length s.net_pkts) frags
        (record s { net_pkts = s.net_pkts ++ new_net_pkt pkt is_interest ∷ [] })

  -- The fragments of a network packet that is given up, but for the lost one, with their keys.
  unfoldable pub delete_others : ℕ → List ℕ → LpReliability H → List ℕ × LpReliability H
  delete_others k [] s = ([], s)
  delete_others k (j ∷ js) s =
      let rest = delete_others k js (if j == k then s else delete_unacked_frag j s) in
      (if j == k then rest.0 else (j ∷ rest.0), rest.1)

  unfoldable pub give_up : ℕ → UnackedFrag H → NetPkt H → LpReliability H → List ℕ × LpReliability H
  give_up k frag net s =
      let (removed, s1) = delete_others k net.unacked_frags s in
      (
        removed ++ k ∷ [],
        delete_unacked_frag k (record s1 {
          n_retx_exhausted = s1.n_retx_exhausted + 1;
          dropped_interests =
              if net.is_interest
              then (s1.dropped_interests ++ net.pkt ∷ [])
              else s1.dropped_interests;
        }),
      )

  -- The fragment is to be among those of its network packet, which the code asserts.
  unfoldable pub retransmit_frag :
      ℕ → ℕ → UnackedFrag H → NetPkt H → LpReliability H → Option (List ℕ × LpReliability H)
  retransmit_frag now k frag net s = elim (assign_tx_sequence frag.pkt s) [
    | none ↦ none
    | some (p, s1) ↦
        let j = s1.last_tx_seq_no in
        let again =
          new_unacked_frag p now (estimated_rto s1.rtt_measurements) (frag.retx_count + 1)
            frag.net_pkt in
        let s2 = record s1 { unacked_frags = emplace_at j again s1.unacked_frags } in
        let s3 =
          modify_net_pkt frag.net_pkt
            (λ n. record n { unacked_frags = replace_in k j n.unacked_frags; did_retx = true })
            s2 in
        let s4 = delete_unacked_frag k s3 in
        if not (is_among k net.unacked_frags)
        then none
        else some (k ∷ [], record s4 { sent = s4.sent ++ p ∷ [] })
  ]

  -- `isTimeout` is for the log only.
  unfoldable pub on_lp_packet_lost : ℕ → ℕ → LpReliability H → Option (List ℕ × LpReliability H)
  on_lp_packet_lost now k s = elim (find_at k s.unacked_frags) [
    | none ↦ none
    | some frag ↦ elim (get_elem? s.net_pkts frag.net_pkt) [
      | none ↦ none
      | some net ↦
          if leb s.options.max_retx frag.retx_count
          then some (give_up k frag net s)
          else retransmit_frag now k frag net s
    ]
  ]
