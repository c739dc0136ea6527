-- ===== src/Link/Acks.antt =====
-- The receiving side of daemon/face/lp-reliability.cpp: Acks, the fragments that they show to be lost, and the
-- queue of Acks to send.
use nfd_out_of_the_box.Prelude.{
  length, set, is_empty, get_elem?, ℕ, ◌+◌, ◌-◌, Bool, true, false, not, Option, none, some, List,
  [], ◌∷◌, ◌++◌, map, ltb, leb, ◌==◌, if◌then◌else◌, zero, suc,
}
use nfd_out_of_the_box.Link.Reliability.{
  keys_before, swap_remove, emplace_at, on_lp_packet_lost, keys_from, delete_unacked_frag, find_at,
  is_among, modify_at, take_until, ReliabilityOptions, LpPacket, erase_at, UnackedFrag,
  LpReliability,
}

abbrev pub is_there : Option ℕ → Bool
is_there none = false
is_there (some k) = true

-- The sequences that came longer ago than the RTO leave the memory of recent ones.
unfoldable pub forget_old : ℕ → List ℕ → List (ℕ × ℕ) → List ℕ × List (ℕ × ℕ)
forget_old limit [] recent = ([], recent)
forget_old limit (k ∷ ks) recent =
    let rest = forget_old limit ks (erase_at k recent) in
    if ltb (elim (find_at k recent) [ none ↦ 0 | some t ↦ t ]) limit then rest else (k ∷ ks, recent)

module _ {H : Type 0} (estimated_rto : List ℕ → ℕ) where
  unfoldable pub count_ack : Bool → Bool → LpReliability H → LpReliability H
  count_ack false did_retx s = s
  count_ack true false s = record s { n_acknowledged = s.n_acknowledged + 1 }
  count_ack true true s = record s { n_retransmitted = s.n_retransmitted + 1 }

  -- The fragment is to be among those of its network packet, which the code asserts.
  unfoldable pub on_lp_packet_acknowledged :
      ℕ → UnackedFrag H → LpReliability H → Option (LpReliability H)
  on_lp_packet_acknowledged k frag s = elim (get_elem? s.net_pkts frag.net_pkt) [
    | none ↦ none
    | some net ↦
        let left = swap_remove k net.unacked_frags in
        if not (is_among k net.unacked_frags)
        then none
        else some (
            delete_unacked_frag k (
              count_ack (is_empty left) net.did_retx (record s {
                net_pkts = set s.net_pkts frag.net_pkt (record net { unacked_frags = left });
              })))
  ]

  -- The keys from the start of the window up to a key, round the end of the map.
  unfoldable pub window_before : Option ℕ → ℕ → List (ℕ × UnackedFrag H) → List ℕ
  window_before none k frags = take_until k (map (λ y. y.0) frags)
  window_before (some f) k frags = take_until k (keys_from f frags ++ keys_before f frags)

  unfoldable pub count_greater_acks :
      ℕ → List ℕ → List (ℕ × UnackedFrag H) → List (ℕ × UnackedFrag H) × List ℕ
  count_greater_acks threshold [] frags = (frags, [])
  count_greater_acks threshold (j ∷ js) frags =
      let counted =
        modify_at j (λ f. record f { n_greater_seq_acks = f.n_greater_seq_acks + 1 }) frags in
      let (rest, lost) = count_greater_acks threshold js counted in
      (
        rest,
        elim (find_at j counted) [
          | none ↦ lost
          | some f ↦ if leb threshold f.n_greater_seq_acks then (j ∷ lost) else lost
        ],
      )

  unfoldable pub find_lost_lp_packets : ℕ → LpReliability H → List ℕ × LpReliability H
  find_lost_lp_packets k s =
      let (frags, lost) =
        count_greater_acks s.options.seq_num_loss_threshold
          (window_before s.first_unacked_frag k s.unacked_frags) s.unacked_frags in
      (lost, record s { unacked_frags = frags })

  -- `removed` is `removedLpPackets`.
  unfoldable pub handle_lost : ℕ → List ℕ → List ℕ → LpReliability H → Option (LpReliability H)
  handle_lost now [] removed s = some s
  handle_lost now (j ∷ js) removed s =
      if is_among j removed
      then handle_lost now js removed s
      else elim (on_lp_packet_lost estimated_rto now j s) [
        | none ↦ none
        | some (more, s1) ↦ handle_lost now js (removed ++ more) s1
      ]

  unfoldable pub process_ack : ℕ → ℕ → LpReliability H → Option (LpReliability H)
  process_ack now k s = elim (find_at k s.unacked_frags) [
    | none ↦ some s
    | some frag ↦
        let s1 =
          if frag.retx_count == 0
          then record s { rtt_measurements = s.rtt_measurements ++ (now - frag.send_time) ∷ [] }
          else s in
        let (lost, s2) = find_lost_lp_packets k s1 in
        elim (on_lp_packet_acknowledged k frag s2) [
          | none ↦ none
          | some s3 ↦ handle_lost now lost [] s3
        ]
  ]

  unfoldable pub process_acks : ℕ → List ℕ → LpReliability H → Option (LpReliability H)
  process_acks now [] s = some s
  process_acks now (k ∷ ks) s = elim (process_ack now k s) [
    | none ↦ none
    | some s1 ↦ process_acks now ks s1
  ]

  -- The Bool says that the Sequence is a duplicate. `now > received + rto` is `received < now - rto`.
  unfoldable pub note_sequence : ℕ → Option ℕ → LpReliability H → Bool × LpReliability H
  note_sequence now none s = (false, s)
  note_sequence now (some k) s =
      let (queue, recent) =
        forget_old (now - estimated_rto s.rtt_measurements) s.recent_recv_seqs_queue
          s.recent_recv_seqs in
      (
        is_there (find_at k s.recent_recv_seqs),
        record s {
          recent_recv_seqs = emplace_at k now recent;
          recent_recv_seqs_queue = queue ++ k ∷ [];
        },
      )

  unfoldable pub start_idle_ack_timer : ℕ → LpReliability H → LpReliability H
  start_idle_ack_timer now s = elim s.idle_ack_timer [
    | none ↦ record s { idle_ack_timer = some (now + s.options.idle_ack_timer_period) }
    | some _ ↦ s
  ]

  -- A fragment with a TxSequence is acknowledged later.
  unfoldable pub note_fragment : ℕ → LpPacket H → LpReliability H → Bool × LpReliability H
  note_fragment now p s = elim p.tx_sequence [
    | none ↦ (true, s)
    | some k ↦
        if p.has_fragment
        then (
          not (note_sequence now p.sequence (record s { ack_queue = s.ack_queue ++ k ∷ [] })).0,
          start_idle_ack_timer now
              (note_sequence now p.sequence (record s { ack_queue = s.ack_queue ++ k ∷ [] })).1,
        )
        else (true, s)
  ]

  -- The Bool is the result: whether the packet is no duplicate.
  unfoldable pub process_incoming_packet :
      ℕ → LpPacket H → LpReliability H → Option (Bool × LpReliability H)
  process_incoming_packet now p s = elim (process_acks now p.acks s) [
    | none ↦ none
    | some s1 ↦ some (note_fragment now p s1)
  ]

-- The loop over the queue: the Acks that are added and those that stay.
unfoldable pub take_acks : ℕ → ℕ → List ℕ → List ℕ × List ℕ
take_acks ack_size space [] = ([], [])
take_acks ack_size space (k ∷ ks) =
    let rest = take_acks ack_size (space - ack_size) ks in
    if ltb space ack_size then ([], k ∷ ks) else (k ∷ rest.0, rest.1)

module _ {H : Type 0} where
  -- The size of the packet, the limit, which is `mtu` or `MAX_NDN_PACKET_SIZE`, and the space kept for longer
  -- lengths come from ndn-cxx's encoder. A negative remaining space is less than any Ack, as 0 is.
  unfoldable pub piggyback :
      ℕ → ℕ → ℕ → ℕ → LpPacket H → LpReliability H → LpPacket H × LpReliability H
  piggyback ack_size limit reserved size p s =
      let (added, left) = take_acks ack_size (limit - reserved - size) s.ack_queue in
      (record p { acks = p.acks ++ added }, record s { ack_queue = left })

  -- The loop of the idle Ack timer: `requestIdlePacket` sends a packet without a Fragment, `idle`, to which Acks
  -- are added. Each packet takes an Ack at least, so that the length of the queue is fuel enough.
  unfoldable pub send_idle_packets :
      ℕ → ℕ → ℕ → ℕ → LpPacket H → ℕ → LpReliability H → List (LpPacket H) × LpReliability H
  send_idle_packets ack_size limit reserved size idle zero s = ([], s)
  send_idle_packets ack_size limit reserved size idle (suc n) s =
      let r =
        send_idle_packets ack_size limit reserved size idle n
          (piggyback ack_size limit reserved size idle s).1 in
      if is_empty s.ack_queue
      then ([], s)
      else ((piggyback ack_size limit reserved size idle s).0 ∷ r.0, r.1)

  -- The callback of the idle Ack timer, which no longer runs.
  unfoldable pub on_idle_ack_timeout :
      ℕ → ℕ → ℕ → ℕ → LpPacket H → LpReliability H → List (LpPacket H) × LpReliability H
  on_idle_ack_timeout ack_size limit reserved size idle s =
      send_idle_packets ack_size limit reserved size idle (length s.ack_queue)
        (record s { idle_ack_timer = none })

  unfoldable pub set_options : Bool → ReliabilityOptions → LpReliability H → LpReliability H
  set_options is_disabled options s = record s {
    options = options;
    idle_ack_timer = if is_disabled then none else s.idle_ack_timer;
  }
