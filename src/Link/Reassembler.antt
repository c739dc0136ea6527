-- ===== src/Link/Reassembler.antt =====
-- daemon/face/lp-reassembler.cpp. A remote endpoint is a number that tells endpoints apart; the
-- parse of the reassembled bytes into a Block is ndn-cxx's.
pub mod Slots
pub mod Timers
pub mod Order
use nfd_out_of_the_box.Link.Packets.{Packet, empty_packet}
use nfd_out_of_the_box.Prelude.{
  set, replicate, ℕ, zero, suc, ◌+◌, ◌-◌, ◌*◌, ◌/◌, ◌%◌, ◌^◌, ◌≤◌, ◌<◌, min, max, ◌≡◌, refl, sym,
  ap, ◌∙◌, subst, ◌≢◌, ◌↔◌, ◌⊎◌, inl, inr, Bool, true, false, not, ◌&&◌, ◌||◌, Option, none, some,
  List, [], ◌∷◌, ◌++◌, map, arith, ltb, leb, ◌==◌, if◌then◌else◌, Bool-cases, Option-cases, ==_iff,
}

pub record Options : Type 0 where
  pub n_max_fragments : ℕ
  pub reassembly_timeout : ℕ

-- The drop timer is the time at which `timeoutPartialPacket` is scheduled.
pub record PartialPacket (H : Type 0) : Type 0 where
  pub fragments : List (Packet H)
  pub frag_count : ℕ
  pub n_received_fragments : ℕ
  pub drop_timer : Option ℕ

pub record Key : Type 0 where
  pub endpoint : ℕ
  pub message : ℕ

abbrev pub key_eq : Key → Key → Bool
key_eq a b = a.endpoint == b.endpoint && a.message == b.message

abbrev pub value_or : ℕ → Option ℕ → ℕ
value_or d none = d
value_or d (some x) = x

module _ {H : Type 0} where
  -- The std::map over `Key`.
  unfoldable pub find : Key → List (Key × PartialPacket H) → Option (PartialPacket H)
  find k [] = none
  find k ((j, pp) ∷ m) = if key_eq j k then some pp else find k m

  unfoldable pub put :
      Key → PartialPacket H → List (Key × PartialPacket H) → List (Key × PartialPacket H)
  put k pp [] = (k, pp) ∷ []
  put k pp ((j, qq) ∷ m) = if key_eq j k then (k, pp) ∷ m else (j, qq) ∷ put k pp m

  unfoldable pub erase : Key → List (Key × PartialPacket H) → List (Key × PartialPacket H)
  erase k [] = []
  erase k ((j, qq) ∷ m) = if key_eq j k then m else (j, qq) ∷ erase k m

  -- `doReassembly`: the payloads in the order of the fragments.
  unfoldable pub do_reassembly : List (Packet H) → List ℕ
  do_reassembly [] = []
  do_reassembly (p ∷ ps) = p.fragment ++ do_reassembly ps

  abbrev pub has_sequence : Packet H → Bool
  has_sequence p = elim p.sequence [ none ↦ false | some s ↦ true ]

  abbrev pub get_or : List (Packet H) → ℕ → Packet H
  get_or [] i = empty_packet
  get_or (p ∷ ps) zero = p
  get_or (p ∷ ps) (suc i) = get_or ps i

  -- `m_partialPackets[key]`, filled in if it is new.
  unfoldable pub partial_packet : Key → ℕ → List (Key × PartialPacket H) → PartialPacket H
  partial_packet k frag_count m = elim (find k m) [
    | some pp ↦ pp
    | none ↦ record {
      fragments = replicate frag_count empty_packet;
      frag_count = frag_count;
      n_received_fragments = 0;
      drop_timer = none;
    }
  ]

  -- From the addition to the PartialPacket on.
  unfoldable pub add_fragment :
      Options
      → ℕ
      → Key
      → ℕ
      → ℕ
      → Packet H
      → List (Key × PartialPacket H)
      → List (Key × PartialPacket H) × Option (List ℕ × Packet H)
  unfolding do_reassembly partial_packet
  add_fragment o now k frag_index frag_count p m =
      let pp = partial_packet k frag_count m in
      let filled = set pp.fragments frag_index p in
      let received = pp.n_received_fragments + 1 in
      if not (frag_count == pp.frag_count)
      then (m, none)
      else if has_sequence (get_or pp.fragments frag_index)
      then (m, none)
      else if received == pp.frag_count
      then (erase k m, some (do_reassembly filled, get_or filled 0))
      else (
        put k
            (record {
              fragments = filled;
              frag_count = pp.frag_count;
              n_received_fragments = received;
              drop_timer = some (now + o.reassembly_timeout);
            })
            m,
        none,
      )

  -- The map and, for (true, packet, first fragment), the packet's bytes and the first fragment.
  unfoldable pub receive_fragment :
      Options
      → ℕ
      → ℕ
      → Packet H
      → List (Key × PartialPacket H)
      → List (Key × PartialPacket H) × Option (List ℕ × Packet H)
  unfolding add_fragment
  receive_fragment o now endpoint p m =
      let frag_index = value_or 0 p.frag_index in
      let frag_count = value_or 1 p.frag_count in
      if leb frag_count frag_index
      then (m, none)
      else if ltb o.n_max_fragments frag_count
      then (m, none)
      else if frag_index == 0 && frag_count == 1
      then (m, some (p.fragment, p))
      else elim p.sequence [
        | none ↦ (m, none)
        | some sequence ↦
            add_fragment o now
              (record { endpoint = endpoint; message = (sequence + 2 ^ 64 - frag_index) % 2 ^ 64 })
              frag_index frag_count p m
      ]

  -- The map and the endpoint and count that `beforeTimeout` signals.
  unfoldable pub timeout_partial_packet :
      Key → List (Key × PartialPacket H) → List (Key × PartialPacket H) × Option (ℕ × ℕ)
  timeout_partial_packet k m = elim (find k m) [
    | none ↦ (m, none)
    | some pp ↦ (erase k m, some (k.endpoint, pp.n_received_fragments))
  ]

  -- Whether the drop timer of a partial packet has run out.
  abbrev pub is_due : ℕ → Option (PartialPacket H) → Bool
  is_due now none = false
  is_due now (some pp) = elim pp.drop_timer [ none ↦ false | some t ↦ leb t now ]

  abbrev pub fire : ℕ → Key → List (Key × PartialPacket H) → List (Key × PartialPacket H)
  fire now k m = if is_due now (find k m) then (timeout_partial_packet k m).0 else m

  unfoldable pub fire_all :
      ℕ → List Key → List (Key × PartialPacket H) → List (Key × PartialPacket H)
  fire_all now [] m = m
  fire_all now (k ∷ ks) m = fire_all now ks (fire now k m)

  -- The scheduler calls `timeoutPartialPacket` for each partial packet whose drop timer has run out.
  unfoldable pub run_timers : ℕ → List (Key × PartialPacket H) → List (Key × PartialPacket H)
  run_timers now m = fire_all now (map (λ e. e.0) m) m
