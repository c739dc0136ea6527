-- ===== src/Link/RoundTrip.antt =====
-- A packet that is fragmented, numbered and reassembled.
use nfd_out_of_the_box.Link.Packets.{Packet, empty_packet, assign_sequences}
use nfd_out_of_the_box.Link.Fragmenter.{Element, fragment_packet}
use nfd_out_of_the_box.Link.Fragmenter.Payload.{
  AreFragments, fragment_packet_lem, first_room, other_room,
}
use nfd_out_of_the_box.Link.Reassembler.{Options, PartialPacket, Key, find, do_reassembly, get_or}
use nfd_out_of_the_box.Link.Reassembler.Slots.{AreSent}
use nfd_out_of_the_box.Link.Reassembler.Order.{IsTimely, deliver, deliver_any_order, IsOrder}
use nfd_out_of_the_box.Prelude.{
  length, ℕ, suc, ◌+◌, ◌-◌, ◌%◌, ◌^◌, ◌≤◌, ◌<◌, ◌≡◌, refl, sym, ap, ◌∙◌, inl, inr, none, some, List,
  [], ◌∷◌, ◌++◌, arith,
}

module _ {H : Type 0} where
  assign_sequences-AreSent :
      (fs : List (Packet H)) (p : Packet H) (count index size payload_size last message : ℕ)
      → index + length fs ≤ 2 ^ 64
      → (last + 1 + 2 ^ 64 - index) % 2 ^ 64 ≡ message
      → AreFragments p count index size payload_size fs
      → AreSent count index message (assign_sequences last fs)
  unfolding assign_sequences
  assign_sequences-AreSent [] p count index size payload_size last message le e h = tt
  assign_sequences-AreSent (f ∷ fs) p count index size payload_size last message le e h = (
    h.0,
    h.1,
    ((last + 1) % 2 ^ 64, refl, omega arith),
    assign_sequences-AreSent fs empty_packet count (index + 1) payload_size payload_size
        ((last + 1) % 2 ^ 64) message (omega arith) (omega arith) h.6,
  )

  length-assign_sequences :
      (last : ℕ) (fs : List (Packet H)) → length (assign_sequences last fs) ≡ length fs
  unfolding assign_sequences
  length-assign_sequences last [] = refl
  length-assign_sequences last (f ∷ fs) = ap suc (length-assign_sequences ((last + 1) % 2 ^ 64) fs)

  do_reassembly-assign_sequences :
      (last : ℕ) (fs : List (Packet H))
      → do_reassembly (assign_sequences last fs) ≡ do_reassembly fs
  unfolding assign_sequences do_reassembly
  do_reassembly-assign_sequences last [] = refl
  do_reassembly-assign_sequences last (f ∷ fs) =
      ap (◌++◌ f.fragment) (do_reassembly-assign_sequences ((last + 1) % 2 ^ 64) fs)

  first_headers :
      (fs : List (Packet H)) (p : Packet H) (count size payload_size last : ℕ)
      → 0 < length fs
      → AreFragments p count 0 size payload_size fs
      → (get_or (assign_sequences last fs) 0).headers ≡ p.headers
  unfolding assign_sequences
  first_headers [] p count size payload_size last pos h = absurd (omega arith)
  first_headers (f ∷ fs) p count size payload_size last pos h = h.3

module _ {H : Type 0} (wire_size : Packet H → ℕ) (elements : Packet H → List Element)
    (n_max_fragments : ℕ) (p : Packet H) (mtu last endpoint : ℕ) (o : Options) where
  -- A packet with some payload that `fragmentPacket` splits into two or more fragments, numbered by
  -- `assignSequences` from any last sequence number and received by an endpoint whose limit is no
  -- smaller and that has no partial packet with that identifier: whatever the order in which the
  -- fragments arrive, each once and each sooner than the reassembly timeout after the one before, the
  -- receiver gets the payload and the other NDNLPv2 fields of the packet.
  pub fragment-reassemble :
      (frags : List (Packet H)) (order : List (ℕ × ℕ)) (m : List (Key × PartialPacket H))
      → 0 < length p.fragment
      → fragment_packet wire_size elements n_max_fragments p mtu ≡ some frags
      → 2 ≤ length frags
      → n_max_fragments ≤ o.n_max_fragments
      → n_max_fragments ≤ 2 ^ 64
      → find (record { endpoint = endpoint; message = (last + 1) % 2 ^ 64 }) m ≡ none
      → IsOrder (length frags) order
      → IsTimely o.reassembly_timeout order
      → length order ≡ length frags
      → (first : Packet H) × ((deliver o endpoint (assign_sequences last frags) order m).1
          ≡ some (p.fragment, first))
        × (first.headers ≡ p.headers)
  fragment-reassemble frags order m some_byte runs several limit small absent is soon all =
      elim (fragment_packet_lem wire_size elements n_max_fragments p mtu frags some_byte runs) [
        | inl (one, _) ↦ absurd (let l = ap length one in omega arith)
        | inr (_, numbered, within, _, _, bytes) ↦
            let sent =
              assign_sequences-AreSent frags p (length frags) 0
                (first_room wire_size elements n_max_fragments p mtu)
                (other_room wire_size elements n_max_fragments p mtu) last ((last + 1) % 2 ^ 64)
                (omega arith) (omega arith) numbered in
            let n = length-assign_sequences last frags in
            let given =
              deliver_any_order o endpoint ((last + 1) % 2 ^ 64) (assign_sequences last frags)
                (omega (arith, n)) (omega (arith, n)) (rw n sent) order m absent (rw n is) soon
                (all ∙ sym n) in
            let e = do_reassembly-assign_sequences last frags ∙ bytes in
            (
              get_or (assign_sequences last frags) 0,
              rw e at given,
              first_headers frags p (length frags)
                  (first_room wire_size elements n_max_fragments p mtu)
                  (other_room wire_size elements n_max_fragments p mtu) last (omega arith) numbered,
            )
      ]
