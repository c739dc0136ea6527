-- ===== src/Link/Fragmenter.antt =====
-- daemon/face/lp-fragmenter.cpp. The wire size and the elements of a packet's encoding come from
-- ndn-cxx and are parameters.
pub mod Payload
use nfd_out_of_the_box.Link.Packets.{Packet, empty_packet}
use nfd_out_of_the_box.Prelude.{
  drop, take, length, replicate, ℕ, zero, suc, ◌+◌, ◌-◌, ◌*◌, ◌/◌, ◌%◌, ◌^◌, ◌≤◌, ◌<◌, min, max,
  ◌≡◌, refl, sym, ap, ◌∙◌, subst, ◌≢◌, ◌↔◌, ◌⊎◌, inl, inr, Bool, true, false, not, ◌&&◌, ◌||◌,
  Option, none, some, List, [], ◌∷◌, ◌++◌, map, arith, ltb, leb, ◌==◌, if◌then◌else◌, Bool-cases,
  Option-cases, ==_iff,
}

abbrev pub max_single_frag_overhead : ℕ
max_single_frag_overhead = (1 + 9) + (1 + 1 + 8) + (1 + 9)

abbrev pub max_frag_overhead : ℕ
max_frag_overhead = (1 + 9) + (1 + 1 + 8) + (1 + 1 + 8) + (1 + 1 + 8) + (1 + 9)

-- The type and the size of a TLV element.
pub record Element : Type 0 where
  pub is_fragment : Bool
  pub size : ℕ

-- The sizes of the elements other than Fragment.
unfoldable pub first_header_size : List Element → ℕ
first_header_size [] = 0
first_header_size (x ∷ xs) =
    if x.is_fragment then first_header_size xs else x.size + first_header_size xs

unfoldable pub frag_count_of : ℕ → ℕ → ℕ → ℕ
frag_count_of size first_payload_size payload_size =
    1
    + (size - first_payload_size) / payload_size
    + (if (size - first_payload_size) % payload_size == 0 then 0 else 1)

module _ {H : Type 0} where
  abbrev pub with_fields : ℕ → ℕ → List ℕ → Packet H → Packet H
  with_fields index count bytes p = record p {
    frag_index = some index;
    frag_count = some count;
    fragment = bytes;
  }

  -- The loop over the vector, `left` elements of which are still default-constructed: it takes
  -- `size` bytes off `rest` for the fragment `index`, and stops at the end of the network packet.
  unfoldable pub populate : ℕ → Packet H → ℕ → ℕ → ℕ → ℕ → List ℕ → List (Packet H)
  populate zero p index count size payload_size rest = []
  populate (suc left) p index count size payload_size [] = p ∷ replicate left empty_packet
  populate (suc left) p index count size payload_size (b ∷ rest) =
      with_fields index count (take size (b ∷ rest)) p
      ∷ populate left empty_packet (index + 1) count payload_size payload_size
          (drop size (b ∷ rest))

module _ {H : Type 0} (wire_size : Packet H → ℕ) (elements : Packet H → List Element) where
  -- `none` is the result (false, {}). `elements` is empty for an encoding that is no LpPacket.
  unfoldable pub fragment_packet : ℕ → Packet H → ℕ → Option (List (Packet H))
  unfolding first_header_size frag_count_of populate
  fragment_packet n_max_fragments p mtu =
      let header = first_header_size (elements p) in
      let size = length p.fragment in
      let first_payload_size = min size (mtu - header - max_frag_overhead) in
      let payload_size = mtu - max_frag_overhead in
      let frag_count = frag_count_of size first_payload_size payload_size in
      if leb (max_single_frag_overhead + wire_size p) mtu
      then some (p ∷ [])
      else if ltb mtu (max_frag_overhead + header + 1)
      then none
      else if ltb n_max_fragments frag_count
      then none
      else some (populate frag_count p 0 frag_count first_payload_size payload_size p.fragment)
