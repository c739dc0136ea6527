-- ===== src/Link/Fragmenter/Payload.antt =====
-- The fragments of a packet: their numbers, their sizes and their bytes.
use nfd_out_of_the_box.Link.Packets.{Packet, empty_packet}
use nfd_out_of_the_box.Link.Reassembler.{do_reassembly}
use nfd_out_of_the_box.Link.Fragmenter.{
  Element, first_header_size, frag_count_of, populate, fragment_packet, max_single_frag_overhead,
  max_frag_overhead,
}
use native.Mathlib.Nat.{div-add-mod', mod-lt}
use nfd_out_of_the_box.Prelude.{
  take-append-drop, length-take, length-drop, drop, length, ℕ, zero, suc, ◌+◌, ◌-◌, ◌*◌, ◌/◌, ◌%◌,
  ◌≤◌, ◌<◌, min, ◌≡◌, refl, ◌⊎◌, inl, inr, none, some, List, [], ◌∷◌, arith, ltb, leb, ◌==◌,
  if◌then◌else◌, Bool-cases,
}

-- The sizes for which the loop fills exactly `left` fragments.
abbrev Needs : ℕ → ℕ → ℕ → ℕ → Type 0
Needs bytes zero size payload_size = bytes ≡ 0
Needs bytes (suc zero) size payload_size = (0 < bytes) × (bytes ≤ size)
Needs bytes (suc (suc n)) size payload_size =
    (size + n * payload_size < bytes) × (bytes ≤ size + (suc n) * payload_size)

Needs-next :
    (bytes left size payload_size : ℕ)
    → 0 < payload_size
    → Needs bytes (suc left) size payload_size
    → Needs (bytes - size) left payload_size payload_size
Needs-next bytes zero size payload_size pos h = omega arith
Needs-next bytes (suc zero) size payload_size pos h = (omega arith, omega arith)
Needs-next bytes (suc (suc n)) size payload_size pos h = (omega arith, omega arith)

Needs-byte :
    (bytes left size payload_size : ℕ) → Needs bytes (suc left) size payload_size → 0 < bytes
Needs-byte bytes zero size payload_size h = h.0
Needs-byte bytes (suc n) size payload_size h = omega arith

Needs-count :
    (bytes first payload_size count q r : ℕ)
    → 0 < first
    → r < payload_size
    → bytes ≡ first + (q * payload_size + r)
    → count ≡ 1 + q + (if r == 0 then 0 else 1)
    → Needs bytes count first payload_size
Needs-count bytes first payload_size zero q r s lt e c = absurd (ground arith)
Needs-count bytes first payload_size (suc zero) q r s lt e c =
    let q0 : q ≡ 0 = ground arith in let r0 : r ≡ 0 = ground arith in rw (e, q0, r0) (omega arith)
Needs-count bytes first payload_size (suc (suc n)) q r s lt e c = elim (Bool-cases (r == 0)) [
  | inl exact ↦
      let qn : q ≡ suc n = ground arith in
      let r0 : r ≡ 0 = ground arith in rw (e, qn, r0) (omega arith, omega arith)
  | inr more ↦
      let qn : q ≡ n = ground arith in
      let rp : 0 < r = ground arith in rw (e, qn) (omega arith, omega arith)
]

Needs-all :
    (size first payload_size : ℕ)
    → 0 < first
    → 0 < payload_size
    → first ≤ size
    → Needs size (frag_count_of size first payload_size) first payload_size
unfolding frag_count_of
Needs-all size first payload_size s pos le =
    Needs-count size first payload_size _ ((size - first) / payload_size)
      ((size - first) % payload_size) s (mod-lt _ pos)
      (omega (arith, div-add-mod' (size - first) payload_size)) refl

module _ {H : Type 0} where
  -- Fragments numbered from `index` on, of a packet of `count` of them, each with some byte and at
  -- most `size` of them, the later ones at most `payload_size`. Only the first, numbered 0, has the
  -- other fields of `p`.
  abbrev pub AreFragments : Packet H → ℕ → ℕ → ℕ → ℕ → List (Packet H) → Type 0
  AreFragments p count index size payload_size [] = index ≡ count
  AreFragments p count index size payload_size (f ∷ fs) =
      (f.frag_index ≡ some index)
      × (f.frag_count ≡ some count)
      × (f.sequence ≡ p.sequence)
      × (f.headers ≡ p.headers)
      × (0 < length f.fragment)
      × (length f.fragment ≤ size)
      × AreFragments empty_packet count (index + 1) payload_size payload_size fs

  populate_lem :
      (left : ℕ) (p : Packet H) (index count size payload_size : ℕ) (rest : List ℕ)
      → 0 < size
      → 0 < payload_size
      → index + left ≡ count
      → Needs (length rest) left size payload_size
      → AreFragments p count index size payload_size
          (populate left p index count size payload_size rest)
        × (do_reassembly (populate left p index count size payload_size rest) ≡ rest)
  unfolding populate do_reassembly
  populate_lem zero p index count size payload_size [] s pos e h = (omega arith, refl)
  populate_lem zero p index count size payload_size (b ∷ rest) s pos e h = absurd (omega arith)
  populate_lem (suc left) p index count size payload_size [] s pos e h =
      absurd (let n = Needs-byte 0 left size payload_size h in omega arith)
  populate_lem (suc left) p index count size payload_size (b ∷ rest) s pos e h =
      let (frags, bytes) =
        populate_lem left empty_packet (index + 1) count payload_size payload_size
          (drop size (b ∷ rest)) pos pos (omega arith)
          (rw (length-drop size (b ∷ rest))
            (Needs-next (suc (length rest)) left size payload_size pos h)) in
      let l = length-take size (b ∷ rest) in
      (
        (refl, refl, refl, refl, omega arith, omega arith, frags),
        rw bytes (take-append-drop size (b ∷ rest)),
      )

  AreFragments-size :
      (fs : List (Packet H)) (p : Packet H) (count index size size' payload_size : ℕ)
      → size ≤ size'
      → AreFragments p count index size payload_size fs
      → AreFragments p count index size' payload_size fs
  AreFragments-size [] p count index size size' payload_size le h = h
  AreFragments-size (f ∷ fs) p count index size size' payload_size le h =
      (h.0, h.1, h.2, h.3, h.4, omega arith, h.6)

  AreFragments-length :
      (fs : List (Packet H)) (p : Packet H) (count index size payload_size : ℕ)
      → AreFragments p count index size payload_size fs
      → index + length fs ≡ count
  AreFragments-length [] p count index size payload_size h = omega (arith, h)
  AreFragments-length (f ∷ fs) p count index size payload_size h =
      omega (
        arith,
        AreFragments-length fs empty_packet count (index + 1) payload_size payload_size (h.6),
      )

module _ {H : Type 0} (wire_size : Packet H → ℕ) (elements : Packet H → List Element)
    (n_max_fragments : ℕ) (p : Packet H) (mtu : ℕ) where
  abbrev header : ℕ
  header = first_header_size (elements p)

  -- The room for payload in the first fragment and in each other one.
  abbrev pub first_room : ℕ
  first_room = mtu - header - max_frag_overhead

  abbrev pub other_room : ℕ
  other_room = mtu - max_frag_overhead

  slow_path :
      0 < length p.fragment
      → max_frag_overhead + header + 1 ≤ mtu
      → Needs
          (length p.fragment)
          (frag_count_of (length p.fragment) (min (length p.fragment) first_room) other_room)
          (min (length p.fragment) first_room)
          other_room
  slow_path some_byte fits =
      Needs-all (length p.fragment) (min (length p.fragment) first_room) other_room (omega arith)
        (omega arith) (omega arith)

  count : ℕ
  count = frag_count_of (length p.fragment) (min (length p.fragment) first_room) other_room

  slow_frags : List (Packet H)
  unfolding count
  slow_frags = populate count p 0 count (min (length p.fragment) first_room) other_room p.fragment

  slow_frags_lem :
      0 < length p.fragment
      → max_frag_overhead + header + 1 ≤ mtu
      → AreFragments p count 0 first_room other_room slow_frags
        × (do_reassembly slow_frags ≡ p.fragment)
  unfolding slow_frags
  slow_frags_lem some_byte fits =
      let (numbered, bytes) =
        populate_lem count p 0 count (min (length p.fragment) first_room) other_room p.fragment
          (omega arith) (omega arith) (omega arith) (slow_path some_byte fits) in
      (AreFragments-size slow_frags p count 0 _ first_room other_room (omega arith) numbered, bytes)

  fragment_packet-cases :
      ((fragment_packet wire_size elements n_max_fragments p mtu ≡ some (p ∷ []))
        × (max_single_frag_overhead + wire_size p ≤ mtu))
      ⊎ (fragment_packet wire_size elements n_max_fragments p mtu ≡ none)
      ⊎ ((fragment_packet wire_size elements n_max_fragments p mtu ≡ some slow_frags)
          × (mtu < max_single_frag_overhead + wire_size p)
          × (max_frag_overhead + header + 1 ≤ mtu)
          × (count ≤ n_max_fragments))
  unfolding fragment_packet slow_frags
  fragment_packet-cases = elim (Bool-cases (leb (max_single_frag_overhead + wire_size p) mtu)) [
    | inl whole ↦ inl (rw whole, ground arith)
    | inr slow ↦ inr (elim (Bool-cases (ltb mtu (max_frag_overhead + header + 1))) [
      | inl small ↦ inl (rw (slow, small))
      | inr fits ↦ elim (Bool-cases (ltb n_max_fragments count)) [
        | inl over ↦ inl (rw (slow, fits, over))
        | inr within ↦ inr (rw (slow, fits, within), ground arith, ground arith, ground arith)
      ]
    ])
  ]

  -- A packet with some payload that is fragmented goes out whole when it fits the MTU with room for
  -- a Sequence, and is split only when it does not. The fragments are then numbered from 0 to FragCount - 1 with FragCount no more
  -- than the limit, each has a byte at least, the first keeps the other fields and all fit the MTU
  -- with their headers, and their payloads joined in order are the payload of the packet.
  pub fragment_packet_lem :
      (frags : List (Packet H))
      → 0 < length p.fragment
      → fragment_packet wire_size elements n_max_fragments p mtu ≡ some frags
      → ((frags ≡ p ∷ []) × (max_single_frag_overhead + wire_size p ≤ mtu))
        ⊎ ((mtu < max_single_frag_overhead + wire_size p)
            × AreFragments p (length frags) 0 first_room other_room frags
            × (length frags ≤ n_max_fragments)
            × (max_frag_overhead + first_header_size (elements p) + first_room ≤ mtu)
            × (max_frag_overhead + other_room ≤ mtu)
            × (do_reassembly frags ≡ p.fragment))
  fragment_packet_lem frags some_byte h = elim fragment_packet-cases [
    | inl (whole, fits) ↦ inl (cc, fits)
    | inr (inl fails) ↦ absurd (cc)
    | inr (inr (runs, over, fits, within)) ↦
        let e : slow_frags ≡ frags = cc in
        let (numbered, bytes) = slow_frags_lem some_byte fits in
        let n : length slow_frags ≡ count =
          omega (arith, AreFragments-length slow_frags p count 0 first_room other_room numbered) in
        inr (rw (← e) (over, rw n numbered, omega (arith, n), omega arith, omega arith, bytes))
  ]
