-- ===== src/Forwarder/OutgoingNacks.antt =====
-- What `onOutgoingNack` sends.
use nfd_out_of_the_box.Packet.{FaceRef, Interest, NackReason, is_point_to_point}
use nfd_out_of_the_box.Pit.{Entry, InRecord, in_face, get_in_record, delete_in_record}
use nfd_out_of_the_box.Pit.Laws.{IsValid}
use nfd_out_of_the_box.Pit.Distinct.{find_record-delete_record}
use nfd_out_of_the_box.Forwarder.{on_outgoing_nack, Forwarder, Parts, nack_on}
use nfd_out_of_the_box.Prelude.{
  ◌≡◌, refl, ◌≢◌, ◌⊎◌, inl, inr, true, none, some, [], ◌∷◌, ◌++◌, arith, ◌==◌, Bool-cases,
  Option-cases,
}

module _ {N : Type 0} {C : Type 0} (x : Parts N C) where
  -- What an outgoing Nack does, on a valid entry: nothing; or, on a point-to-point face with an
  -- identifier and an in-record, it sends the Interest of that in-record with the reason, and
  -- deletes the in-record, so that a second Nack does nothing.
  pub on_outgoing_nack_lem :
      (f : FaceRef) (n : NackReason) (e : Entry N) (w : Forwarder N C)
      → IsValid e
      → (on_outgoing_nack x f n e w ≡ (e, w))
        ⊎ ((r : InRecord N) × (i : Interest N) × (get_in_record f e ≡ some r)
            × (r.interest ≡ some i)
            × (is_point_to_point (x.faces f).link_type ≡ true)
            × ((x.faces f).id ≢ x.invalid_face_id)
            × ((on_outgoing_nack x f n e w).0 ≡ delete_in_record f e)
            × ((on_outgoing_nack x f n e w).1.sent
                ≡ w.sent ++ nack_on f (record { interest = i; reason = n }) ∷ [])
            × (get_in_record f (on_outgoing_nack x f n e w).0 ≡ none))
  unfolding on_outgoing_nack
  on_outgoing_nack_lem f n e w v = elim (Bool-cases ((x.faces f).id == x.invalid_face_id)) [
    | inl invalid ↦ inl (rw (invalid, on_outgoing_nack) refl)
    | inr valid ↦ elim (Option-cases (get_in_record f e)) [
      | inl absent ↦ inl (rw (valid, on_outgoing_nack, absent) refl)
      | inr (r, there) ↦ elim (Bool-cases (is_point_to_point (x.faces f).link_type)) [
        | inr other ↦ inl (rw (valid, on_outgoing_nack, there, other) refl)
        | inl p2p ↦ elim (Option-cases r.interest) [
          | inl unset ↦ inl (rw (valid, on_outgoing_nack, there, p2p, unset) refl)
          | inr (i, found) ↦
              let gone : get_in_record f (delete_in_record f e) ≡ none =
                unfold get_in_record delete_in_record in
                ground (arith, find_record-delete_record in_face f f e.in_records v.ins) in
              inr (
                r,
                i,
                there,
                found,
                p2p,
                ground arith,
                rw (valid, on_outgoing_nack, there, p2p, found) refl,
                rw (valid, on_outgoing_nack, there, p2p, found) refl,
                rw (valid, on_outgoing_nack, there, p2p, found) gone,
              )
        ]
      ]
    ]
  ]
