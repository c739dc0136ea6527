-- ===== src/Pit/Laws.antt =====
-- The record operations of a PIT entry.
use nfd_out_of_the_box.Prelude.{
  ℕ, ◌+◌, ◌*◌, ◌^◌, ◌≤◌, ◌<◌, ◌≡◌, refl, none, some, ◌==◌, arith, if◌then◌else◌,
}
use nfd_out_of_the_box.Packet.{Interest, Nack}
use nfd_out_of_the_box.Pit.{
  Entry, OutRecord, FaceRecord, in_face, out_face, face_record_update, in_record_update,
  out_record_update, get_in_record, get_out_record, insert_or_update_in_record,
  insert_or_update_out_record, delete_in_record, delete_out_record, delete_in_out_records,
  clear_in_records, record_nack, set_incoming_nack, new_face_record, new_entry,
}
use nfd_out_of_the_box.Pit.Lookup.{
  or_else, map_option, find_record-insert_or_update, find_record-modify_record,
}
use nfd_out_of_the_box.Pit.Distinct.{
  IsDistinct, insert_or_update-IsDistinct, modify_record-IsDistinct, delete_record-IsDistinct,
  find_record-delete_record,
}

module _ {N : Type 0} where
  -- Each face has one in-record and one out-record at most.
  pub record IsValid (e : Entry N) : Type 0 where
    pub ins : IsDistinct in_face e.in_records
    pub outs : IsDistinct out_face e.out_records

  pub new_entry-IsValid : (i : Interest N) → IsValid (new_entry i)
  unfolding new_entry
  new_entry-IsValid i = record { ins = tt; outs = tt }

  pub insert_or_update_in_record-IsValid :
      (now f : ℕ) (i : Interest N) (e : Entry N)
      → IsValid e
      → IsValid (insert_or_update_in_record now f i e)
  unfolding insert_or_update_in_record in_record_update face_record_update
  insert_or_update_in_record-IsValid now f i e v = record {
    ins = insert_or_update-IsDistinct in_face f _ _ e.in_records refl (λ r. refl) v.ins;
    outs = v.outs;
  }

  pub insert_or_update_out_record-IsValid :
      (now f : ℕ) (i : Interest N) (e : Entry N)
      → IsValid e
      → IsValid (insert_or_update_out_record now f i e)
  unfolding insert_or_update_out_record out_record_update face_record_update
  insert_or_update_out_record-IsValid now f i e v = record {
    ins = v.ins;
    outs = insert_or_update-IsDistinct out_face f _ _ e.out_records refl (λ r. refl) v.outs;
  }

  pub delete_in_record-IsValid : (f : ℕ) (e : Entry N) → IsValid e → IsValid (delete_in_record f e)
  unfolding delete_in_record
  delete_in_record-IsValid f e v = record {
    ins = delete_record-IsDistinct in_face f e.in_records v.ins;
    outs = v.outs;
  }

  pub delete_out_record-IsValid :
      (f : ℕ) (e : Entry N) → IsValid e → IsValid (delete_out_record f e)
  unfolding delete_out_record
  delete_out_record-IsValid f e v = record {
    ins = v.ins;
    outs = delete_record-IsDistinct out_face f e.out_records v.outs;
  }

  pub clear_in_records-IsValid : (e : Entry N) → IsValid e → IsValid (clear_in_records e)
  unfolding clear_in_records
  clear_in_records-IsValid e v = record { ins = tt; outs = v.outs }

  set_incoming_nack-face :
      (n : Nack N) (r : OutRecord) → out_face (set_incoming_nack n r).0 ≡ r.face
  unfolding set_incoming_nack
  set_incoming_nack-face n r = ground arith

  pub record_nack-IsValid :
      (f : ℕ) (n : Nack N) (e : Entry N) → IsValid e → IsValid (record_nack f n e)
  unfolding record_nack
  record_nack-IsValid f n e v = record {
    ins = v.ins;
    outs = modify_record-IsDistinct out_face f _ e.out_records (set_incoming_nack-face n) v.outs;
  }

  -- The face's in-record then holds this Interest, and no other record changes.
  pub get_in_record-insert_or_update_in_record :
      (now f g : ℕ) (i : Interest N) (e : Entry N)
      → get_in_record g (insert_or_update_in_record now f i e) ≡ (
          if g == f
          then some (
              in_record_update now i (
                or_else (get_in_record f e) (record { base = new_face_record f; interest = none })))
          else get_in_record g e)
  unfolding get_in_record insert_or_update_in_record in_record_update face_record_update
  get_in_record-insert_or_update_in_record now f g i e =
      find_record-insert_or_update in_face f g _ _ e.in_records refl (λ r. refl)

  -- The same of the out-records.
  pub get_out_record-insert_or_update_out_record :
      (now f g : ℕ) (i : Interest N) (e : Entry N)
      → get_out_record g (insert_or_update_out_record now f i e) ≡ (
          if g == f
          then some (
              out_record_update now i (
                or_else
                  (get_out_record f e)
                  (record { base = new_face_record f; incoming_nack = none })))
          else get_out_record g e)
  unfolding get_out_record insert_or_update_out_record out_record_update face_record_update
  get_out_record-insert_or_update_out_record now f g i e =
      find_record-insert_or_update out_face f g _ _ e.out_records refl (λ r. refl)

  -- In a valid entry `Pit::deleteInOutRecords` leaves no record of the face, and keeps those of
  -- every other face.
  pub delete_in_out_records_lem :
      (f g : ℕ) (e : Entry N)
      → IsValid e
      → (get_in_record g (delete_in_out_records f e) ≡ (if g == f then none else get_in_record g e))
        × (get_out_record g (delete_in_out_records f e)
            ≡ (if g == f then none else get_out_record g e))
  unfolding delete_in_out_records get_in_record get_out_record delete_in_record delete_out_record
  delete_in_out_records_lem f g e v = (
    find_record-delete_record in_face f g e.in_records v.ins,
    find_record-delete_record out_face f g e.out_records v.outs,
  )

  -- A Nack is recorded on the out-record of its face exactly when their Nonces agree, and no
  -- other record changes.
  pub get_out_record-record_nack :
      (f g : ℕ) (n : Nack N) (e : Entry N)
      → get_out_record g (record_nack f n e) ≡ (
          if g == f
          then map_option
              (λ r.
                if n.interest.nonce == r.last_nonce
                then record r { incoming_nack = some n.reason }
                else r)
              (get_out_record g e)
          else get_out_record g e)
  unfolding get_out_record record_nack set_incoming_nack
  get_out_record-record_nack f g n e = ground (
    arith,
    find_record-modify_record out_face f g (λ r. (set_incoming_nack n r).0) e.out_records
        (set_incoming_nack-face n),
  )

  -- The expiry of an updated record lies between `now` and ten days later, so it fits a signed
  -- 64-bit count of nanoseconds while `now` is ten days below its end.
  pub face_record_update_expiry :
      (now : ℕ) (i : Interest N) (r : FaceRecord)
      → now + 864000000 * 1000000 < 2 ^ 63
      → (now ≤ (face_record_update now i r).expiry)
        × ((face_record_update now i r).expiry < 2 ^ 63)
        × ((face_record_update now i r).last_renewed ≡ now)
        × ((face_record_update now i r).last_nonce ≡ i.nonce)
  unfolding face_record_update
  face_record_update_expiry now i r h = (omega arith, omega arith, refl, refl)
