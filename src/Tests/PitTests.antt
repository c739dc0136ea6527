-- ===== src/Tests/PitTests.antt =====
-- One PIT entry with a record of each kind.
use nfd_out_of_the_box.Packet.{Interest}
use nfd_out_of_the_box.Pit.{
  Entry, new_entry, insert_or_update_in_record, insert_or_update_out_record,
}
use nfd_out_of_the_box.Pit.Laws.{
  IsValid, new_entry-IsValid, insert_or_update_in_record-IsValid,
  insert_or_update_out_record-IsValid,
}
use nfd_out_of_the_box.Prelude.{ℕ, true, false, none}

abbrev pub interest : Interest ℕ
interest = record {
  name = 40;
  can_be_prefix = false;
  must_be_fresh = true;
  nonce = 77;
  lifetime = 4000;
  hop_limit = none;
  has_forwarding_hint = false;
  next_hop_face_id = none;
}

-- Received on face 1 and sent on face 2.
abbrev pub entry : Entry ℕ
entry =
    insert_or_update_out_record 1000 2 interest
      (insert_or_update_in_record 900 1 interest (new_entry interest))

pub entry-IsValid : IsValid entry
entry-IsValid =
    insert_or_update_out_record-IsValid 1000 2 interest _
      (insert_or_update_in_record-IsValid 900 1 interest _ (new_entry-IsValid interest))
