-- ===== src/Pit.antt =====
-- daemon/table/pit-entry.cpp with the face records of pit-face-record.cpp, pit-in-record.cpp and
-- pit-out-record.cpp. A record's strategy info is the suppression interval that
-- fw/retx-suppression-exponential.cpp stores there, the only one modelled.
pub mod Records
pub mod Lookup
pub mod Distinct
pub mod Laws
use nfd_out_of_the_box.Prelude.{
  ℕ, ◌+◌, min, Bool, false, true, Option, none, some, List, [], ◌∷◌, ◌==◌, if◌then◌else◌,
}
use nfd_out_of_the_box.Packet.{FaceRef, Interest, Nack, NackReason, milliseconds}
use Records.{find_record, has_record, modify_record, delete_record, insert_or_update}

pub record FaceRecord : Type 0 where
  pub face : FaceRef
  pub last_nonce : ℕ
  pub last_renewed : ℕ
  pub expiry : ℕ
  pub suppression_interval : Option ℕ

pub record InRecord (N : Type 0) : Type 0 where
  pub base : FaceRecord
  pub open base use *
  pub interest : Option (Interest N)

pub record OutRecord : Type 0 where
  pub base : FaceRecord
  pub open base use *
  pub incoming_nack : Option NackReason

-- Ten days in milliseconds.
abbrev pub max_lifetime : ℕ
max_lifetime = 864000000

-- TimePoint::min() is written 0: `update` follows every construction and overwrites it.
abbrev pub new_face_record : FaceRef → FaceRecord
new_face_record f = record {
  face = f;
  last_nonce = 0;
  last_renewed = 0;
  expiry = 0;
  suppression_interval = none;
}

-- The expiry timer is the time at which `onInterestFinalize` is scheduled.
pub record Entry (N : Type 0) : Type 0 where
  pub interest : Interest N
  pub in_records : List (InRecord N)
  pub out_records : List OutRecord
  pub expiry_timer : Option ℕ
  pub is_satisfied : Bool
  pub data_freshness_period : ℕ
  pub suppression_interval : Option ℕ

module _ {N : Type 0} where
  unfoldable pub face_record_update : ℕ → Interest N → FaceRecord → FaceRecord
  face_record_update now i r = record r {
    last_nonce = i.nonce;
    last_renewed = now;
    expiry = now + milliseconds (min i.lifetime max_lifetime);
  }

  unfoldable pub in_record_update : ℕ → Interest N → InRecord N → InRecord N
  in_record_update now i r = record { base = face_record_update now i r.base; interest = some i }

  unfoldable pub out_record_update : ℕ → Interest N → OutRecord → OutRecord
  out_record_update now i r = record r { base = face_record_update now i r.base }

  unfoldable pub set_incoming_nack : Nack N → OutRecord → OutRecord × Bool
  set_incoming_nack n r =
      if n.interest.nonce == r.last_nonce
      then (record r { incoming_nack = some n.reason }, true)
      else (r, false)

  abbrev pub in_face : InRecord N → FaceRef
  in_face r = r.face

  unfoldable pub new_entry : Interest N → Entry N
  new_entry i = record {
    interest = i;
    in_records = [];
    out_records = [];
    expiry_timer = none;
    is_satisfied = false;
    data_freshness_period = 0;
    suppression_interval = none;
  }

abbrev pub out_face : OutRecord → FaceRef
out_face r = r.face

module _ {N : Type 0} where
  unfoldable pub get_in_record : FaceRef → Entry N → Option (InRecord N)
  get_in_record f e = find_record in_face f e.in_records

  unfoldable pub get_out_record : FaceRef → Entry N → Option OutRecord
  get_out_record f e = find_record out_face f e.out_records

  unfoldable pub insert_or_update_in_record : ℕ → FaceRef → Interest N → Entry N → Entry N
  insert_or_update_in_record now f i e = record e {
    in_records =
        insert_or_update in_face (in_record_update now i)
          (record { base = new_face_record f; interest = none }) f e.in_records;
  }

  unfoldable pub insert_or_update_out_record : ℕ → FaceRef → Interest N → Entry N → Entry N
  insert_or_update_out_record now f i e = record e {
    out_records =
        insert_or_update out_face (out_record_update now i)
          (record { base = new_face_record f; incoming_nack = none }) f e.out_records;
  }

  unfoldable pub delete_in_record : FaceRef → Entry N → Entry N
  delete_in_record f e = record e { in_records = delete_record in_face f e.in_records }

  unfoldable pub delete_out_record : FaceRef → Entry N → Entry N
  delete_out_record f e = record e { out_records = delete_record out_face f e.out_records }

  unfoldable pub clear_in_records : Entry N → Entry N
  clear_in_records e = record e { in_records = [] }

  -- `Pit::deleteInOutRecords`
  unfoldable pub delete_in_out_records : FaceRef → Entry N → Entry N
  unfolding delete_in_record delete_out_record
  delete_in_out_records f e = delete_out_record f (delete_in_record f e)

  -- `pit->getOutRecord(face)->setIncomingNack(nack)`: nothing without an out-record.
  unfoldable pub record_nack : FaceRef → Nack N → Entry N → Entry N
  record_nack f n e = record e {
    out_records = modify_record out_face f (λ r. (set_incoming_nack n r).0) e.out_records;
  }
