-- ===== src/Forwarder.antt =====
-- The state of daemon/fw/forwarder.cpp and its outgoing pipelines. The parts that the pipelines
-- call are the record `Parts`: the Content Store, the strategy in effect, the policy for unsolicited
-- Data and the tables of faces and regions. A pipeline works on one PIT entry, taken out of the
-- table; a packet sent on a face is the last of `sent`. Tags and PIT tokens are not modelled.
pub mod Interests
pub mod Strategies
pub mod Sendings
pub mod Nacks
pub mod Answers
pub mod Downstreams
pub mod Loops
pub mod Scope
pub mod Expiry
pub mod OutgoingNacks
use nfd_out_of_the_box.Packet.{
  is_point_to_point, FaceRef, Face, Interest, Nack, Data, NackReason, is_local, milliseconds,
}
use nfd_out_of_the_box.Pit.{
  Entry, InRecord, OutRecord, insert_or_update_out_record, get_in_record, get_out_record,
  delete_in_record,
}
use nfd_out_of_the_box.DeadNonceList.{DeadNonceList, add}
use nfd_out_of_the_box.Fw.Algorithm.{ScopePrefix}
use nfd_out_of_the_box.Fw.BestRoute.{Action}
use nfd_out_of_the_box.Fw.NackTraits.{NackAction}
use nfd_out_of_the_box.Prelude.{
  ℕ, zero, suc, ◌+◌, ◌-◌, ◌*◌, ◌/◌, ◌%◌, ◌^◌, ◌≤◌, ◌<◌, min, max, ◌≡◌, refl, sym, ap, ◌∙◌, subst,
  ◌≢◌, ◌↔◌, ◌⊎◌, inl, inr, Bool, true, false, not, ◌&&◌, ◌||◌, Option, none, some, List, [], ◌∷◌,
  ◌++◌, map, arith, ltb, leb, ◌==◌, if◌then◌else◌, Bool-cases, Option-cases, ==_iff,
}

pub record ForwarderCounters : Type 0 where
  pub in_interests : ℕ
  pub out_interests : ℕ
  pub in_data : ℕ
  pub out_data : ℕ
  pub in_nacks : ℕ
  pub out_nacks : ℕ
  pub satisfied_interests : ℕ
  pub unsatisfied_interests : ℕ
  pub unsolicited_data : ℕ
  pub cs_hits : ℕ
  pub cs_misses : ℕ

-- What the forwarder hands to a face.
pub data Sent (N : Type 0) : Type 0 where
  interest_on : FaceRef → Interest N → Sent N
  data_on : FaceRef → Data N → Sent N
  nack_on : FaceRef → Nack N → Sent N

pub record Forwarder (N : Type 0) (C : Type 0) : Type 0 where
  pub counters : ForwarderCounters
  pub pit : List (Entry N)
  pub dead_nonce_list : DeadNonceList
  pub cs : C
  pub sent : List (Sent N)

-- `invalid_face_id` is ndn-cxx's constant. `find` gives the store after the lookup too, since a policy may reorder its queue; the Bool of
-- `insert` says that the Data is unsolicited.
pub record Parts (N : Type 0) (C : Type 0) : Type 0 where
  pub faces : FaceRef → Face
  pub invalid_face_id : ℕ
  pub face_by_id : ℕ → Option FaceRef
  pub scope : ScopePrefix N
  pub name_eq : N → N → Bool
  pub matches_data : Interest N → Data N → Bool
  pub make_entry : N → ℕ → ℕ
  pub in_producer_region : Interest N → Bool
  pub caches_unsolicited : Face → Bool
  pub find : Interest N → C → C × Option (Data N)
  pub insert : Data N → Bool → C → C
  pub after_receive_interest : ℕ → FaceRef → Interest N → Entry N → Entry N × List Action
  pub after_receive_nack : ℕ → FaceRef → Nack N → Entry N → Entry N × NackAction

-- `setExpiryTimer`, with the duration in milliseconds.
unfoldable pub set_expiry_timer : {N : Type 0} → ℕ → ℕ → Entry N → Entry N
set_expiry_timer now duration e = record e { expiry_timer = some (now + milliseconds duration) }

module _ {N : Type 0} {C : Type 0} where
  abbrev pub send : Sent N → Forwarder N C → Forwarder N C
  send x f = record f { sent = f.sent ++ x ∷ [] }

module _ {N : Type 0} {C : Type 0} (x : Parts N C) where
  unfoldable pub violates_localhost : FaceRef → N → Bool
  violates_localhost f name = not (is_local (x.faces f).scope) && x.scope.localhost name

  abbrev pub has_no_hops_left : Interest N → Bool
  has_no_hops_left i = elim i.hop_limit [ none ↦ false | some h ↦ h == 0 ]

  unfoldable pub on_outgoing_interest :
      ℕ → FaceRef → Interest N → Entry N → Forwarder N C → Entry N × Forwarder N C
  on_outgoing_interest now egress i e f =
      if has_no_hops_left i && not (is_local (x.faces egress).scope) then (e, f) else (
        insert_or_update_out_record now egress i e,
        send (interest_on egress i) (record f {
          counters = record (f.counters) { out_interests = f.counters.out_interests + 1 };
        }),
      )

  unfoldable pub on_outgoing_data : Data N → FaceRef → Forwarder N C → Forwarder N C
  unfolding violates_localhost
  on_outgoing_data d egress f =
      if (x.faces egress).id == x.invalid_face_id
      then f
      else if violates_localhost egress d.name
      then f
      else send (data_on egress d)
          (record f { counters = record (f.counters) { out_data = f.counters.out_data + 1 } })

  -- The Nack carries the Interest of the in-record, which every in-record in the table has.
  unfoldable pub on_outgoing_nack :
      FaceRef → NackReason → Entry N → Forwarder N C → Entry N × Forwarder N C
  on_outgoing_nack egress reason e f =
      if (x.faces egress).id == x.invalid_face_id then (e, f) else elim (get_in_record egress e) [
        | none ↦ (e, f)
        | some r ↦
            if not (is_point_to_point (x.faces egress).link_type) then (e, f) else elim r.interest [
              | none ↦ (e, f)
              | some i ↦ (
                delete_in_record egress e,
                send (nack_on egress (record { interest = i; reason = reason })) (record f {
                  counters = record (f.counters) { out_nacks = f.counters.out_nacks + 1 };
                }),
              )
            ]
      ]

  -- The Dead Nonce List insertions for the out-records of an entry.
  unfoldable pub add_nonces : N → List OutRecord → DeadNonceList → DeadNonceList
  add_nonces name [] d = d
  add_nonces name (r ∷ rs) d = add_nonces name rs (add x.make_entry name r.last_nonce d)

  -- `insertDeadNonceList`: all outgoing Nonces, or that of one upstream.
  unfoldable pub insert_dead_nonce_list : Option FaceRef → Entry N → DeadNonceList → DeadNonceList
  unfolding add_nonces
  insert_dead_nonce_list upstream e d =
      if e.is_satisfied
        && not (e.interest.must_be_fresh && ltb (milliseconds e.data_freshness_period) d.lifetime)
      then d
      else elim upstream [
        | none ↦ add_nonces e.interest.name e.out_records d
        | some face ↦ elim (get_out_record face e) [
          | none ↦ d
          | some r ↦ add x.make_entry e.interest.name r.last_nonce d
        ]
      ]
