-- ===== src/Tests/ForwarderTests.antt =====
-- A forwarder with three faces, the second of them not point to point, and best-route's answers.
use mathlib.Core.List.{Memᴰ}
use nfd_out_of_the_box.Packet.{
  is_point_to_point, FaceRef, Interest, Data, local, non_local, point_to_point, multi_access,
  congestion,
}
use nfd_out_of_the_box.Pit.{
  delete_in_record, new_entry, get_in_record, insert_or_update_in_record,
  insert_or_update_out_record, Entry, InRecord, OutRecord,
}
use nfd_out_of_the_box.DeadNonceList.{contains, DeadNonceList, has}
use nfd_out_of_the_box.Fw.BestRoute.{send_interest}
use nfd_out_of_the_box.Fw.NackTraits.{wait}
use nfd_out_of_the_box.Forwarder.{
  violates_localhost, violates_localhost, nack_on, data_on, on_outgoing_nack, Forwarder, Parts,
  ForwarderCounters,
}
use nfd_out_of_the_box.Forwarder.Interests.{
  erase_entry, note_interest, on_interest_finalize, on_incoming_interest,
}
use nfd_out_of_the_box.Tests.PitTests.{interest, entry, entry-IsValid}
use nfd_out_of_the_box.Prelude.{
  length, ℕ, ◌+◌, ◌-◌, ◌*◌, ◌≤◌, ◌<◌, ◌≡◌, refl, ◌≢◌, ◌⊎◌, true, false, ◌&&◌, none, some, List, [],
  ◌∷◌, ◌++◌, map, arith, ltb, ◌==◌, if◌then◌else◌,
}
use nfd_out_of_the_box.Forwarder.Answers.{on_incoming_data, count_matches}
use nfd_out_of_the_box.Forwarder.Loops.{
  on_interest_finalize-loop, on_incoming_interest-dead_nonce, SendsLoopNack,
}
use nfd_out_of_the_box.Forwarder.Expiry.{SomeExpires, note_interest-expiry, AllExpire}
use nfd_out_of_the_box.Forwarder.Downstreams.{
  on_incoming_data-several, satisfied, waits, may_send, IsAscending,
}
use nfd_out_of_the_box.Forwarder.OutgoingNacks.{on_outgoing_nack_lem}
use nfd_out_of_the_box.Forwarder.Scope.{on_incoming_data-AllInScope, AllInScope}
use nfd_out_of_the_box.Fw.Algorithm.{has_pending_out_records, NextHop}
use nfd_out_of_the_box.Fw.Retx.{RetxSuppressionExponential}
use nfd_out_of_the_box.Forwarder.Strategies.{after_receive_interest_multicast}
use nfd_out_of_the_box.Forwarder.Sendings.{after_receive_interest_multicast-waits}

abbrev parts : Parts ℕ (List (Data ℕ))
parts = record {
  faces = λ f. record {
    id = 256 + f;
    scope = if f == 1 then local else non_local;
    link_type = if f == 2 then multi_access else point_to_point;
  };
  invalid_face_id = 0;
  face_by_id = λ i. if ltb 256 i then some (i - 256) else none;
  scope = record { localhost = λ n. n == 1; localhop = λ n. n == 2 };
  name_eq = λ a b. a == b;
  matches_data = λ i d. i.name == d.name;
  make_entry = λ name nonce. name * 1000 + nonce;
  in_producer_region = λ i. false;
  caches_unsolicited = λ f. false;
  find = λ i c. (c, none);
  insert = λ d unsolicited c. d ∷ c;
  after_receive_interest = λ now ingress i e. (e, send_interest 3 ∷ []);
  after_receive_nack = λ now ingress nack e. (e, wait);
}

abbrev no_counts : ForwarderCounters
no_counts = record {
  in_interests = 0;
  out_interests = 0;
  in_data = 0;
  out_data = 0;
  in_nacks = 0;
  out_nacks = 0;
  satisfied_interests = 0;
  unsatisfied_interests = 0;
  unsolicited_data = 0;
  cs_hits = 0;
  cs_misses = 0;
}

abbrev nonces : DeadNonceList
nonces = record {
  lifetime = 6000000000;
  queue = 0 ∷ 40077 ∷ 0 ∷ [];
  capacity = 8;
  actual_mark_counts = [];
}

-- Two entries of one Name.
abbrev forwarder : Forwarder ℕ (List (Data ℕ))
forwarder = record {
  counters = no_counts;
  pit = entry ∷ record entry { interest = record interest { can_be_prefix = true } } ∷ [];
  dead_nonce_list = nonces;
  cs = [];
  sent = [];
}

abbrev data_packet : Data ℕ
data_packet = record { name = 40; freshness_period = 1000; content = 1 ∷ 2 ∷ [] }

several_matches : 1 < count_matches parts data_packet forwarder.pit
unfolding count_matches insert_or_update_out_record insert_or_update_in_record new_entry
several_matches = omega arith

-- Data on face 2 at 5000 ns; face 1 waits for it.
on_incoming_data-several_example :
    (faces : List FaceRef) × ((on_incoming_data parts 5000 2 data_packet forwarder).sent
      ≡ [] ++ map (λ h. data_on h data_packet) faces)
    × IsAscending faces
    × (contains 1 faces
        ≡ may_send parts 2 data_packet 1 && waits parts 5000 data_packet 1 forwarder.pit)
    × ((on_incoming_data parts 5000 2 data_packet forwarder).pit
        ≡ map (satisfied parts 5000 2 data_packet) forwarder.pit)
on_incoming_data-several_example =
    on_incoming_data-several parts 5000 2 data_packet 1 forwarder
      (unfold violates_localhost in refl) several_matches

on_incoming_interest-dead_nonce_example :
    ((on_incoming_interest parts 6000 3 interest forwarder).pit ≡ forwarder.pit)
    × ((on_incoming_interest parts 6000 3 interest forwarder).cs ≡ [])
    × ((on_incoming_interest parts 6000 3 interest forwarder).dead_nonce_list ≡ nonces)
    × SendsLoopNack parts 3 interest forwarder
        (on_incoming_interest parts 6000 3 interest forwarder)
on_incoming_interest-dead_nonce_example =
    on_incoming_interest-dead_nonce parts 6000 3 interest forwarder (unfold has contains in refl)

first_out : OutRecord
first_out = record {
  base = record {
    face = 2;
    last_nonce = 77;
    last_renewed = 1000;
    expiry = 4000001000;
    suppression_interval = none;
  };
  incoming_nack = none;
}

unmet_entry : Entry ℕ
unfolding first_out
unmet_entry = record entry { out_records = first_out ∷ []; is_satisfied = false }

unmet_first : Memᴰ first_out unmet_entry.out_records
unfolding unmet_entry
unmet_first = Memᴰ.head refl

unmet_few : length unmet_entry.out_records ≤ forwarder.dead_nonce_list.capacity
unfolding unmet_entry
unmet_few = omega arith

unmet_names :
    (unmet_entry.is_satisfied ≡ false)
    × (interest.name ≡ unmet_entry.interest.name)
    × (interest.nonce ≡ first_out.last_nonce)
unfolding unmet_entry first_out insert_or_update_out_record insert_or_update_in_record new_entry
unmet_names = (refl, refl, refl)

on_interest_finalize-loop_example :
    ((on_incoming_interest parts 6000 3 interest
        (on_interest_finalize parts unmet_entry forwarder)).pit
      ≡ erase_entry parts unmet_entry.interest forwarder.pit)
    × SendsLoopNack parts 3 interest forwarder (
        on_incoming_interest parts 6000 3 interest
          (on_interest_finalize parts unmet_entry forwarder))
on_interest_finalize-loop_example =
    on_interest_finalize-loop parts 6000 3 interest first_out unmet_entry forwarder unmet_names.0
      unmet_first unmet_few unmet_names.1 unmet_names.2

note_interest-expiry_example :
    (t : ℕ) × (last : ℕ) × ((note_interest parts 2000 3 interest entry).expiry_timer ≡ some t)
    × (2000 ≤ t)
    × (t ≤ last)
    × (last < t + 1000000)
    × SomeExpires last (note_interest parts 2000 3 interest entry).in_records
    × AllExpire last (note_interest parts 2000 3 interest entry).in_records
note_interest-expiry_example = note_interest-expiry parts 2000 3 interest entry

on_outgoing_nack_lem_example :
    (on_outgoing_nack parts 1 congestion entry forwarder ≡ (entry, forwarder))
    ⊎ ((r : InRecord ℕ) × (i : Interest ℕ) × (get_in_record 1 entry ≡ some r)
        × (r.interest ≡ some i)
        × (is_point_to_point (parts.faces 1).link_type ≡ true)
        × ((parts.faces 1).id ≢ parts.invalid_face_id)
        × ((on_outgoing_nack parts 1 congestion entry forwarder).0 ≡ delete_in_record 1 entry)
        × ((on_outgoing_nack parts 1 congestion entry forwarder).1.sent
            ≡ [] ++ nack_on 1 (record { interest = i; reason = congestion }) ∷ [])
        × (get_in_record 1 (on_outgoing_nack parts 1 congestion entry forwarder).0 ≡ none))
on_outgoing_nack_lem_example = on_outgoing_nack_lem parts 1 congestion entry forwarder entry-IsValid

-- Data under /localhost has gone to the local face.
abbrev after_local : Forwarder ℕ (List (Data ℕ))
after_local = record forwarder {
  sent = data_on 1 (record { name = 1; freshness_period = 0; content = [] }) ∷ [];
}

on_incoming_data-AllInScope_example :
    AllInScope parts (on_incoming_data parts 5000 2 data_packet after_local).sent
on_incoming_data-AllInScope_example =
    on_incoming_data-AllInScope parts 5000 2 data_packet after_local
      (unfold violates_localhost in refl, tt)

abbrev two_next_hops : List NextHop
two_next_hops = record { face = 2; cost = 1 } ∷ record { face = 3; cost = 2 } ∷ []

abbrev doubling : RetxSuppressionExponential
doubling = record { initial_interval = 10000000; multiply = λ t. 2 * t; max_interval = 250000000 }

after_receive_interest_multicast-waits_example :
    (e : Entry ℕ) × (f : Forwarder ℕ (List (Data ℕ))) × (after_receive_interest_multicast parts 2000
        3 interest doubling two_next_hops
        (entry, forwarder)
      ≡ some (e, f))
    × ((has_pending_out_records 2000 e ≡ true) ⊎ (e.expiry_timer ≡ some 2000))
after_receive_interest_multicast-waits_example =
    after_receive_interest_multicast-waits parts 2000 3 interest doubling two_next_hops
      (entry, forwarder)
