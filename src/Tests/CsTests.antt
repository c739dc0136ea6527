-- ===== src/Tests/CsTests.antt =====
-- A store of two packets at most; a Name is a number and so is a full Name.
use nfd_out_of_the_box.Packet.{Data}
use nfd_out_of_the_box.Cs.{key_of, find, insert, Cs, CsEntry, Names}
use nfd_out_of_the_box.Cs.Bounds.{find-IsValid, insert-IsValid, IsValid}
use nfd_out_of_the_box.Tests.PitTests.{interest}
use nfd_out_of_the_box.Cs.Placement.{IsPlaced, IsReachable-IsPlaced, constructed, attached}
use nfd_out_of_the_box.Cs.PriorityFifo.{
  Attributes, PriorityFifoPolicy, empty_policy, put_info, queue_fifo, attach_queue, enter, push_to,
  choose_queue, choose_event,
}
use nfd_out_of_the_box.Prelude.{ℕ, ◌≡◌, refl, true, false, [], ◌∷◌, arith, ltb, ◌==◌, some}
use nfd_out_of_the_box.Pit.Records.{has_record}
use nfd_out_of_the_box.Cs.Recency.{insert-has_record}

abbrev names : Names ℕ
names = record {
  full_name = λ d. d.name;
  less = λ a b. ltb a b;
  matches_data = λ i d. i.name == d.name;
  no_cache = λ d. false;
  has_prefix = λ n d. n == d.name;
}

abbrev packet_of : ℕ → Data ℕ
packet_of n = record { name = n; freshness_period = 1000; content = n ∷ [] }

abbrev entry_of : ℕ → CsEntry ℕ
entry_of n = record { data_packet = packet_of n; is_unsolicited = false; fresh_until = 1000000000 }

-- 30 came before 40.
abbrev store : Cs ℕ
store = record {
  table = entry_of 30 ∷ entry_of 40 ∷ [];
  queue = 30 ∷ 40 ∷ [];
  limit = 2;
  should_admit = true;
  should_serve = true;
}

store-IsValid : IsValid names store
unfolding has_record
store-IsValid = (
  record {
    queued = (refl, (refl, tt));
    tabled = (refl, (refl, tt));
    same = λ k. refl;
    counts = refl;
  },
  omega arith,
)

insert-IsValid_example : IsValid names (insert names 5000 (packet_of 50) true store)
insert-IsValid_example = insert-IsValid names 5000 (packet_of 50) true store store-IsValid

find-IsValid_example : IsValid names (find names 5000 interest store).0
find-IsValid_example = find-IsValid names 5000 interest store store-IsValid

insert-has_record_example :
    has_record (key_of names) 50 (insert names 5000 (packet_of 50) true store).table ≡ true
insert-has_record_example =
    insert-has_record names 5000 (packet_of 50) true store store-IsValid refl (omega arith) refl

abbrev fresh : Attributes
fresh = record { is_unsolicited = false; is_fresh = true; freshness_period = 1000 }

abbrev attached_policy : PriorityFifoPolicy
attached_policy = record empty_policy {
  fifo = 7 ∷ [];
  entry_info_map =
      put_info 7 (some (record { queue_type = queue_fifo; move_stale_event = some 1100 }))
        empty_policy.entry_info_map;
}

attach_queue_run : attach_queue 100 fresh 7 empty_policy ≡ some attached_policy
unfolding attach_queue enter push_to choose_queue choose_event
attach_queue_run = refl

IsReachable-IsPlaced_example : IsPlaced 7 attached_policy
IsReachable-IsPlaced_example =
    IsReachable-IsPlaced 7
      (attached 100 fresh 7 empty_policy attached_policy constructed attach_queue_run)
